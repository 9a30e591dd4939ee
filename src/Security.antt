-- ===== src/Security.antt =====
-- `SecuritySanitizer.validate_key` of erii/security/sanitizer.py.
use Prim.Native.Nat.{ℕ}
use Prim.Native.Char.{code}
use Prim.Native.String as Text
use e_r_i_i.Prelude.{◌≡◌, refl, ◌≢◌, ◌↔◌, inl, inr, String, Bool, true, false, ◌||◌, arith}
use e_r_i_i.Prelude.Equality.{◌==◌, string_eq, nat_eq, Bool-cases, if◌then◌else◌}
use e_r_i_i.Prelude.Result.{Result, ok, err}
use e_r_i_i.Prelude.Text.{strip, starts_with, contains_text}

pub data KeyError : Type 0 where
  empty_key unsafe_key : KeyError

-- a character of this code point stands in the text
unfoldable pub contains_code : ℕ → String → Bool
contains_code n Text.[] = false
contains_code n (Text.◌∷◌ c s) = code c == n || contains_code n s

-- `..`, a slash of either kind, or the null character
unfoldable pub is_unsafe : String → Bool
unfolding contains_code contains_text
is_unsafe s = contains_text s ".." || contains_text s "/" || contains_code 92 s || contains_code 0 s

unfoldable pub validate_key : String → Result KeyError String
unfolding strip is_unsafe
validate_key s =
    if s == ""
    then err empty_key
    else (if is_unsafe (strip s) then err unsafe_key else ok (strip s))

-- Safe keys, read off their characters.

-- no character has this code point
abbrev pub LacksCode : ℕ → String → Type 0
LacksCode n Text.[] = Unit
LacksCode n (Text.◌∷◌ c s) = (code c ≢ n) × LacksCode n s

abbrev pub IsDotFirst : String → Type 0
IsDotFirst Text.[] = ⊥
IsDotFirst (Text.◌∷◌ c s) = code c ≡ 46

-- no dot follows a dot
abbrev pub LacksDoubleDot : String → Type 0
LacksDoubleDot Text.[] = Unit
LacksDoubleDot (Text.◌∷◌ c s) = (code c ≡ 46 → ¬ IsDotFirst s) × LacksDoubleDot s

-- no `..`, slash (47), backslash (92) or null character (0)
pub record IsSafeKey (k : String) : Type 0 where
  pub no_double_dot : LacksDoubleDot k
  pub no_slash : LacksCode 47 k
  pub no_backslash : LacksCode 92 k
  pub no_null : LacksCode 0 k

-- a dot comes first
dot_first : String → Bool
dot_first s = starts_with s "."

dot_first-IsDotFirst : (s : String) → (dot_first s ≡ true) ↔ IsDotFirst s
unfolding dot_first starts_with nat_eq
dot_first-IsDotFirst Text.[] = (λ h. absurd (ground arith), λ h. elim h [ ])
dot_first-IsDotFirst (Text.◌∷◌ c s) = (λ h. ground arith, λ h. ground arith)

contains_code-LacksCode : (n : ℕ) (s : String) → (contains_code n s ≡ false) ↔ LacksCode n s
unfolding contains_code nat_eq
contains_code-LacksCode n Text.[] = (λ h. tt, λ h. refl)
contains_code-LacksCode n (Text.◌∷◌ c s) =
    let (f, g) = contains_code-LacksCode n s in
    (λ h. (ground arith, f (ground arith)), λ h. ground (arith, h.0, g h.1))

contains_slash : (s : String) → contains_text s "/" ≡ contains_code 47 s
unfolding contains_text contains_code starts_with nat_eq
contains_slash Text.[] = refl
contains_slash (Text.◌∷◌ c s) = ground (arith, contains_slash s)

contains_double_dot : (s : String) → (contains_text s ".." ≡ false) ↔ LacksDoubleDot s
unfolding contains_text starts_with nat_eq dot_first
contains_double_dot Text.[] = (λ h. tt, λ h. refl)
contains_double_dot (Text.◌∷◌ c s) =
    let (f, g) = contains_double_dot s in
    let (to, from) = dot_first-IsDotFirst s in
    (
      λ h. (λ e d. absurd (ground (arith, from d)), f (ground arith)),
      λ h. elim (Bool-cases (dot_first s)) [
        | inl e ↦ ground (arith, h.0, to e, g h.1)
        | inr e ↦ ground (arith, g h.1)
      ],
    )

is_unsafe-IsSafeKey : (s : String) → (is_unsafe s ≡ false) ↔ IsSafeKey s
unfolding is_unsafe
is_unsafe-IsSafeKey s =
    let slash = contains_slash s in
    (
      λ h. record {
        no_double_dot = (contains_double_dot s).0 (ground arith);
        no_slash = (contains_code-LacksCode 47 s).0 (ground arith);
        no_backslash = (contains_code-LacksCode 92 s).0 (ground arith);
        no_null = (contains_code-LacksCode 0 s).0 (ground arith);
      },
      λ h.
          let a = (contains_double_dot s).1 h.no_double_dot in
          let b = (contains_code-LacksCode 47 s).1 h.no_slash in
          let c = (contains_code-LacksCode 92 s).1 h.no_backslash in
          let d = (contains_code-LacksCode 0 s).1 h.no_null in ground arith,
    )

-- `validate_key` returns exactly the stripped text, and this if and only if the text is not empty and
-- the stripped text has no `..`, slash, backslash or null character.
pub validate_key_iff-IsSafeKey :
    (s k : String) → (validate_key s ≡ ok k) ↔ ((s ≢ "") × (k ≡ strip s) × IsSafeKey (strip s))
unfolding validate_key
validate_key_iff-IsSafeKey s k = (
  λ h. (λ e. absurd (ground arith), ground arith, (is_unsafe-IsSafeKey (strip s)).0 (ground arith)),
  λ h. let safe = (is_unsafe-IsSafeKey (strip s)).1 h.2 in ground (arith, h.0, h.1),
)
