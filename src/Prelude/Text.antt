-- ===== src/Prelude/Text.antt =====
-- Python's `str`: stripping, substring search, and the order by code points.
use Prim.Native.Nat.{ℕ, suc}
use Prim.Native.Char.{Char, code}
use Prim.Native.String.{String}
use mathlib.Core.Path.{◌≡◌, refl}
use mathlib.Core.Logic.{inl, inr}
use mathlib.Core.Bool.{Bool, true, false, ◌&&◌, ◌||◌}
use native.Mathlib.Omega.{arith}
use text.Mathlib.TextEquality.{Char-path}
use e_r_i_i.Prelude.Equality.{◌==◌, nat_eq, Bool-cases, ltb, leb, if◌then◌else◌}
use e_r_i_i.Prelude.Order.{Ord}

-- The code points that `str.isspace` accepts, which are those that `str.strip` removes.
pub is_space : ℕ → Bool
is_space c =
    leb 9 c && leb c 13
    || leb 28 c && leb c 32
    || c == 0x85
    || c == 0xa0
    || c == 0x1680
    || leb 0x2000 c && leb c 0x200a
    || c == 0x2028
    || c == 0x2029
    || c == 0x202f
    || c == 0x205f
    || c == 0x3000

unfoldable pub lstrip : String → String
unfolding is_space nat_eq
lstrip String.[] = ""
lstrip (String.◌∷◌ c s) = let rest = lstrip s in if is_space (code c) then rest else String.◌∷◌ c s

-- a trailing space is dropped, and with it what was before it
drop_blank : Char → String → String
unfolding is_space nat_eq
drop_blank c String.[] = if is_space (code c) then "" else String.◌∷◌ c ""
drop_blank c (String.◌∷◌ d t) = String.◌∷◌ c (String.◌∷◌ d t)

unfoldable pub rstrip : String → String
unfolding drop_blank
rstrip String.[] = ""
rstrip (String.◌∷◌ c s) = drop_blank c (rstrip s)

-- `s.strip()`
unfoldable pub strip : String → String
unfolding lstrip rstrip
strip s = rstrip (lstrip s)

unfoldable pub starts_with : String → String → Bool
unfolding nat_eq
starts_with s String.[] = true
starts_with String.[] (String.◌∷◌ d t) = false
starts_with (String.◌∷◌ c s) (String.◌∷◌ d t) = code c == code d && starts_with s t

-- `len(s)`
unfoldable pub text_length : String → ℕ
text_length String.[] = 0
text_length (String.◌∷◌ c s) = suc (text_length s)

-- `t in s`
unfoldable pub contains_text : String → String → Bool
unfolding starts_with
contains_text String.[] t = starts_with "" t
contains_text (String.◌∷◌ c s) t = starts_with (String.◌∷◌ c s) t || contains_text s t

-- `s <= t`
unfoldable pub text_le : String → String → Bool
unfolding nat_eq
text_le String.[] t = true
text_le (String.◌∷◌ c s) String.[] = false
text_le (String.◌∷◌ c s) (String.◌∷◌ d t) =
    if code c == code d then text_le s t else ltb (code c) (code d)

text_le_total : (s t : String) → text_le s t ≡ false → text_le t s ≡ true
unfolding text_le
text_le_total String.[] t h = cc
text_le_total (String.◌∷◌ c s) String.[] h = refl
text_le_total (String.◌∷◌ c s) (String.◌∷◌ d t) h = ground (arith, text_le_total s t)

text_le_trans : (s t u : String) → text_le s t ≡ true → text_le t u ≡ true → text_le s u ≡ true
unfolding text_le
text_le_trans String.[] t u h k = refl
text_le_trans (String.◌∷◌ c s) String.[] u h k = cc
text_le_trans (String.◌∷◌ c s) (String.◌∷◌ d t) String.[] h k = cc
text_le_trans (String.◌∷◌ c s) (String.◌∷◌ d t) (String.◌∷◌ e u) h k =
    ground (arith, text_le_trans s t u)

text_le_antisymm : (s t : String) → text_le s t ≡ true → text_le t s ≡ true → s ≡ t
unfolding text_le
text_le_antisymm String.[] String.[] h k = refl
text_le_antisymm String.[] (String.◌∷◌ d t) h k = cc
text_le_antisymm (String.◌∷◌ c s) String.[] h k = cc
text_le_antisymm (String.◌∷◌ c s) (String.◌∷◌ d t) h k =
    ground (arith, text_le_antisymm s t, Char-path c d)

instance unfoldable pub string_ord : Ord String
unfolding text_le text_le_total text_le_trans text_le_antisymm
string_ord = record {
  le = text_le;
  le_total = text_le_total;
  le_trans = text_le_trans;
  le_antisymm = text_le_antisymm;
}

-- Stripping.

abbrev HeadIsText : String → Type 0
HeadIsText String.[] = Unit
HeadIsText (String.◌∷◌ c s) = is_space (code c) ≡ false

lstrip-HeadIsText : (s : String) → HeadIsText (lstrip s)
unfolding lstrip
lstrip-HeadIsText String.[] = tt
lstrip-HeadIsText (String.◌∷◌ c s) = elim (Bool-cases (is_space (code c))) [
  | inl e ↦ rw e (lstrip-HeadIsText s)
  | inr e ↦ rw e e
]

lstrip_of_HeadIsText : (s : String) → HeadIsText s → lstrip s ≡ s
unfolding lstrip
lstrip_of_HeadIsText String.[] h = refl
lstrip_of_HeadIsText (String.◌∷◌ c s) h = rw h

drop_blank-HeadIsText :
    (c : Char) (s : String) → is_space (code c) ≡ false → HeadIsText (drop_blank c s)
unfolding drop_blank
drop_blank-HeadIsText c String.[] h = rw h h
drop_blank-HeadIsText c (String.◌∷◌ d t) h = h

rstrip-HeadIsText : (s : String) → HeadIsText s → HeadIsText (rstrip s)
unfolding rstrip
rstrip-HeadIsText String.[] h = tt
rstrip-HeadIsText (String.◌∷◌ c s) h = drop_blank-HeadIsText c (rstrip s) h

rstrip-drop_blank :
    (c : Char) (s : String) → rstrip s ≡ s → rstrip (drop_blank c s) ≡ drop_blank c s
unfolding rstrip
rstrip-drop_blank c String.[] h = elim (Bool-cases (is_space (code c))) [
  | inl e ↦ rw e
  | inr e ↦ rw e (rw e)
]
rstrip-drop_blank c (String.◌∷◌ d t) h = rw h

rstrip_idem : (s : String) → rstrip (rstrip s) ≡ rstrip s
unfolding rstrip
rstrip_idem String.[] = refl
rstrip_idem (String.◌∷◌ c s) = rstrip-drop_blank c (rstrip s) (rstrip_idem s)

-- Stripping a stripped text changes nothing.
pub strip_idem : (s : String) → strip (strip s) ≡ strip s
unfolding strip
strip_idem s =
    rw (lstrip_of_HeadIsText _ (rstrip-HeadIsText _ (lstrip-HeadIsText s))) (rstrip_idem (lstrip s))
