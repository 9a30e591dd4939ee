-- ===== src/Prelude/Order.antt =====
-- Python's `<=` on keys: a total order as an interface, and tuples compared lexicographically.
use Prim.Native.Nat.{ℕ}
use mathlib.Core.Path.{◌≡◌}
use mathlib.Core.Bool.{Bool, true, false}
use native.Mathlib.Omega.{arith}
use e_r_i_i.Prelude.Equality.{Eq, ◌==◌, leb, if◌then◌else◌}

pub record Ord {ℓ} (A : Type ℓ) : Type ℓ where
  pub le : A → A → Bool
  pub le_total : (a b : A) → le a b ≡ false → le b a ≡ true
  pub le_trans : (a b c : A) → le a b ≡ true → le b c ≡ true → le a c ≡ true
  pub le_antisymm : (a b : A) → le a b ≡ true → le b a ≡ true → a ≡ b

module _ {ℓ κ} {A : Type ℓ} {B : Type κ} ⦃e : Eq A⦄ ⦃o : Ord A⦄ ⦃p : Ord B⦄ where
  -- the first components decide unless they are equal
  abbrev pair_le : A × B → A × B → Bool
  pair_le (a, b) (c, d) = if a == c then p.le b d else o.le a c

  pair_le_total : (x y : A × B) → pair_le x y ≡ false → pair_le y x ≡ true
  pair_le_total (a, b) (c, d) h = ground (arith, o.le_total a c, p.le_total b d)

  pair_le_trans : (x y z : A × B) → pair_le x y ≡ true → pair_le y z ≡ true → pair_le x z ≡ true
  pair_le_trans (a, b) (c, d) (f, g) h k =
      ground (arith, o.le_trans a c f, p.le_trans b d g, o.le_antisymm a c, o.le_antisymm c f)

  pair_le_antisymm : (x y : A × B) → pair_le x y ≡ true → pair_le y x ≡ true → x ≡ y
  pair_le_antisymm (a, b) (c, d) h k = ground (arith, o.le_antisymm a c, p.le_antisymm b d)

  instance unfoldable pub pair_ord : Ord (A × B)
  unfolding pair_le_total pair_le_trans pair_le_antisymm
  pair_ord = record {
    le = pair_le;
    le_total = pair_le_total;
    le_trans = pair_le_trans;
    le_antisymm = pair_le_antisymm;
  }

nat_le_antisymm : (a b : ℕ) → leb a b ≡ true → leb b a ≡ true → a ≡ b
nat_le_antisymm a b h k = ground arith

nat_le_trans : (a b c : ℕ) → leb a b ≡ true → leb b c ≡ true → leb a c ≡ true
nat_le_trans a b c h k = ground arith

nat_le_total : (a b : ℕ) → leb a b ≡ false → leb b a ≡ true
nat_le_total a b h = ground arith

instance unfoldable pub nat_ord : Ord ℕ
unfolding nat_le_total nat_le_trans nat_le_antisymm
nat_ord = record {
  le = leb;
  le_total = nat_le_total;
  le_trans = nat_le_trans;
  le_antisymm = nat_le_antisymm;
}
