-- ===== src/Archival/Tombstone/Laws.antt =====
-- `prefer_stronger_commitment` is a join.
use e_r_i_i.Prelude.{
  ◌≡◌, refl, sym, ap, ◌∙◌, ◌⊎◌, inl, inr, true, false, List, Option, none, some, arith,
}
use mathlib.Core.Path.{subst}
use e_r_i_i.Prelude.Equality.{◌==◌, option_eq, list_eq, string_eq, Bool-cases, if◌then◌else◌}
use e_r_i_i.Prelude.Result.{Result, ok, err, ok-injective}
use e_r_i_i.Archival.Types.{
  ArchivalTombstone, ArchivalArtifactReference, ArchivalError, conflict_error, archival_status_eq,
  archival_outcome_code_eq, archival_artifact_reference_eq,
}
use e_r_i_i.Archival.Tombstone.{
  same_identity, is_compatible_with, is_stronger, prefer_stronger_commitment,
}

same_identity_comm : (a b : ArchivalTombstone) → same_identity a b ≡ true → same_identity b a ≡ true
same_identity_comm a b h = ground arith

-- Tombstones of one identity differ in their commitments at most.
same_identity-eq :
    (a b : ArchivalTombstone)
    → same_identity a b ≡ true
    → a ≡ record b { artifact_commitments = a.artifact_commitments }
same_identity-eq a b h = ground arith

incompatible_comm :
    (a b : ArchivalTombstone) → same_identity a b ≡ false → same_identity b a ≡ false
incompatible_comm a b h = elim (Bool-cases (same_identity b a)) [
  | inr e ↦ e
  | inl e ↦ let f = same_identity_comm b a e in absurd (ground arith)
]

abbrev Commitments : Type 0
Commitments = Option (List ArchivalArtifactReference)

-- two versions of one tombstone
abbrev with_commitments : ArchivalTombstone → Commitments → ArchivalTombstone
with_commitments t c = record t { artifact_commitments = c }

join : ArchivalTombstone → Commitments → Commitments → Result ArchivalError ArchivalTombstone
join t none none = ok (with_commitments t none)
join t none (some d) = ok (with_commitments t (some d))
join t (some c) none = ok (with_commitments t (some c))
join t (some c) (some d) = if c == d then ok (with_commitments t (some c)) else err conflict_error

-- On versions of one tombstone the merge goes by the commitments.
prefer-join :
    (t : ArchivalTombstone) (c d : Commitments)
    → prefer_stronger_commitment (with_commitments t c) (with_commitments t d) ≡ join t c d
unfolding prefer_stronger_commitment is_compatible_with is_stronger join
prefer-join t none none = ground arith
prefer-join t none (some d) = ground arith
prefer-join t (some c) none = ground arith
prefer-join t (some c) (some d) = ground arith

join_comm : (t : ArchivalTombstone) (c d : Commitments) → join t c d ≡ join t d c
unfolding join
join_comm t none none = refl
join_comm t none (some d) = refl
join_comm t (some c) none = refl
join_comm t (some c) (some d) = elim (list_eq.dec c d) [ yes p ↦ rw p refl | no n ↦ ground arith ]

prefer_different :
    (a b : ArchivalTombstone)
    → same_identity a b ≡ false
    → prefer_stronger_commitment a b ≡ err conflict_error
unfolding prefer_stronger_commitment is_compatible_with
prefer_different a b h = rw (h, prefer_stronger_commitment, is_compatible_with) refl

-- The merge of two tombstones does not depend on their order: it is the same tombstone, or the same
-- conflict.
pub prefer_stronger_commitment_comm :
    (a b : ArchivalTombstone) → prefer_stronger_commitment a b ≡ prefer_stronger_commitment b a
prefer_stronger_commitment_comm a b = elim (Bool-cases (same_identity a b)) [
  | inr e ↦ prefer_different a b e ∙ sym (prefer_different b a (incompatible_comm a b e))
  | inl e ↦
      let p = same_identity-eq a b e in
      subst
        (λ (x : ArchivalTombstone). prefer_stronger_commitment x b ≡ prefer_stronger_commitment b x)
        (sym p)
        (prefer-join b a.artifact_commitments b.artifact_commitments
          ∙ join_comm b a.artifact_commitments b.artifact_commitments
          ∙ sym (prefer-join b b.artifact_commitments a.artifact_commitments))
]

same_identity_self : (a : ArchivalTombstone) → same_identity a a ≡ true
same_identity_self a = ground arith

-- the commitments that a version has, or else the other
kept_commitments :
    (t : ArchivalTombstone) (c d : Commitments) {r : ArchivalTombstone}
    → join t c d ≡ ok r
    → (same_identity r t ≡ true)
      × ((refs : List ArchivalArtifactReference)
          → (c ≡ some refs) ⊎ (d ≡ some refs)
          → r.artifact_commitments ≡ some refs)
unfolding join
kept_commitments t none none h =
    rw (← (ok-injective h)) (same_identity_self t, λ refs e. absurd (ground (arith, e)))
kept_commitments t none (some d) h =
    rw (← (ok-injective h)) (same_identity_self t, λ refs e. ground (arith, e))
kept_commitments t (some c) none h =
    rw (← (ok-injective h)) (same_identity_self t, λ refs e. ground (arith, e))
kept_commitments t (some c) (some d) {r} h = elim (list_eq.dec c d) [
  | no n ↦ absurd (ground arith)
  | yes p ↦
      let q : ◌≡◌ {A = Result ArchivalError ArchivalTombstone} (ok (with_commitments t (some c)))
          (ok r) =
        ground arith in
      rw (← (ok-injective q)) (same_identity_self t, λ refs e. ground (arith, e, p))
]

-- The merge of two tombstones never loses a commitment: what it returns has the identity of both, and
-- the commitments that either of them has.
pub prefer_stronger_commitment_keeps :
    (a b c : ArchivalTombstone)
    → prefer_stronger_commitment a b ≡ ok c
    → (same_identity c a ≡ true)
      × (same_identity c b ≡ true)
      × ((refs : List ArchivalArtifactReference)
          → (a.artifact_commitments ≡ some refs) ⊎ (b.artifact_commitments ≡ some refs)
          → c.artifact_commitments ≡ some refs)
prefer_stronger_commitment_keeps a b c h = elim (Bool-cases (same_identity a b)) [
  | inr e ↦ let f = prefer_different a b e in absurd (ground arith)
  | inl e ↦
      let p = same_identity-eq a b e in
      let joined : join b a.artifact_commitments b.artifact_commitments ≡ ok c =
        sym (prefer-join b a.artifact_commitments b.artifact_commitments)
        ∙ ap (λ (x : ArchivalTombstone). prefer_stronger_commitment x b) (sym p)
        ∙ h in
      let (s, keep_) = kept_commitments b a.artifact_commitments b.artifact_commitments joined in
      (ground arith, s, keep_)
]
