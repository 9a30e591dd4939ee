-- ===== src/Consequence/Consistent/Roots.antt =====
-- The first loop: it ends if and only if identities and tensions agree.
use e_r_i_i.Prelude.{◌≡◌, refl, sym, ◌≢◌, inl, inr, List, [], ◌∷◌, true, none, some, arith}
use mathlib.Core.Path.{subst}
use e_r_i_i.Prelude.Dict.{lookup, lookup-nil, lookup-insert}
use e_r_i_i.Prelude.Equality.{Option-cases, pair_eq, string_eq}
use e_r_i_i.Prelude.Lists.{Has, here, there}
use e_r_i_i.Prelude.Order.{pair_ord}
use e_r_i_i.Prelude.Result.{ok, >>=-eq-ok, ok-injective}
use e_r_i_i.Prelude.Text.{string_ord}
use e_r_i_i.Consequence.Types.{
  RelationshipConsequence, same_consequence_payload, tension_outcome_eq, effects_eq,
}
use e_r_i_i.Consequence.Project.{
  Key, consequence_key, tension_key, Roots, no_roots, add_root, root_consequence, root_all,
}
use e_r_i_i.Consequence.Replay.{Holds, Holds-root, Holds-root_self}

root_all-Holds :
    (s : Roots) (cs : List RelationshipConsequence) {s' : Roots} (c : RelationshipConsequence)
    → root_all s cs ≡ ok s'
    → Holds s c
    → Holds s' c
unfolding root_all
root_all-Holds s [] c e h = rw (← ok-injective e) h
root_all-Holds s (b ∷ cs) c e h =
    let (t, e1, e2) = >>=-eq-ok (root_consequence s b) (λ u. root_all u cs) e in
    root_all-Holds t cs c e2 (Holds-root s b c e1 h)

pub root_all-Holds_each :
    (s : Roots) (cs : List RelationshipConsequence) {s' : Roots} (c : RelationshipConsequence)
    → root_all s cs ≡ ok s'
    → Has c cs
    → Holds s' c
unfolding root_all
root_all-Holds_each s [] c e m = elim m [ ]
root_all-Holds_each s (b ∷ cs) c e (here p) =
    let (t, e1, e2) = >>=-eq-ok (root_consequence s b) (λ u. root_all u cs) e in
    rw p (root_all-Holds t cs b e2 (Holds-root_self s b e1))
root_all-Holds_each s (b ∷ cs) c e (there m) =
    let (t, e1, e2) = >>=-eq-ok (root_consequence s b) (λ u. root_all u cs) e in
    root_all-Holds_each t cs c e2 m

-- Each rooted consequence stands under its own key and under its tension.
abbrev pub IsRooted : Roots → Type 0
IsRooted s =
    (k : Key) (d : RelationshipConsequence)
    → lookup k s.consequences_by_key ≡ some d
    → (consequence_key d ≡ k) × (lookup (tension_key d) s.tensions_by_key ≡ some d)

root_consequence-IsRooted :
    (s : Roots) (c : RelationshipConsequence) {s' : Roots}
    → root_consequence s c ≡ ok s'
    → IsRooted s
    → IsRooted s'
unfolding root_consequence
root_consequence-IsRooted s c e h k d f = ground (
  arith,
  h k d,
  lookup-insert k (consequence_key c) c s.consequences_by_key,
  lookup-insert (tension_key d) (tension_key c) c s.tensions_by_key,
)

pub root_all-IsRooted :
    (s : Roots) (cs : List RelationshipConsequence) {s' : Roots}
    → root_all s cs ≡ ok s'
    → IsRooted s
    → IsRooted s'
unfolding root_all
root_all-IsRooted s [] e h = subst IsRooted (ok-injective e) h
root_all-IsRooted s (b ∷ cs) e h =
    let (t, e1, e2) = >>=-eq-ok (root_consequence s b) (λ u. root_all u cs) e in
    root_all-IsRooted t cs e2 (root_consequence-IsRooted s b e1 h)

payloads_agree :
    (d a b : RelationshipConsequence)
    → same_consequence_payload d a ≡ true
    → same_consequence_payload d b ≡ true
    → same_consequence_payload a b ≡ true
unfolding same_consequence_payload
payloads_agree d a b h k = ground arith

payload_tension :
    (d a : RelationshipConsequence)
    → same_consequence_payload d a ≡ true
    → tension_key d ≡ tension_key a
unfolding same_consequence_payload
payload_tension d a h = ground arith

pub root_all-payloads :
    (s : Roots) (a b : RelationshipConsequence)
    → Holds s a
    → Holds s b
    → consequence_key a ≡ consequence_key b
    → same_consequence_payload a b ≡ true
root_all-payloads s a b h k e =
    let p : h.at ≡ k.at = ground (arith, h.found, k.found) in
    payloads_agree h.at a b h.same (rw p k.same)

pub root_all-tensions :
    (s : Roots) (a b : RelationshipConsequence)
    → IsRooted s
    → Holds s a
    → Holds s b
    → tension_key a ≡ tension_key b
    → consequence_key a ≡ consequence_key b
root_all-tensions s a b r h k e =
    let (ka, ta) = r (consequence_key a) h.at h.found in
    let (kb, tb) = r (consequence_key b) k.at k.found in
    let p = payload_tension h.at a h.same in let q = payload_tension k.at b k.same in ground arith

-- What the loop keeps comes from the journal `all`.
record FromJournal (all : List RelationshipConsequence) (s : Roots) : Type 0 where
  by_key :
      (k : Key) (d : RelationshipConsequence)
      → lookup k s.consequences_by_key ≡ some d
      → Has d all × (consequence_key d ≡ k)
  by_tension :
      (k : Key) (d : RelationshipConsequence)
      → lookup k s.tensions_by_key ≡ some d
      → Has d all × (tension_key d ≡ k) × (lookup (consequence_key d) s.consequences_by_key ≢ none)

add_root-FromJournal :
    (all : List RelationshipConsequence) (s : Roots) (c : RelationshipConsequence)
    → Has c all
    → FromJournal all s
    → FromJournal all (add_root s c)
add_root-FromJournal all s c m h = record {
  by_key = λ k d e. by_key k d e (pair_eq.dec k (consequence_key c));
  by_tension = λ k d e. by_tension k d e (pair_eq.dec k (tension_key c));
}
  where
    kept :
        (d : RelationshipConsequence)
        → lookup (consequence_key d) s.consequences_by_key ≢ none
        → lookup (consequence_key d) (add_root s c).consequences_by_key ≢ none
    kept d n =
        ground
          (arith, n, lookup-insert (consequence_key d) (consequence_key c) c s.consequences_by_key)

    by_key :
        (k : Key) (d : RelationshipConsequence)
        → lookup k (add_root s c).consequences_by_key ≡ some d
        → Dec (k ≡ consequence_key c)
        → Has d all × (consequence_key d ≡ k)
    by_key k d e (yes p) =
        let q : c ≡ d =
          ground (arith, lookup-insert k (consequence_key c) c s.consequences_by_key) in
        (rw (← q) m, rw (← q) (sym p))
    by_key k d e (no n) =
        h.by_key k d (ground (arith, lookup-insert k (consequence_key c) c s.consequences_by_key))

    by_tension :
        (k : Key) (d : RelationshipConsequence)
        → lookup k (add_root s c).tensions_by_key ≡ some d
        → Dec (k ≡ tension_key c)
        → Has d all
          × (tension_key d ≡ k)
          × (lookup (consequence_key d) (add_root s c).consequences_by_key ≢ none)
    by_tension k d e (yes p) =
        let q : c ≡ d = ground (arith, lookup-insert k (tension_key c) c s.tensions_by_key) in
        (
          rw (← q) m,
          rw (← q) (sym p),
          rw (← q) (
              ground (
                arith,
                lookup-insert (consequence_key c) (consequence_key c) c s.consequences_by_key,
              )),
        )
    by_tension k d e (no n) =
        let (md, td, kd) =
          h.by_tension k d (ground (arith, lookup-insert k (tension_key c) c s.tensions_by_key)) in
        (md, td, kept d kd)

module _ (all : List RelationshipConsequence)
    (payloads : (a b : RelationshipConsequence)
      → Has a all
      → Has b all
      → consequence_key a ≡ consequence_key b
      → same_consequence_payload a b ≡ true)
    (tensions : (a b : RelationshipConsequence)
      → Has a all
      → Has b all
      → tension_key a ≡ tension_key b
      → consequence_key a ≡ consequence_key b) where
  root_consequence_total :
      (s : Roots) (c : RelationshipConsequence)
      → FromJournal all s
      → Has c all
      → (s' : Roots) × (root_consequence s c ≡ ok s') × FromJournal all s'
  unfolding root_consequence
  root_consequence_total s c h m =
      elim (Option-cases (lookup (consequence_key c) s.consequences_by_key)) [
        | inr (d, old) ↦
            let (md, kd) = h.by_key (consequence_key c) d old in
            (s, ground (arith, payloads d c md m kd), h)
        | inl new ↦ elim (Option-cases (lookup (tension_key c) s.tensions_by_key)) [
          | inr (d, rooted) ↦
              let (md, td, kd) = h.by_tension (tension_key c) d rooted in
              absurd (ground (arith, tensions d c md m td))
          | inl free ↦ (add_root s c, ground arith, add_root-FromJournal all s c m h)
        ]
      ]

  root_all_total :
      (s : Roots) (cs : List RelationshipConsequence)
      → FromJournal all s
      → ((c : RelationshipConsequence) → Has c cs → Has c all)
      → (s' : Roots) × (root_all s cs ≡ ok s')
  unfolding root_all
  root_all_total s [] h sub = (s, refl)
  root_all_total s (c ∷ cs) h sub =
      let (t, e, ht) = root_consequence_total s c h (sub c (here refl)) in
      let (u, f) = root_all_total t cs ht (λ d m. sub d (there m)) in (u, rw e f)

-- The first loop ends if identities and tensions agree.
pub root_all_ends :
    (all : List RelationshipConsequence)
    → ((a b : RelationshipConsequence)
        → Has a all
        → Has b all
        → consequence_key a ≡ consequence_key b
        → same_consequence_payload a b ≡ true)
    → ((a b : RelationshipConsequence)
        → Has a all
        → Has b all
        → tension_key a ≡ tension_key b
        → consequence_key a ≡ consequence_key b)
    → (s' : Roots) × (root_all no_roots all ≡ ok s')
root_all_ends all payloads tensions =
    root_all_total all payloads tensions no_roots all
      (record {
        by_key = λ k d e. cc (lookup-nil {V = RelationshipConsequence} k);
        by_tension = λ k d e. cc (lookup-nil {V = RelationshipConsequence} k);
      })
      (λ c m. m)
