-- ===== src/Consequence/Replay.antt =====
-- The order of the journals does not show in a projection, and recording a consequence once more
-- changes nothing.
use mathlib.Core.List.{Permᴰ}
use mathlib.Core.Bool.{false≢true}
use e_r_i_i.Prelude.{◌≡◌, sym, ◌∙◌, inl, inr, List, [], ◌∷◌, Bool, true, false, some, arith}
use e_r_i_i.Prelude.Dict.{lookup, lookup-insert}
use e_r_i_i.Prelude.Equality.{Bool-cases, Option-cases, pair_eq, string_eq}
use e_r_i_i.Prelude.Lists.{Has, here, there, All-Has}
use e_r_i_i.Prelude.Order.{Ord, pair_ord}
use e_r_i_i.Prelude.Result.{ok, bind_cong}
use e_r_i_i.Prelude.Sort.{
  insort, sorted, sorted-perm, sorted-IsSorted, IsSorted, KeyInjective, Has-sorted,
}
use e_r_i_i.Prelude.Text.{string_ord}
use e_r_i_i.Consequence.Types.{
  RelationshipConsequence, NarrativeTensionLink, same_consequence_payload, effects_eq,
}
use e_r_i_i.Consequence.Project.{
  SortKey, Roots, consequence_key, consequence_sort_key, link_sort_key, root_consequence, root_all,
  project, no_roots,
}

-- Two journals with the same records, in any order, have the same projection or raise the same
-- error, if no two records of one kind share their time, identity and relationship.
pub project-perm :
    {cs ds : List RelationshipConsequence} {ls ms : List NarrativeTensionLink}
    → Permᴰ cs ds
    → Permᴰ ls ms
    → KeyInjective consequence_sort_key cs
    → KeyInjective link_sort_key ls
    → project cs ls ≡ project ds ms
unfolding project
project-perm p q h k =
    rw (sorted-perm consequence_sort_key p h) (rw (sorted-perm link_sort_key q k))

abbrev pub consequence_le : RelationshipConsequence → RelationshipConsequence → Bool
consequence_le a b =
    let o : Ord SortKey = pair_ord in o.le (consequence_sort_key a) (consequence_sort_key b)

-- the state holds a consequence of this payload
pub record Holds (s : Roots) (c : RelationshipConsequence) : Type 0 where
  pub at : RelationshipConsequence
  pub found : lookup (consequence_key c) s.consequences_by_key ≡ some at
  pub same : same_consequence_payload at c ≡ true

pub root_Holds : (s : Roots) (c : RelationshipConsequence) → Holds s c → root_consequence s c ≡ ok s
unfolding root_consequence
root_Holds s c h = ground (arith, h.found, h.same)

same_payload_refl : (c : RelationshipConsequence) → same_consequence_payload c c ≡ true
unfolding same_consequence_payload
same_payload_refl c = ground arith

-- what is rooted stays rooted
pub Holds-root :
    (s : Roots) (b c : RelationshipConsequence) {s' : Roots}
    → root_consequence s b ≡ ok s'
    → Holds s c
    → Holds s' c
unfolding root_consequence
Holds-root s b c e h = record {
  at = h.at;
  found = ground (
    arith,
    h.found,
    lookup-insert (consequence_key c) (consequence_key b) b s.consequences_by_key,
  );
  same = h.same;
}

pub Holds-root_self :
    (s : Roots) (c : RelationshipConsequence) {s' : Roots}
    → root_consequence s c ≡ ok s'
    → Holds s' c
unfolding root_consequence
Holds-root_self s c e = elim (Option-cases (lookup (consequence_key c) s.consequences_by_key)) [
  | inl new ↦ record {
    at = c;
    found =
        ground
          (arith, lookup-insert (consequence_key c) (consequence_key c) c s.consequences_by_key);
    same = same_payload_refl c;
  }
  | inr (d, old) ↦ record { at = d; found = ground arith; same = ground arith }
]

pub same_payload_key :
    (a b : RelationshipConsequence)
    → same_consequence_payload a b ≡ true
    → consequence_key a ≡ consequence_key b
unfolding same_consequence_payload
same_payload_key a b h = ground arith

pub same_payload_trans :
    (a b c : RelationshipConsequence)
    → same_consequence_payload a b ≡ true
    → same_consequence_payload b c ≡ true
    → same_consequence_payload a c ≡ true
unfolding same_consequence_payload
same_payload_trans a b c h k = ground arith

Holds-payload :
    (s : Roots) (c d : RelationshipConsequence)
    → same_consequence_payload c d ≡ true
    → Holds s c
    → Holds s d
Holds-payload s c d p h = record {
  at = h.at;
  found = rw (← same_payload_key c d p) h.found;
  same = same_payload_trans h.at c d h.same p;
}

later_than_head :
    (c d b : RelationshipConsequence)
    → c ≡ b
    → consequence_le d c ≡ false
    → consequence_le d b ≡ false
later_than_head c d b e h = rw (← e) h

later_than_tail :
    (c d b : RelationshipConsequence)
    → consequence_le b c ≡ true
    → consequence_le d c ≡ false
    → consequence_le d b ≡ false
later_than_tail c d b bc h =
    let o : Ord SortKey = pair_ord in
    elim (Bool-cases (consequence_le d b)) [
      | inl db ↦ absurd (false≢true (sym h ∙ o.le_trans _ _ _ db bc))
      | inr e ↦ e
    ]

-- Inserting what the state holds already is no step.
root_all-insort_of_Holds :
    (s : Roots) (c : RelationshipConsequence) (l : List RelationshipConsequence)
    → Holds s c
    → root_all s (insort consequence_sort_key c l) ≡ root_all s l
unfolding root_all insort
root_all-insort_of_Holds s c [] h = rw (root_Holds s c h)
root_all-insort_of_Holds s c (b ∷ l) h = elim (Bool-cases (consequence_le c b)) [
  | inl e ↦ rw e (rw (root_Holds s c h))
  | inr e ↦ rw e (
      bind_cong (root_consequence s b) _ _
        (λ t f. root_all-insort_of_Holds t c l (Holds-root s b c f h)))
]

-- Once `c` is rooted, a record `d` of the same payload that sorts behind it is no step.
root_all-insort :
    (s : Roots) (c d : RelationshipConsequence) (l : List RelationshipConsequence)
    → IsSorted consequence_sort_key l
    → Has c l
    → same_consequence_payload c d ≡ true
    → consequence_le d c ≡ false
    → root_all s (insort consequence_sort_key d l) ≡ root_all s l
unfolding root_all insort
root_all-insort s c d [] o m p later = elim m [ ]
root_all-insort s c d (b ∷ l) o (here f) p later = rw (later_than_head c d b f later) (
    bind_cong (root_consequence s b) _ _ (λ t e.
      root_all-insort_of_Holds t d l (Holds-payload t b d (rw f at p) (Holds-root_self s b e))))
root_all-insort s c d (b ∷ l) o (there m) p later =
    rw (later_than_tail c d b (All-Has (λ y. consequence_le b y ≡ true) o.0 m) later)
      (bind_cong (root_consequence s b) _ _ (λ t e. root_all-insort t c d l o.1 m p later))

-- A consequence that is recorded once more, later and with the same payload, changes no
-- projection and raises no error.
pub project-replay :
    (cs : List RelationshipConsequence) (ls : List NarrativeTensionLink)
    (c d : RelationshipConsequence)
    → Has c cs
    → same_consequence_payload c d ≡ true
    → consequence_le d c ≡ false
    → project (d ∷ cs) ls ≡ project cs ls
unfolding project sorted
project-replay cs ls c d m p later = rw (
    root_all-insort no_roots c d (sorted consequence_sort_key cs)
      (sorted-IsSorted consequence_sort_key cs) (Has-sorted consequence_sort_key cs m) p later)
