-- ===== src/Consequence/Consistent/Outcomes.antt =====
-- The third loop: it ends if and only if links have roots and no tension reopens.
use e_r_i_i.Consequence.Consistent.{NeverReopens}
use e_r_i_i.Prelude.{◌≡◌, refl, inl, inr, String, List, [], ◌∷◌, ◌++◌, true, some, arith}
use e_r_i_i.Prelude.Dict.{lookup, insert}
use e_r_i_i.Prelude.Equality.{Bool-cases, pair_eq, string_eq}
use e_r_i_i.Prelude.Lists.{All}
use e_r_i_i.Prelude.Order.{pair_ord}
use e_r_i_i.Prelude.Result.{ok, >>=-eq-ok}
use e_r_i_i.Prelude.Text.{string_ord}
use e_r_i_i.Consequence.Types.{
  RelationshipConsequence, NarrativeTensionLink, NarrativeTensionOutcome, superseded,
  tension_outcome_eq, effects_eq,
}
use e_r_i_i.Consequence.Project.{
  Key, target_key, is_terminal, Roots, Tensions, apply_link, apply_all,
}
use e_r_i_i.Consequence.Rounds.{
  Applied, Tracks, apply_link-Applied, apply_link_hit, apply_link_miss, links_for_hit,
  links_for_miss,
}
use e_r_i_i.Consequence.Spec.{links_for}

allowed_after :
    (k : Key) {s : Roots} (t : Tensions) (l : NarrativeTensionLink) {t' : Tensions}
    (o : NarrativeTensionOutcome)
    → k ≡ target_key l
    → lookup k t.outcomes ≡ some o
    → Applied s t l t'
    → is_terminal o ≡ true
    → l.outcome ≡ superseded
allowed_after k t l o p h a terminal = ground (arith, a.was, a.allowed)

pub apply_all-NeverReopens :
    (s : Roots) (t : Tensions) (ls : List NarrativeTensionLink) {t' : Tensions} (k : Key)
    (o : NarrativeTensionOutcome) (summary : String) (ids : List String)
    → apply_all s t ls ≡ ok t'
    → Tracks k t o summary ids
    → NeverReopens o (links_for k ls)
unfolding apply_all
apply_all-NeverReopens s t [] k o summary ids e h = tt
apply_all-NeverReopens s t (l ∷ ls) k o summary ids e h =
    let (t1, e1, e2) = >>=-eq-ok (apply_link s t l) (λ u. apply_all s u ls) e in
    let a = apply_link-Applied s t l e1 in
    elim (pair_eq.dec k (target_key l)) [
      | yes p ↦ rw (links_for_hit k l ls p) (
        allowed_after k t l o p h.outcome a,
        apply_all-NeverReopens s t1 ls k l.outcome l.summary (ids ++ (l.link_id ∷ [])) e2
            (apply_link_hit s t l k o summary ids p a h),
      )
      | no n ↦ rw (links_for_miss k l ls n) (
          apply_all-NeverReopens s t1 ls k o summary ids e2
            (apply_link_miss s t l k o summary ids n a h))
    ]

pub apply_all-targets :
    (s : Roots) (t : Tensions) (ls : List NarrativeTensionLink) {t' : Tensions}
    → apply_all s t ls ≡ ok t'
    → All
        (λ l.
          (c : RelationshipConsequence) × (lookup (target_key l) s.consequences_by_key ≡ some c)
          × (c.tension_id ≡ l.tension_id))
        ls
unfolding apply_all
apply_all-targets s t [] e = tt
apply_all-targets s t (l ∷ ls) e =
    let (t1, e1, e2) = >>=-eq-ok (apply_link s t l) (λ u. apply_all s u ls) e in
    let a = apply_link-Applied s t l e1 in
    ((a.consequence, a.found, a.same_tension), apply_all-targets s t1 ls e2)

-- At every consequence a tension is tracked, and the links still to come do not reopen it.
abbrev pub Settles : Roots → Tensions → List NarrativeTensionLink → Type 0
Settles s t ls =
    (k : Key) (c : RelationshipConsequence)
    → lookup k s.consequences_by_key ≡ some c
    → (o : NarrativeTensionOutcome) × (summary : String) × (ids : List String) × Tracks k t o
        summary ids
      × NeverReopens o (links_for k ls)

-- the dicts after a link
abbrev applied_link : Tensions → NarrativeTensionLink → List String → Tensions
applied_link t l ids = record {
  outcomes = insert (target_key l) l.outcome t.outcomes;
  summaries = insert (target_key l) l.summary t.summaries;
  link_ids = insert (target_key l) (ids ++ (l.link_id ∷ [])) t.link_ids;
}

apply_link_total :
    (s : Roots) (t : Tensions) (l : NarrativeTensionLink) (c : RelationshipConsequence)
    (o : NarrativeTensionOutcome) (summary : String) (ids : List String)
    → lookup (target_key l) s.consequences_by_key ≡ some c
    → c.tension_id ≡ l.tension_id
    → Tracks (target_key l) t o summary ids
    → (is_terminal o ≡ true → l.outcome ≡ superseded)
    → apply_link s t l ≡ ok (applied_link t l ids)
unfolding apply_link
apply_link_total s t l c o summary ids found same h allowed = elim (Bool-cases (is_terminal o)) [
  | inl e ↦ ground (arith, h.outcome, h.links, allowed e)
  | inr e ↦ ground (arith, h.outcome, h.links)
]

Settles-apply :
    (s : Roots) (t : Tensions) (l : NarrativeTensionLink) (ls : List NarrativeTensionLink)
    {t' : Tensions}
    → apply_link s t l ≡ ok t'
    → Settles s t (l ∷ ls)
    → Settles s t' ls
Settles-apply s t l ls e h k c f =
    let (o, summary, ids, tracked, settled) = h k c f in
    let a = apply_link-Applied s t l e in
    elim (pair_eq.dec k (target_key l)) [
      | yes p ↦ (
        l.outcome,
        l.summary,
        ids ++ (l.link_id ∷ []),
        apply_link_hit s t l k o summary ids p a tracked,
        (rw (links_for_hit k l ls p) at settled).1,
      )
      | no n ↦ (
        o,
        summary,
        ids,
        apply_link_miss s t l k o summary ids n a tracked,
        rw (links_for_miss k l ls n) at settled,
      )
    ]

-- The third loop ends if each link has a root and no tension reopens.
pub apply_all_ends :
    (s : Roots) (t : Tensions) (ls : List NarrativeTensionLink)
    → All
        (λ l.
          (c : RelationshipConsequence) × (lookup (target_key l) s.consequences_by_key ≡ some c)
          × (c.tension_id ≡ l.tension_id))
        ls
    → Settles s t ls
    → (t' : Tensions) × (apply_all s t ls ≡ ok t')
unfolding apply_all
apply_all_ends s t [] roots h = (t, refl)
apply_all_ends s t (l ∷ ls) ((c, found, same), roots) h =
    let (o, summary, ids, tracked, settled) = h (target_key l) c found in
    let next : NeverReopens o (l ∷ links_for (target_key l) ls) =
      rw (links_for_hit (target_key l) l ls refl) at settled in
    let e = apply_link_total s t l c o summary ids found same tracked next.0 in
    let (t', f) = apply_all_ends s (applied_link t l ids) ls roots (Settles-apply s t l ls e h) in
    (t', rw e f)
