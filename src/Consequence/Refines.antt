-- ===== src/Consequence/Refines.antt =====
-- `project` against its description, on records that have passed their `__post_init__`.
use e_r_i_i.Prelude.{◌≡◌, refl, ◌≢◌, ◌∙◌, String, List, [], ◌∷◌, map, false, arith}
use mathlib.Core.Path.{ap₂}
use e_r_i_i.Prelude.Dict.{lookup-nil}
use e_r_i_i.Prelude.Distinct.{DistinctKeys, distinct_by-DistinctKeys, distinct_by-All}
use e_r_i_i.Prelude.Equality.{◌==◌, pair_eq, string_eq, contains}
use e_r_i_i.Prelude.Lists.{Has, All, All-Has, is_empty, has_duplicates}
use e_r_i_i.Prelude.Order.{pair_ord}
use e_r_i_i.Prelude.Result.{ok, >>=-eq-ok, map_ok, map_ok_of}
use e_r_i_i.Prelude.Sort.{sorted, All-sorted}
use e_r_i_i.Prelude.Text.{string_ord}
use e_r_i_i.Consequence.Types.{
  RelationshipConsequence, NarrativeTensionLink, NarrativeTensionProjection,
  NarrativeTensionOutcome, unaddressed, tension_outcome_eq,
}
use e_r_i_i.Consequence.Normal.{
  IsText, IsNormalConsequence, IsNormalLink, IsNormalProjection, make_projection_of_normal,
}
use e_r_i_i.Consequence.Project.{
  Key, Roots, Links, item_of, consequence_key, link_key, target_key, consequence_sort_key,
  link_sort_key, root_all, no_roots, admit_all, no_links, Tensions, start_tensions, no_tensions,
  apply_all, project_one, project,
}
use e_r_i_i.Consequence.Rounds.{
  Tracks, links_for_hit, links_for_miss, root_all_lem, admit_all_lem, apply_all-Tracks,
  start_tensions-Tracks,
}
use e_r_i_i.Consequence.Spec.{
  roots_of, updates_of, links_for, last_outcome, last_summary, link_ids_of, projection_of,
  projections_of,
}

-- the links of one consequence have one relationship, so their identities differ
contains-link_ids :
    (k : Key) (l : NarrativeTensionLink) (ls : List NarrativeTensionLink)
    → k ≡ target_key l
    → All (λ m. link_key l ≢ link_key m) ls
    → contains (link_ids_of (links_for k ls)) l.link_id ≡ false
contains-link_ids k l [] e h = refl
contains-link_ids k l (m ∷ ls) e h = ground (arith, contains-link_ids k l ls e h.1, h.0)

link_ids-distinct :
    (k : Key) (ls : List NarrativeTensionLink)
    → DistinctKeys link_key ls
    → has_duplicates (link_ids_of (links_for k ls)) ≡ false
link_ids-distinct k [] d = refl
link_ids-distinct k (l ∷ ls) d =
    ground
      (arith, link_ids-distinct k ls d.1, λ (e : k ≡ target_key l). contains-link_ids k l ls e d.0)

link_ids-IsText :
    (k : Key) (ls : List NarrativeTensionLink)
    → All IsNormalLink ls
    → All IsText (link_ids_of (links_for k ls))
link_ids-IsText k [] h = tt
link_ids-IsText k (l ∷ ls) h = elim (pair_eq.dec k (target_key l)) [
  | yes p ↦ rw (links_for_hit k l ls p) (h.0.link_id, link_ids-IsText k ls h.1)
  | no n ↦ rw (links_for_miss k l ls n) (link_ids-IsText k ls h.1)
]

last_summary-IsText :
    (k : Key) (s : String) (ls : List NarrativeTensionLink)
    → IsText s
    → All IsNormalLink ls
    → IsText (last_summary s (links_for k ls))
last_summary-IsText k s [] t h = t
last_summary-IsText k s (l ∷ ls) t h = elim (pair_eq.dec k (target_key l)) [
  | yes p ↦ rw (links_for_hit k l ls p) (last_summary-IsText k l.summary ls h.0.summary h.1)
  | no n ↦ rw (links_for_miss k l ls n) (last_summary-IsText k s ls t h.1)
]

-- a link never leaves a tension unaddressed
last_outcome-addressed :
    (k : Key) (o : NarrativeTensionOutcome) (ls : List NarrativeTensionLink)
    → o ≢ unaddressed
    → All IsNormalLink ls
    → last_outcome o (links_for k ls) ≢ unaddressed
last_outcome-addressed k o [] n h = n
last_outcome-addressed k o (l ∷ ls) n h = elim (pair_eq.dec k (target_key l)) [
  | yes p ↦ rw (links_for_hit k l ls p) (last_outcome-addressed k l.outcome ls h.0.addressed h.1)
  | no m ↦ rw (links_for_miss k l ls m) (last_outcome-addressed k o ls n h.1)
]

linked_iff_addressed :
    (k : Key) (ls : List NarrativeTensionLink)
    → All IsNormalLink ls
    → is_empty (link_ids_of (links_for k ls))
      ≡ (last_outcome unaddressed (links_for k ls) == unaddressed)
linked_iff_addressed k [] h = ground arith
linked_iff_addressed k (l ∷ ls) h = elim (pair_eq.dec k (target_key l)) [
  | yes p ↦
      rw (links_for_hit k l ls p)
        (ground (arith, last_outcome-addressed k l.outcome ls h.0.addressed h.1))
  | no n ↦ rw (links_for_miss k l ls n) (linked_iff_addressed k ls h.1)
]

-- A projection of normal records is built as its description says.
projection_of-IsNormal :
    (us : List NarrativeTensionLink) (c : RelationshipConsequence)
    → All IsNormalLink us
    → DistinctKeys link_key us
    → IsNormalConsequence c
    → IsNormalProjection (projection_of us c)
projection_of-IsNormal us c h d n = record {
  relationship_id = n.relationship_id;
  tension_id = n.tension_id;
  consequence_id = n.consequence_id;
  source_turn_id = n.source_turn_id;
  source_revision = n.source_revision;
  source_decision_id = n.source_decision_id;
  source_event_id = n.source_event_id;
  source_message_id = n.source_message_id;
  summary = last_summary-IsText (consequence_key c) c.summary us n.summary h;
  effects = n.effects;
  link_ids = link_ids-IsText (consequence_key c) us h;
  distinct = link_ids-distinct (consequence_key c) us d;
  linked = linked_iff_addressed (consequence_key c) us h;
}

project_one_of_Tracks :
    (t : Tensions) (us : List NarrativeTensionLink) (c : RelationshipConsequence)
    → All IsNormalLink us
    → DistinctKeys link_key us
    → IsNormalConsequence c
    → Tracks
        (consequence_key c)
        t
        (last_outcome unaddressed (links_for (consequence_key c) us))
        (last_summary c.summary (links_for (consequence_key c) us))
        (link_ids_of (links_for (consequence_key c) us))
    → project_one t c ≡ ok (projection_of us c)
unfolding project_one
project_one_of_Tracks t us c h d n track = simp (
  item_of (consequence_key c) t.outcomes track.outcome,
  item_of (consequence_key c) t.summaries track.told,
  item_of (consequence_key c) t.link_ids track.links,
  make_projection_of_normal (projection_of us c) (projection_of-IsNormal us c h d n),
)

-- The values of a run of `project` whose loops have all ended.
pub record Looped (cs : List RelationshipConsequence) (ls : List NarrativeTensionLink)
    : Type 0 where
  pub roots : Roots
  pub links : Links
  pub tensions : Tensions
  pub rooted : root_all no_roots (sorted consequence_sort_key cs) ≡ ok roots
  pub admitted : admit_all no_links (sorted link_sort_key ls) ≡ ok links
  pub applied :
      apply_all roots (start_tensions roots.unique_consequences no_tensions) links.unique_links
      ≡ ok tensions

pub project-Looped :
    (cs : List RelationshipConsequence) (ls : List NarrativeTensionLink)
    {ps : List NarrativeTensionProjection}
    → project cs ls ≡ ok ps
    → Looped cs ls
unfolding project
project-Looped cs ls e =
    let (roots, e1, k1) = >>=-eq-ok (root_all no_roots (sorted consequence_sort_key cs)) _ e in
    let (links, e2, k2) = >>=-eq-ok (admit_all no_links (sorted link_sort_key ls)) _ k1 in
    let start = start_tensions roots.unique_consequences no_tensions in
    let (tensions, e3, k3) = >>=-eq-ok (apply_all roots start links.unique_links) _ k2 in
    record {
      roots = roots;
      links = links;
      tensions = tensions;
      rooted = e1;
      admitted = e2;
      applied = e3;
    }

module _ (cs : List RelationshipConsequence) (ls : List NarrativeTensionLink)
    (run : Looped cs ls) where
  pub Looped-roots : run.roots.unique_consequences ≡ roots_of cs
  Looped-roots =
      (root_all_lem no_roots (sorted consequence_sort_key cs) run.rooted (λ k. lookup-nil k)).1

  pub Looped-links : run.links.unique_links ≡ updates_of ls
  Looped-links = admit_all_lem no_links (sorted link_sort_key ls) run.admitted (λ k. lookup-nil k)

  pub Looped-distinct : DistinctKeys consequence_key run.roots.unique_consequences
  Looped-distinct =
      rw Looped-roots
        (distinct_by-DistinctKeys consequence_key [] (sorted consequence_sort_key cs) tt)

  pub Looped-Tracks :
      (c : RelationshipConsequence)
      → Has c run.roots.unique_consequences
      → Tracks
          (consequence_key c)
          run.tensions
          (last_outcome unaddressed (links_for (consequence_key c) run.links.unique_links))
          (last_summary c.summary (links_for (consequence_key c) run.links.unique_links))
          (link_ids_of (links_for (consequence_key c) run.links.unique_links))
  Looped-Tracks c m =
      let start = start_tensions run.roots.unique_consequences no_tensions in
      apply_all-Tracks run.roots start run.links.unique_links (consequence_key c) unaddressed
        c.summary [] run.applied
        (start_tensions-Tracks run.roots.unique_consequences no_tensions Looped-distinct m)

  Looped-map_ok :
      All IsNormalConsequence cs
      → All IsNormalLink ls
      → map_ok (project_one run.tensions) run.roots.unique_consequences
        ≡ ok (map (projection_of run.links.unique_links) run.roots.unique_consequences)
  Looped-map_ok nc nl =
      let us : All IsNormalLink run.links.unique_links = rw Looped-links (
        distinct_by-All link_key IsNormalLink [] (sorted link_sort_key ls) tt
          (All-sorted link_sort_key IsNormalLink ls nl)) in
      let roots : All IsNormalConsequence run.roots.unique_consequences = rw Looped-roots (
        distinct_by-All consequence_key IsNormalConsequence [] (sorted consequence_sort_key cs) tt
          (All-sorted consequence_sort_key IsNormalConsequence cs nc)) in
      let d : DistinctKeys link_key run.links.unique_links =
        rw Looped-links (distinct_by-DistinctKeys link_key [] (sorted link_sort_key ls) tt) in
      map_ok_of (project_one run.tensions) (projection_of run.links.unique_links)
        run.roots.unique_consequences
        (λ c m.
          project_one_of_Tracks run.tensions run.links.unique_links c us d
            (All-Has IsNormalConsequence roots m) (Looped-Tracks c m))

  -- Once its loops have ended, `project` returns the description.
  pub project_of_Looped :
      All IsNormalConsequence cs → All IsNormalLink ls → project cs ls ≡ ok (projections_of cs ls)
  unfolding project
  project_of_Looped nc nl = rw run.rooted (
      rw run.admitted (
        rw run.applied (
          Looped-map_ok nc nl
          ∙ ap₂ (λ us roots. ok (map (projection_of us) roots)) Looped-links Looped-roots)))
