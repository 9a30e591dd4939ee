-- ===== src/Consequence/Consistent/Exact.antt =====
-- `project` returns its description exactly on consistent journals.
use mathlib.Core.Path.{subst, subst₂}
use e_r_i_i.Prelude.{◌≡◌, sym, ap, ◌∙◌, ◌↔◌, List, []}
use e_r_i_i.Prelude.Dict.{lookup-nil}
use e_r_i_i.Prelude.Distinct.{first-Has, DistinctKeys, distinct_by-DistinctKeys}
use e_r_i_i.Prelude.Equality.{pair_eq, string_eq}
use e_r_i_i.Prelude.Lists.{Has, All, All-map}
use e_r_i_i.Prelude.Order.{pair_ord}
use e_r_i_i.Prelude.Result.{ok, ok-injective}
use e_r_i_i.Prelude.Sort.{sorted, Has-sorted, sorted-Has}
use e_r_i_i.Prelude.Text.{string_ord}
use e_r_i_i.Consequence.Types.{
  RelationshipConsequence, NarrativeTensionLink, NarrativeTensionProjection, unaddressed,
}
use e_r_i_i.Consequence.Normal.{IsNormalConsequence, IsNormalLink}
use e_r_i_i.Consequence.Project.{
  consequence_key, target_key, consequence_sort_key, link_sort_key, no_roots, start_tensions,
  no_tensions, no_links, project, Roots, Links, Tensions, apply_all,
}
use e_r_i_i.Consequence.Refines.{
  Looped, Looped-roots, Looped-links, Looped-distinct, project-Looped, project_of_Looped,
}
use e_r_i_i.Consequence.Rounds.{Indexes, root_all_lem, admit_all_lem, start_tensions-Tracks}
use e_r_i_i.Consequence.Spec.{links_for, projections_of}
use e_r_i_i.Consequence.Consistent.{NeverReopens, HasRoot, IsConsistent}
use e_r_i_i.Consequence.Consistent.Roots.{
  root_all-Holds_each, root_all-IsRooted, root_all-payloads, root_all-tensions, root_all_ends,
}
use e_r_i_i.Consequence.Consistent.Links.{
  admit_all-HoldsLink_each, admit_all-payloads, admit_all_ends,
}
use e_r_i_i.Consequence.Consistent.Outcomes.{
  apply_all-NeverReopens, apply_all-targets, apply_all_ends,
}

module _ (cs : List RelationshipConsequence) (ls : List NarrativeTensionLink)
    (run : Looped cs ls) where
  Looped-Indexes :
      Indexes consequence_key run.roots.consequences_by_key run.roots.unique_consequences
  Looped-Indexes =
      (root_all_lem no_roots (sorted consequence_sort_key cs) run.rooted (λ k. lookup-nil k)).0

  Looped-targets : All (HasRoot run.roots.unique_consequences) run.links.unique_links
  Looped-targets =
      All-map _ _ run.links.unique_links
        (λ l (c, found, same). (c, sym (Looped-Indexes (target_key l)) ∙ found, same))
        (apply_all-targets run.roots (start_tensions run.roots.unique_consequences no_tensions)
          run.links.unique_links run.applied)

  Looped-NeverReopens :
      (c : RelationshipConsequence)
      → Has c run.roots.unique_consequences
      → NeverReopens unaddressed (links_for (consequence_key c) run.links.unique_links)
  Looped-NeverReopens c m =
      apply_all-NeverReopens run.roots (start_tensions run.roots.unique_consequences no_tensions)
        run.links.unique_links (consequence_key c) unaddressed c.summary [] run.applied
        (start_tensions-Tracks run.roots.unique_consequences no_tensions (Looped-distinct cs ls run)
          m)

  Looped-IsConsistent : IsConsistent cs ls
  Looped-IsConsistent =
      let held = λ (c : RelationshipConsequence) (m : Has c cs).
        root_all-Holds_each no_roots (sorted consequence_sort_key cs) c run.rooted
          (Has-sorted consequence_sort_key cs m) in
      let linked = λ (l : NarrativeTensionLink) (m : Has l ls).
        admit_all-HoldsLink_each no_links (sorted link_sort_key ls) l run.admitted
          (Has-sorted link_sort_key ls m) in
      record {
        payloads = λ a b ma mb e. root_all-payloads run.roots a b (held a ma) (held b mb) e;
        tensions = λ a b ma mb e.
            root_all-tensions run.roots a b
              (root_all-IsRooted no_roots (sorted consequence_sort_key cs) run.rooted
                (λ k d f. cc (lookup-nil {V = RelationshipConsequence} k)))
              (held a ma) (held b mb) e;
        link_payloads =
            λ l m ml mm e. admit_all-payloads run.links l m (linked l ml) (linked m mm) e;
        targets =
            subst₂ (λ roots us. All (HasRoot roots) us) (Looped-roots cs ls run)
              (Looped-links cs ls run) Looped-targets;
        settled = λ c m.
            subst (λ us. NeverReopens unaddressed (links_for (consequence_key c) us))
              (Looped-links cs ls run)
              (Looped-NeverReopens c
                (subst (λ roots. Has c roots) (sym (Looped-roots cs ls run)) m));
      }

-- Once the first two loops have ended, the third ends if the links have roots and reopen nothing.
third_loop_ends :
    (cs : List RelationshipConsequence) (ls : List NarrativeTensionLink) (r : Roots) (u : Links)
    → Indexes consequence_key r.consequences_by_key r.unique_consequences
    → DistinctKeys consequence_key r.unique_consequences
    → All (HasRoot r.unique_consequences) u.unique_links
    → ((c : RelationshipConsequence)
        → Has c r.unique_consequences
        → NeverReopens unaddressed (links_for (consequence_key c) u.unique_links))
    → (t : Tensions) × (apply_all r
          (start_tensions r.unique_consequences no_tensions)
          u.unique_links
        ≡ ok t)
third_loop_ends cs ls r u index distinct targets settled =
    apply_all_ends r (start_tensions r.unique_consequences no_tensions) u.unique_links
      (All-map _ _ u.unique_links (λ l (c, found, same). (c, index (target_key l) ∙ found, same))
        targets)
      (λ k c found.
        let (m, p) = first-Has consequence_key k c r.unique_consequences (sym (index k) ∙ found) in
        (
          unaddressed,
          c.summary,
          [],
          rw p (start_tensions-Tracks r.unique_consequences no_tensions distinct m),
          rw p (settled c m),
        ))

IsConsistent-Looped :
    (cs : List RelationshipConsequence) (ls : List NarrativeTensionLink)
    → IsConsistent cs ls
    → Looped cs ls
IsConsistent-Looped cs ls h =
    let by = consequence_sort_key in
    let (r, rooted) =
      root_all_ends (sorted consequence_sort_key cs)
        (λ a b m n. h.payloads a b (sorted-Has by cs m) (sorted-Has by cs n))
        (λ a b m n. h.tensions a b (sorted-Has by cs m) (sorted-Has by cs n)) in
    let (u, admitted) = admit_all_ends (sorted link_sort_key ls) (λ l m hl hm.
      h.link_payloads l m (sorted-Has link_sort_key ls hl) (sorted-Has link_sort_key ls hm)) in
    let (index, roots) = root_all_lem no_roots (sorted by cs) rooted (λ k. lookup-nil k) in
    let updates = admit_all_lem no_links (sorted link_sort_key ls) admitted (λ k. lookup-nil k) in
    let (t, applied) =
      third_loop_ends cs ls r u index
        (subst (DistinctKeys consequence_key) (sym roots)
          (distinct_by-DistinctKeys consequence_key [] (sorted by cs) tt))
        (subst₂ (λ rs us. All (HasRoot rs) us) (sym roots) (sym updates) h.targets)
        (subst₂
          (λ rs us.
            (c : RelationshipConsequence)
            → Has c rs
            → NeverReopens unaddressed (links_for (consequence_key c) us))
          (sym roots) (sym updates) h.settled) in
    record {
      roots = r;
      links = u;
      tensions = t;
      rooted = rooted;
      admitted = admitted;
      applied = applied;
    }

-- For journals of normal records, `project` returns exactly when the journals are consistent, and
-- then it returns their description.
pub project_iff_IsConsistent :
    (cs : List RelationshipConsequence) (ls : List NarrativeTensionLink)
    (ps : List NarrativeTensionProjection)
    → All IsNormalConsequence cs
    → All IsNormalLink ls
    → (project cs ls ≡ ok ps) ↔ (IsConsistent cs ls × (ps ≡ projections_of cs ls))
project_iff_IsConsistent cs ls ps nc nl = (
  λ e.
      let run = project-Looped cs ls e in
      (Looped-IsConsistent cs ls run, ok-injective (sym e ∙ project_of_Looped cs ls run nc nl)),
  λ (h, p). project_of_Looped cs ls (IsConsistent-Looped cs ls h) nc nl ∙ ap ok (sym p),
)
