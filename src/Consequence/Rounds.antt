-- ===== src/Consequence/Rounds.antt =====
-- The three loops of `NarrativeTensionProjector.project`, each against its description.
use e_r_i_i.Prelude.{
  ◌≡◌, ap, ◌∙◌, ◌≢◌, inl, inr, String, List, [], ◌∷◌, ◌++◌, false, ◌&&◌, none, some, arith,
}
use mathlib.Core.List.{append_assoc, append-nil}
use e_r_i_i.Prelude.Dict.{Dict, lookup, insert, lookup-insert}
use e_r_i_i.Prelude.Distinct.{
  first, first-append, first-append_ne, keep_new, distinct_by, DistinctKeys,
}
use e_r_i_i.Prelude.Equality.{◌!=◌, Option-cases, pair_eq, string_eq}
use e_r_i_i.Prelude.Lists.{Has, here, there, All}
use e_r_i_i.Prelude.Result.{ok, >>=-eq-ok}
use e_r_i_i.Consequence.Types.{
  RelationshipConsequence, NarrativeTensionLink, NarrativeTensionOutcome, unaddressed, superseded,
  tension_outcome_eq,
}
use e_r_i_i.Consequence.Project.{
  Key, consequence_key, link_key, target_key, is_terminal, Roots, root_consequence, root_all, Links,
  admit_link, admit_all, Tensions, start_tensions, apply_link, apply_all,
}
use e_r_i_i.Consequence.Spec.{links_for, last_outcome, last_summary, link_ids_of}

-- A dict that maps each key to the first element of the list that has it.
abbrev pub Indexes : {A : Type 0} (key : A → Key) → Dict Key A → List A → Type 0
Indexes key d xs = (k : Key) → lookup k d ≡ first key k xs

Indexes-insert :
    {A : Type 0} (key : A → Key) (d : Dict Key A) (xs : List A) (x : A)
    → Indexes key d xs
    → lookup (key x) d ≡ none
    → Indexes key (insert (key x) x d) (xs ++ (x ∷ []))
Indexes-insert key d xs x h new k = ground (
  arith,
  lookup-insert k (key x) x d,
  h k,
  h (key x),
  first-append key k x xs,
  first-append_ne key k x xs,
)

root_consequence-Indexes :
    (s : Roots) (c : RelationshipConsequence) {s' : Roots}
    → root_consequence s c ≡ ok s'
    → Indexes consequence_key s.consequences_by_key s.unique_consequences
    → Indexes consequence_key s'.consequences_by_key s'.unique_consequences
      × (s'.unique_consequences ≡ keep_new consequence_key s.unique_consequences c)
unfolding root_consequence keep_new
root_consequence-Indexes s c e h =
    elim (Option-cases (lookup (consequence_key c) s.consequences_by_key)) [
      | inl new ↦ (
        λ k. ground (
          arith,
          Indexes-insert consequence_key s.consequences_by_key s.unique_consequences c h new k,
        ),
        ground (arith, h (consequence_key c)),
      )
      | inr (d, old) ↦ (λ k. ground (arith, h k), ground (arith, h (consequence_key c)))
    ]

-- The first loop keeps the first consequence of each identity.
pub root_all_lem :
    (s : Roots) (cs : List RelationshipConsequence) {s' : Roots}
    → root_all s cs ≡ ok s'
    → Indexes consequence_key s.consequences_by_key s.unique_consequences
    → Indexes consequence_key s'.consequences_by_key s'.unique_consequences
      × (s'.unique_consequences ≡ distinct_by consequence_key s.unique_consequences cs)
unfolding root_all distinct_by
root_all_lem s [] e h = (λ k. ground (arith, h k), ground arith)
root_all_lem s (c ∷ cs) e h =
    let (s1, e1, e2) = >>=-eq-ok (root_consequence s c) (λ t. root_all t cs) e in
    let (h1, u1) = root_consequence-Indexes s c e1 h in
    let (h2, u2) = root_all_lem s1 cs e2 h1 in
    (h2, u2 ∙ ap (λ u. distinct_by consequence_key u cs) u1)

admit_link-Indexes :
    (s : Links) (l : NarrativeTensionLink) {s' : Links}
    → admit_link s l ≡ ok s'
    → Indexes link_key s.links_by_key s.unique_links
    → Indexes link_key s'.links_by_key s'.unique_links
      × (s'.unique_links ≡ keep_new link_key s.unique_links l)
unfolding admit_link keep_new
admit_link-Indexes s l e h = elim (Option-cases (lookup (link_key l) s.links_by_key)) [
  | inl new ↦ (
    λ k. ground (arith, Indexes-insert link_key s.links_by_key s.unique_links l h new k),
    ground (arith, h (link_key l)),
  )
  | inr (d, old) ↦ (λ k. ground (arith, h k), ground (arith, h (link_key l)))
]

-- The second loop keeps the first link of each identity.
pub admit_all_lem :
    (s : Links) (ls : List NarrativeTensionLink) {s' : Links}
    → admit_all s ls ≡ ok s'
    → Indexes link_key s.links_by_key s.unique_links
    → s'.unique_links ≡ distinct_by link_key s.unique_links ls
unfolding admit_all distinct_by
admit_all_lem s [] e h = ground arith
admit_all_lem s (l ∷ ls) e h =
    let (s1, e1, e2) = >>=-eq-ok (admit_link s l) (λ t. admit_all t ls) e in
    let (h1, u1) = admit_link-Indexes s l e1 h in
    admit_all_lem s1 ls e2 h1 ∙ ap (λ u. distinct_by link_key u ls) u1

-- The three dicts at one consequence.
pub record Tracks (k : Key) (t : Tensions) (o : NarrativeTensionOutcome) (summary : String)
    (ids : List String) : Type 0 where
  pub outcome : lookup k t.outcomes ≡ some o
  pub told : lookup k t.summaries ≡ some summary
  pub links : lookup k t.link_ids ≡ some ids

-- What a link that is applied has met, and what it leaves.
pub record Applied (s : Roots) (t : Tensions) (l : NarrativeTensionLink) (t' : Tensions)
    : Type 0 where
  pub consequence : RelationshipConsequence
  pub current : NarrativeTensionOutcome
  pub ids : List String
  pub found : lookup (target_key l) s.consequences_by_key ≡ some consequence
  pub same_tension : consequence.tension_id ≡ l.tension_id
  pub was : lookup (target_key l) t.outcomes ≡ some current
  pub allowed : (is_terminal current && l.outcome != superseded) ≡ false
  pub had : lookup (target_key l) t.link_ids ≡ some ids
  pub left : t' ≡ record {
    outcomes = insert (target_key l) l.outcome t.outcomes;
    summaries = insert (target_key l) l.summary t.summaries;
    link_ids = insert (target_key l) (ids ++ (l.link_id ∷ [])) t.link_ids;
  }

pub apply_link-Applied :
    (s : Roots) (t : Tensions) (l : NarrativeTensionLink) {t' : Tensions}
    → apply_link s t l ≡ ok t'
    → Applied s t l t'
unfolding apply_link
apply_link-Applied s t l e = elim (Option-cases (lookup (target_key l) s.consequences_by_key)) [
  | inl none_found ↦ absurd (ground arith)
  | inr (c, found) ↦ elim (Option-cases (lookup (target_key l) t.outcomes)) [
    | inl no_outcome ↦ absurd (ground arith)
    | inr (o, was) ↦ elim (Option-cases (lookup (target_key l) t.link_ids)) [
      | inl no_ids ↦ absurd (ground arith)
      | inr (ids, had) ↦ record {
        consequence = c;
        current = o;
        ids = ids;
        found = found;
        same_tension = ground arith;
        was = was;
        allowed = ground arith;
        had = had;
        left = ground arith;
      }
    ]
  ]
]

pub apply_link_hit :
    (s : Roots) (t : Tensions) (l : NarrativeTensionLink) {t' : Tensions} (k : Key)
    (o : NarrativeTensionOutcome) (summary : String) (ids : List String)
    → k ≡ target_key l
    → Applied s t l t'
    → Tracks k t o summary ids
    → Tracks k t' l.outcome l.summary (ids ++ (l.link_id ∷ []))
apply_link_hit s t l k o summary ids p a h =
    let j = target_key l in
    record {
      outcome = ground (arith, a.left, lookup-insert k j l.outcome t.outcomes);
      told = ground (arith, a.left, lookup-insert k j l.summary t.summaries);
      links =
          ground (
            arith,
            a.left,
            a.had,
            h.links,
            lookup-insert k j (a.ids ++ (l.link_id ∷ [])) t.link_ids,
          );
    }

pub apply_link_miss :
    (s : Roots) (t : Tensions) (l : NarrativeTensionLink) {t' : Tensions} (k : Key)
    (o : NarrativeTensionOutcome) (summary : String) (ids : List String)
    → k ≢ target_key l
    → Applied s t l t'
    → Tracks k t o summary ids
    → Tracks k t' o summary ids
apply_link_miss s t l k o summary ids ne a h =
    let j = target_key l in
    record {
      outcome = ground (arith, a.left, h.outcome, lookup-insert k j l.outcome t.outcomes);
      told = ground (arith, a.left, h.told, lookup-insert k j l.summary t.summaries);
      links =
          ground (arith, a.left, h.links, lookup-insert k j (a.ids ++ (l.link_id ∷ [])) t.link_ids);
    }

pub links_for_hit :
    (k : Key) (l : NarrativeTensionLink) (ls : List NarrativeTensionLink)
    → k ≡ target_key l
    → links_for k (l ∷ ls) ≡ l ∷ links_for k ls
links_for_hit k l ls e = ground arith

pub links_for_miss :
    (k : Key) (l : NarrativeTensionLink) (ls : List NarrativeTensionLink)
    → k ≢ target_key l
    → links_for k (l ∷ ls) ≡ links_for k ls
links_for_miss k l ls e = ground arith

-- The third loop leaves each tension where its last link says, and collects its links in order.
pub apply_all-Tracks :
    (s : Roots) (t : Tensions) (ls : List NarrativeTensionLink) {t' : Tensions} (k : Key)
    (o : NarrativeTensionOutcome) (summary : String) (ids : List String)
    → apply_all s t ls ≡ ok t'
    → Tracks k t o summary ids
    → Tracks k t'
        (last_outcome o (links_for k ls))
        (last_summary summary (links_for k ls))
        (ids ++ link_ids_of (links_for k ls))
unfolding apply_all
apply_all-Tracks s t [] k o summary ids e h = rw append-nil (record {
  outcome = ground (arith, h.outcome);
  told = ground (arith, h.told);
  links = ground (arith, h.links);
})
apply_all-Tracks s t (l ∷ ls) k o summary ids e h =
    let (t1, e1, e2) = >>=-eq-ok (apply_link s t l) (λ u. apply_all s u ls) e in
    let a = apply_link-Applied s t l e1 in
    elim (pair_eq.dec k (target_key l)) [
      | yes p ↦ rw (links_for_hit k l ls p) (
          rw append_assoc at (
            apply_all-Tracks s t1 ls k l.outcome l.summary (ids ++ (l.link_id ∷ [])) e2
              (apply_link_hit s t l k o summary ids p a h)))
      | no n ↦ rw (links_for_miss k l ls n) (
          apply_all-Tracks s t1 ls k o summary ids e2 (apply_link_miss s t l k o summary ids n a h))
    ]

start_tensions_miss :
    (cs : List RelationshipConsequence) (t : Tensions) (k : Key) (o : NarrativeTensionOutcome)
    (summary : String) (ids : List String)
    → All (λ c. k ≢ consequence_key c) cs
    → Tracks k t o summary ids
    → Tracks k (start_tensions cs t) o summary ids
unfolding start_tensions
start_tensions_miss [] t k o summary ids ne h = h
start_tensions_miss (c ∷ cs) t k o summary ids ne h =
    let j = consequence_key c in
    start_tensions_miss cs _ k o summary ids ne.1 (record {
      outcome = ground (arith, ne.0, h.outcome, lookup-insert k j unaddressed t.outcomes);
      told = ground (arith, ne.0, h.told, lookup-insert k j c.summary t.summaries);
      links = ground (arith, ne.0, h.links, lookup-insert k j [] t.link_ids);
    })

-- Before any link each consequence is unaddressed, told in its own words, and has no link.
pub start_tensions-Tracks :
    (cs : List RelationshipConsequence) (t : Tensions) {c : RelationshipConsequence}
    → DistinctKeys consequence_key cs
    → Has c cs
    → Tracks (consequence_key c) (start_tensions cs t) unaddressed c.summary []
unfolding start_tensions
start_tensions-Tracks [] t d m = elim m [ ]
start_tensions-Tracks (b ∷ cs) t {c} d (here e) =
    let k = consequence_key b in
    rw e (
      start_tensions_miss cs _ k unaddressed b.summary [] d.0 (record {
        outcome = ground (arith, lookup-insert k k unaddressed t.outcomes);
        told = ground (arith, lookup-insert k k b.summary t.summaries);
        links = ground (arith, lookup-insert k k [] t.link_ids);
      }))
start_tensions-Tracks (b ∷ cs) t d (there m) = start_tensions-Tracks cs _ d.1 m
