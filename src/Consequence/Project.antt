-- ===== src/Consequence/Project.antt =====
-- `NarrativeTensionProjector.project` of erii/core/consequence.py.
use e_r_i_i.Prelude.{◌≡◌, arith, String, List, [], ◌∷◌, ◌++◌, Bool, true, false, ◌&&◌, none, some}
use e_r_i_i.Prelude.Dict.{Dict, lookup, insert}
use e_r_i_i.Prelude.Equality.{◌!=◌, contains, pair_eq, string_eq, if◌then◌else◌}
use e_r_i_i.Prelude.Order.{pair_ord}
use e_r_i_i.Prelude.Result.{ok, err, ◌>>=◌, ◌>>◌, raise_if, map_ok}
use e_r_i_i.Prelude.Sort.{sorted}
use e_r_i_i.Prelude.Text.{string_ord}
use e_r_i_i.Consequence.Validate.{make_projection}
use e_r_i_i.Consequence.Types.{
  RelationshipConsequence, NarrativeTensionLink, NarrativeTensionProjection,
  NarrativeTensionOutcome, unaddressed, mutually_reconciled, boundary_stabilized,
  relationship_ended, superseded, Checked, conflicting_consequence, tension_already_rooted,
  conflicting_link, link_crosses_relationship, link_misses_consequence, link_misses_tension,
  terminal_reopened, key_error, same_consequence_payload, same_link_payload, tension_outcome_eq,
}

abbrev pub Key : Type 0
Key = String × String

-- a sort key: `recorded_at`, then the identity, then the relationship
abbrev pub SortKey : Type 0
SortKey = String × (String × String)

abbrev pub consequence_key : RelationshipConsequence → Key
consequence_key c = (c.relationship_id, c.consequence_id)

abbrev pub tension_key : RelationshipConsequence → Key
tension_key c = (c.relationship_id, c.tension_id)

abbrev pub link_key : NarrativeTensionLink → Key
link_key l = (l.relationship_id, l.link_id)

-- the consequence that a link names
abbrev pub target_key : NarrativeTensionLink → Key
target_key l = (l.relationship_id, l.consequence_id)

abbrev pub consequence_sort_key : RelationshipConsequence → SortKey
consequence_sort_key c = (c.recorded_at, (c.consequence_id, c.relationship_id))

abbrev pub link_sort_key : NarrativeTensionLink → SortKey
link_sort_key l = (l.recorded_at, (l.link_id, l.relationship_id))

-- `_TERMINAL_OUTCOMES`
unfoldable pub is_terminal : NarrativeTensionOutcome → Bool
is_terminal mutually_reconciled = true
is_terminal boundary_stabilized = true
is_terminal relationship_ended = true
is_terminal superseded = true
is_terminal _ = false

-- The four collections that the first loop fills. `consequences_by_id` maps an identity to the
-- relationships that have it.
pub record Roots : Type 0 where
  pub unique_consequences : List RelationshipConsequence
  pub consequences_by_key : Dict Key RelationshipConsequence
  pub consequences_by_id : Dict String (List String)
  pub tensions_by_key : Dict Key RelationshipConsequence

abbrev pub no_roots : Roots
no_roots = record {
  unique_consequences = [];
  consequences_by_key = [];
  consequences_by_id = [];
  tensions_by_key = [];
}

-- `d.setdefault(id, set()).add(relationship)`
unfoldable pub add_relationship :
    String → String → Dict String (List String) → Dict String (List String)
add_relationship i r d = elim (lookup i d) [
  | none ↦ insert i (r ∷ []) d
  | some rs ↦ insert i (if contains rs r then rs else rs ++ (r ∷ [])) d
]

-- the end of a round that meets a new consequence
abbrev pub add_root : Roots → RelationshipConsequence → Roots
add_root s c = record {
  unique_consequences = s.unique_consequences ++ (c ∷ []);
  consequences_by_key = insert (consequence_key c) c s.consequences_by_key;
  consequences_by_id = add_relationship c.consequence_id c.relationship_id s.consequences_by_id;
  tensions_by_key = insert (tension_key c) c s.tensions_by_key;
}

-- one round of the first loop
unfoldable pub root_consequence : Roots → RelationshipConsequence → Checked Roots
root_consequence s c = elim (lookup (consequence_key c) s.consequences_by_key) [
  | some duplicate ↦
      if same_consequence_payload duplicate c then ok s else err conflicting_consequence
  | none ↦ elim (lookup (tension_key c) s.tensions_by_key) [
    | some prior_tension ↦ err tension_already_rooted
    | none ↦ ok (add_root s c)
  ]
]

unfoldable pub root_all : Roots → List RelationshipConsequence → Checked Roots
root_all s [] = ok s
root_all s (c ∷ cs) = do s' ← root_consequence s c; root_all s' cs

pub record Links : Type 0 where
  pub unique_links : List NarrativeTensionLink
  pub links_by_key : Dict Key NarrativeTensionLink

abbrev pub no_links : Links
no_links = record { unique_links = []; links_by_key = [] }

-- the end of a round that meets a new link
abbrev pub add_link : Links → NarrativeTensionLink → Links
add_link s l = record {
  unique_links = s.unique_links ++ (l ∷ []);
  links_by_key = insert (link_key l) l s.links_by_key;
}

-- one round of the second loop
unfoldable pub admit_link : Links → NarrativeTensionLink → Checked Links
admit_link s l = elim (lookup (link_key l) s.links_by_key) [
  | some duplicate ↦ if same_link_payload duplicate l then ok s else err conflicting_link
  | none ↦ ok (add_link s l)
]

unfoldable pub admit_all : Links → List NarrativeTensionLink → Checked Links
admit_all s [] = ok s
admit_all s (l ∷ ls) = do s' ← admit_link s l; admit_all s' ls

-- The dicts `outcomes`, `summaries` and `link_ids`.
pub record Tensions : Type 0 where
  pub outcomes : Dict Key NarrativeTensionOutcome
  pub summaries : Dict Key String
  pub link_ids : Dict Key (List String)

unfoldable pub start_tensions : List RelationshipConsequence → Tensions → Tensions
start_tensions [] t = t
start_tensions (c ∷ cs) t = start_tensions cs (record {
  outcomes = insert (consequence_key c) unaddressed t.outcomes;
  summaries = insert (consequence_key c) c.summary t.summaries;
  link_ids = insert (consequence_key c) [] t.link_ids;
})

abbrev pub no_tensions : Tensions
no_tensions = record { outcomes = []; summaries = []; link_ids = [] }

-- `d[k]`
unfoldable pub item : {V : Type 0} → Key → Dict Key V → Checked V
item k d = elim (lookup k d) [ none ↦ err key_error | some v ↦ ok v ]

pub item_of :
    {V : Type 0} (k : Key) (d : Dict Key V) {v : V} → lookup k d ≡ some v → item k d ≡ ok v
unfolding item
item_of k d h = ground arith

-- one round of the third loop
unfoldable pub apply_link : Roots → Tensions → NarrativeTensionLink → Checked Tensions
unfolding item is_terminal
apply_link s t l = elim (lookup (target_key l) s.consequences_by_key) [
  | none ↦ elim (lookup l.consequence_id s.consequences_by_id) [
    | none ↦ err link_misses_consequence
    | some [] ↦ err link_misses_consequence
    | some (other ∷ others) ↦ err link_crosses_relationship
  ]
  | some consequence ↦ do
    raise_if (consequence.tension_id != l.tension_id) link_misses_tension
    current_outcome ← item (target_key l) t.outcomes
    raise_if (is_terminal current_outcome && l.outcome != superseded) terminal_reopened
    ids ← item (target_key l) t.link_ids
    ok (record {
      outcomes = insert (target_key l) l.outcome t.outcomes;
      summaries = insert (target_key l) l.summary t.summaries;
      link_ids = insert (target_key l) (ids ++ (l.link_id ∷ [])) t.link_ids;
    })
]

unfoldable pub apply_all : Roots → Tensions → List NarrativeTensionLink → Checked Tensions
apply_all s t [] = ok t
apply_all s t (l ∷ ls) = do t' ← apply_link s t l; apply_all s t' ls

-- the `NarrativeTensionProjection(...)` of one consequence
unfoldable pub project_one : Tensions → RelationshipConsequence → Checked NarrativeTensionProjection
project_one t c = do
  outcome ← item (consequence_key c) t.outcomes
  summary ← item (consequence_key c) t.summaries
  link_ids ← item (consequence_key c) t.link_ids
  make_projection (record {
    relationship_id = c.relationship_id;
    tension_id = c.tension_id;
    consequence_id = c.consequence_id;
    source_turn_id = c.source_turn_id;
    source_revision = c.source_revision;
    source_decision_id = c.source_decision_id;
    source_event_id = c.source_event_id;
    source_message_id = c.source_message_id;
    effects = c.effects;
    outcome = outcome;
    summary = summary;
    link_ids = link_ids;
  })

-- `NarrativeTensionProjector.project`, on values that are already records
unfoldable pub project :
    List RelationshipConsequence
    → List NarrativeTensionLink
    → Checked (List NarrativeTensionProjection)
project consequences links = do
  roots ← root_all no_roots (sorted consequence_sort_key consequences)
  admitted ← admit_all no_links (sorted link_sort_key links)
  tensions ←
      apply_all roots (start_tensions roots.unique_consequences no_tensions) admitted.unique_links
  map_ok (project_one tensions) roots.unique_consequences
