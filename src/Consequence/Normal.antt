-- ===== src/Consequence/Normal.antt =====
-- Records that have passed their `__post_init__`: building them again changes nothing.
use e_r_i_i.Prelude.{
  ◌≡◌, refl, ◌≢◌, String, List, [], ◌∷◌, Bool, false, not, ◌&&◌, ◌||◌, arith, ap, ◌∙◌,
}
use mathlib.Core.Path.{ap₂}
use e_r_i_i.Prelude.Equality.{◌==◌, string_eq, contains, ne_of_test}
use e_r_i_i.Prelude.Lists.{All, is_empty, has_duplicates}
use e_r_i_i.Prelude.Order.{nat_ord}
use e_r_i_i.Prelude.Result.{ok, >>=-eq-ok, raise_if-eq-ok, map_ok}
use e_r_i_i.Prelude.Sort.{insort, sorted, sorted_idem}
use e_r_i_i.Prelude.Text.{strip, strip_idem}
use e_r_i_i.Consequence.Types.{
  RelationshipConsequenceKind, RelationshipConsequence, NarrativeTensionLink,
  NarrativeTensionProjection, unaddressed, consequence_kind_eq, tension_outcome_eq, no_effects,
  duplicate_effects, link_unaddressed,
}
use e_r_i_i.Consequence.Validate.{
  require_text, require_effects, effect_order, make_consequence, make_link, make_projection,
}

-- a text that is stripped and not empty
pub record IsText (s : String) : Type 0 where
  pub stripped : strip s ≡ s
  pub written : s ≢ ""

pub require_text_of_IsText : (s f : String) → IsText s → require_text s f ≡ ok s
unfolding require_text
require_text_of_IsText s f h = rw h.stripped (ground (arith, h.written))

pub require_text_value :
    (s f : String) {t : String} → require_text s f ≡ ok t → strip s ≢ "" → strip s ≡ t
unfolding require_text
require_text_value s f e n = ground arith

-- A text that is accepted comes out stripped, and is not empty.
pub require_text-IsText : (s f : String) {t : String} → require_text s f ≡ ok t → IsText t
unfolding require_text
require_text-IsText s f {t} e = elim (string_eq.dec (strip s) "") [
  | yes p ↦ absurd (ground arith)
  | no n ↦ rw (← require_text_value s f e n) (record { stripped = strip_idem s; written = n })
]

abbrev pub IsEffects : List RelationshipConsequenceKind → Type 0
IsEffects es = require_effects es ≡ ok es

pub record IsNormalConsequence (c : RelationshipConsequence) : Type 0 where
  pub consequence_id : IsText c.consequence_id
  pub relationship_id : IsText c.relationship_id
  pub tension_id : IsText c.tension_id
  pub source_turn_id : IsText c.source_turn_id
  pub source_revision : IsText c.source_revision
  pub source_decision_id : IsText c.source_decision_id
  pub source_event_id : IsText c.source_event_id
  pub source_message_id : IsText c.source_message_id
  pub summary : IsText c.summary
  pub recorded_at : IsText c.recorded_at
  pub effects : IsEffects c.effects

pub record IsNormalLink (l : NarrativeTensionLink) : Type 0 where
  pub link_id : IsText l.link_id
  pub relationship_id : IsText l.relationship_id
  pub tension_id : IsText l.tension_id
  pub consequence_id : IsText l.consequence_id
  pub source_turn_id : IsText l.source_turn_id
  pub source_revision : IsText l.source_revision
  pub source_decision_id : IsText l.source_decision_id
  pub source_event_id : IsText l.source_event_id
  pub summary : IsText l.summary
  pub recorded_at : IsText l.recorded_at
  pub addressed : l.outcome ≢ unaddressed

pub record IsNormalProjection (p : NarrativeTensionProjection) : Type 0 where
  pub relationship_id : IsText p.relationship_id
  pub tension_id : IsText p.tension_id
  pub consequence_id : IsText p.consequence_id
  pub source_turn_id : IsText p.source_turn_id
  pub source_revision : IsText p.source_revision
  pub source_decision_id : IsText p.source_decision_id
  pub source_event_id : IsText p.source_event_id
  pub source_message_id : IsText p.source_message_id
  pub summary : IsText p.summary
  pub effects : IsEffects p.effects
  pub link_ids : All IsText p.link_ids
  pub distinct : has_duplicates p.link_ids ≡ false
  pub linked : is_empty p.link_ids ≡ (p.outcome == unaddressed)

require_texts :
    (f : String) (ids : List String) → All IsText ids → map_ok (λ i. require_text i f) ids ≡ ok ids
unfolding map_ok
require_texts f [] h = refl
require_texts f (i ∷ is) h = rw (require_text_of_IsText i f h.0) (rw (require_texts f is h.1))

and_not : (b : Bool) → (b && not b) ≡ false
and_not b = ground arith

not_and : (b : Bool) → (not b && b) ≡ false
not_and b = ground arith

-- A projection whose parts are normal is built as it is.
pub make_projection_of_normal :
    (p : NarrativeTensionProjection) → IsNormalProjection p → make_projection p ≡ ok p
unfolding make_projection
make_projection_of_normal p h = simp (
  require_text_of_IsText p.relationship_id "relationship_id" h.relationship_id,
  require_text_of_IsText p.tension_id "tension_id" h.tension_id,
  require_text_of_IsText p.consequence_id "consequence_id" h.consequence_id,
  require_text_of_IsText p.source_turn_id "source_turn_id" h.source_turn_id,
  require_text_of_IsText p.source_revision "source_revision" h.source_revision,
  require_text_of_IsText p.source_decision_id "source_decision_id" h.source_decision_id,
  require_text_of_IsText p.source_event_id "source_event_id" h.source_event_id,
  require_text_of_IsText p.source_message_id "source_message_id" h.source_message_id,
  require_text_of_IsText p.summary "summary" h.summary,
  h.effects,
  require_texts "link_ids" p.link_ids h.link_ids,
  h.distinct,
  h.linked,
  and_not,
  not_and,
)

pub make_consequence_of_normal :
    (c : RelationshipConsequence) → IsNormalConsequence c → make_consequence c ≡ ok c
unfolding make_consequence
make_consequence_of_normal c h = simp (
  require_text_of_IsText c.consequence_id "consequence_id" h.consequence_id,
  require_text_of_IsText c.relationship_id "relationship_id" h.relationship_id,
  require_text_of_IsText c.tension_id "tension_id" h.tension_id,
  require_text_of_IsText c.source_turn_id "source_turn_id" h.source_turn_id,
  require_text_of_IsText c.source_revision "source_revision" h.source_revision,
  require_text_of_IsText c.source_decision_id "source_decision_id" h.source_decision_id,
  require_text_of_IsText c.source_event_id "source_event_id" h.source_event_id,
  require_text_of_IsText c.source_message_id "source_message_id" h.source_message_id,
  require_text_of_IsText c.summary "summary" h.summary,
  require_text_of_IsText c.recorded_at "recorded_at" h.recorded_at,
  h.effects,
)

-- Effects.

contains-insort :
    (x a : RelationshipConsequenceKind) (l : List RelationshipConsequenceKind)
    → contains (insort effect_order x l) a ≡ (a == x || contains l a)
unfolding insort
contains-insort x a [] = refl
contains-insort x a (y ∷ l) = ground (arith, contains-insort x a l)

has_duplicates-insort :
    (x : RelationshipConsequenceKind) (l : List RelationshipConsequenceKind)
    → has_duplicates (insort effect_order x l) ≡ has_duplicates (x ∷ l)
unfolding insort
has_duplicates-insort x [] = refl
has_duplicates-insort x (y ∷ l) = ground (arith, has_duplicates-insort x l, contains-insort x y l)

contains-sorted :
    (a : RelationshipConsequenceKind) (l : List RelationshipConsequenceKind)
    → contains (sorted effect_order l) a ≡ contains l a
unfolding sorted
contains-sorted a [] = refl
contains-sorted a (x ∷ l) =
    contains-insort x a (sorted effect_order l) ∙ ap (λ b. a == x || b) (contains-sorted a l)

has_duplicates-sorted :
    (l : List RelationshipConsequenceKind)
    → has_duplicates (sorted effect_order l) ≡ has_duplicates l
unfolding sorted
has_duplicates-sorted [] = refl
has_duplicates-sorted (x ∷ l) =
    has_duplicates-insort x (sorted effect_order l)
    ∙ ap₂ ◌||◌ (contains-sorted x l) (has_duplicates-sorted l)

is_empty-insort :
    (x : RelationshipConsequenceKind) (l : List RelationshipConsequenceKind)
    → is_empty (insort effect_order x l) ≡ false
unfolding insort
is_empty-insort x [] = refl
is_empty-insort x (y ∷ l) = ground arith

is_empty-sorted :
    (l : List RelationshipConsequenceKind) → is_empty (sorted effect_order l) ≡ is_empty l
unfolding sorted
is_empty-sorted [] = refl
is_empty-sorted (x ∷ l) = is_empty-insort x (sorted effect_order l)

-- Accepted effects are accepted again, as they are.
pub require_effects-IsEffects :
    (es : List RelationshipConsequenceKind) {fs : List RelationshipConsequenceKind}
    → require_effects es ≡ ok fs
    → IsEffects fs
unfolding require_effects
require_effects-IsEffects es {fs} e =
    let (full, e1) = raise_if-eq-ok (is_empty es) no_effects _ e in
    let (distinct, e2) = raise_if-eq-ok (has_duplicates es) duplicate_effects _ e1 in
    let q : sorted effect_order es ≡ fs = ground arith in
    rw (← q)
      (simp (is_empty-sorted, has_duplicates-sorted, full, distinct, sorted_idem effect_order es))

-- What the constructor of a consequence returns is normal.
pub make_consequence-IsNormal :
    (c : RelationshipConsequence) {d : RelationshipConsequence}
    → make_consequence c ≡ ok d
    → IsNormalConsequence d
unfolding make_consequence
make_consequence-IsNormal c {d} e =
    let (a1, e1, k1) = >>=-eq-ok (require_text c.consequence_id "consequence_id") _ e in
    let (a2, e2, k2) = >>=-eq-ok (require_text c.relationship_id "relationship_id") _ k1 in
    let (a3, e3, k3) = >>=-eq-ok (require_text c.tension_id "tension_id") _ k2 in
    let (a4, e4, k4) = >>=-eq-ok (require_text c.source_turn_id "source_turn_id") _ k3 in
    let (a5, e5, k5) = >>=-eq-ok (require_text c.source_revision "source_revision") _ k4 in
    let (a6, e6, k6) = >>=-eq-ok (require_text c.source_decision_id "source_decision_id") _ k5 in
    let (a7, e7, k7) = >>=-eq-ok (require_text c.source_event_id "source_event_id") _ k6 in
    let (a8, e8, k8) = >>=-eq-ok (require_text c.source_message_id "source_message_id") _ k7 in
    let (a9, e9, k9) = >>=-eq-ok (require_text c.summary "summary") _ k8 in
    let (a10, e10, k10) = >>=-eq-ok (require_text c.recorded_at "recorded_at") _ k9 in
    let (a11, e11, k11) = >>=-eq-ok (require_effects c.effects) _ k10 in
    let q : _ ≡ d = ground arith in
    rw (← q) (record {
      consequence_id = require_text-IsText c.consequence_id _ e1;
      relationship_id = require_text-IsText c.relationship_id _ e2;
      tension_id = require_text-IsText c.tension_id _ e3;
      source_turn_id = require_text-IsText c.source_turn_id _ e4;
      source_revision = require_text-IsText c.source_revision _ e5;
      source_decision_id = require_text-IsText c.source_decision_id _ e6;
      source_event_id = require_text-IsText c.source_event_id _ e7;
      source_message_id = require_text-IsText c.source_message_id _ e8;
      summary = require_text-IsText c.summary _ e9;
      recorded_at = require_text-IsText c.recorded_at _ e10;
      effects = require_effects-IsEffects c.effects e11;
    })

-- What the constructor of a link returns is normal.
pub make_link-IsNormal :
    (l : NarrativeTensionLink) {d : NarrativeTensionLink} → make_link l ≡ ok d → IsNormalLink d
unfolding make_link
make_link-IsNormal l {d} e =
    let (a1, e1, k1) = >>=-eq-ok (require_text l.link_id "link_id") _ e in
    let (a2, e2, k2) = >>=-eq-ok (require_text l.relationship_id "relationship_id") _ k1 in
    let (a3, e3, k3) = >>=-eq-ok (require_text l.tension_id "tension_id") _ k2 in
    let (a4, e4, k4) = >>=-eq-ok (require_text l.consequence_id "consequence_id") _ k3 in
    let (a5, e5, k5) = >>=-eq-ok (require_text l.source_turn_id "source_turn_id") _ k4 in
    let (a6, e6, k6) = >>=-eq-ok (require_text l.source_revision "source_revision") _ k5 in
    let (a7, e7, k7) = >>=-eq-ok (require_text l.source_decision_id "source_decision_id") _ k6 in
    let (a8, e8, k8) = >>=-eq-ok (require_text l.source_event_id "source_event_id") _ k7 in
    let (a9, e9, k9) = >>=-eq-ok (require_text l.summary "summary") _ k8 in
    let (a10, e10, k10) = >>=-eq-ok (require_text l.recorded_at "recorded_at") _ k9 in
    let (addressed, k11) = raise_if-eq-ok (l.outcome == unaddressed) link_unaddressed _ k10 in
    let q : _ ≡ d = ground arith in
    rw (← q) (record {
      link_id = require_text-IsText l.link_id _ e1;
      relationship_id = require_text-IsText l.relationship_id _ e2;
      tension_id = require_text-IsText l.tension_id _ e3;
      consequence_id = require_text-IsText l.consequence_id _ e4;
      source_turn_id = require_text-IsText l.source_turn_id _ e5;
      source_revision = require_text-IsText l.source_revision _ e6;
      source_decision_id = require_text-IsText l.source_decision_id _ e7;
      source_event_id = require_text-IsText l.source_event_id _ e8;
      summary = require_text-IsText l.summary _ e9;
      recorded_at = require_text-IsText l.recorded_at _ e10;
      addressed = ne_of_test l.outcome unaddressed addressed;
    })
