-- ===== src/Consequence/Built.antt =====
-- What the constructor of a consequence accepts and what it makes of it, without its checks.
use mathlib.Core.Path.{subst}
use mathlib.Core.List.{Permᴰ}
use e_r_i_i.Prelude.{
  ◌≡◌, refl, sym, ap, ◌∙◌, ◌≢◌, ◌↔◌, ℕ, zero, suc, String, List, [], ◌∷◌, false, arith,
}
use e_r_i_i.Prelude.Distinct.{DistinctKeys}
use e_r_i_i.Prelude.Equality.{string_eq, contains}
use e_r_i_i.Prelude.Lists.{All, is_empty, has_duplicates}
use e_r_i_i.Prelude.Order.{nat_ord}
use e_r_i_i.Prelude.Result.{ok, >>=-eq-ok, raise_if-eq-ok, ok-injective}
use e_r_i_i.Prelude.Sort.{
  sorted, IsSorted, sorted-perm, sorted-IsSorted, sorted_of_IsSorted, sorted_perm_self,
}
use e_r_i_i.Prelude.Text.{strip}
use e_r_i_i.Consequence.Types.{
  RelationshipConsequenceKind, harm, comfort, refusal, anger, boundary_expression, trust_decrease,
  temporary_distance, relationship_end, repair_attempt, repair_refused, conflict,
  RelationshipConsequence, no_effects, duplicate_effects, consequence_kind_eq,
}
use e_r_i_i.Consequence.Validate.{require_text, require_effects, effect_order, make_consequence}

-- `t` is `s` without the white space around it, and something is left
abbrev pub IsStripped : String → String → Type 0
IsStripped s t = (strip s ≡ t) × (t ≢ "")

-- `fs` lists the effects `es`, of which there are some and none twice, in the order of the enumeration
pub record IsOrdering (es fs : List RelationshipConsequenceKind) : Type 0 where
  pub written : es ≢ []
  pub distinct : DistinctKeys (λ e. e) es
  pub in_order : IsSorted effect_order fs
  pub same : Permᴰ es fs

-- `d` is what the constructor makes of `c`
pub record IsBuilt (c d : RelationshipConsequence) : Type 0 where
  pub consequence_id : IsStripped c.consequence_id d.consequence_id
  pub relationship_id : IsStripped c.relationship_id d.relationship_id
  pub tension_id : IsStripped c.tension_id d.tension_id
  pub source_turn_id : IsStripped c.source_turn_id d.source_turn_id
  pub source_revision : IsStripped c.source_revision d.source_revision
  pub source_decision_id : IsStripped c.source_decision_id d.source_decision_id
  pub source_event_id : IsStripped c.source_event_id d.source_event_id
  pub source_message_id : IsStripped c.source_message_id d.source_message_id
  pub summary : IsStripped c.summary d.summary
  pub recorded_at : IsStripped c.recorded_at d.recorded_at
  pub effects : IsOrdering c.effects d.effects

require_text-IsStripped : (s t f : String) → (require_text s f ≡ ok t) ↔ IsStripped s t
unfolding require_text
require_text-IsStripped s t f = (
  λ h. elim (string_eq.dec (strip s) "") [
    | yes p ↦ absurd (ground arith)
    | no n ↦ (ground arith, ground arith)
  ],
  λ h. ground (arith, h.0, h.1),
)

-- the kind at a place of the enumeration
nth_kind : List RelationshipConsequenceKind → ℕ → RelationshipConsequenceKind
nth_kind [] n = conflict
nth_kind (k ∷ ks) zero = k
nth_kind (k ∷ ks) (suc n) = nth_kind ks n

kind_at : ℕ → RelationshipConsequenceKind
unfolding nth_kind
kind_at = nth_kind (
    harm ∷ comfort ∷ refusal ∷ anger ∷ boundary_expression ∷ trust_decrease ∷ temporary_distance
    ∷ relationship_end ∷ repair_attempt ∷ repair_refused ∷ conflict ∷ [])

kind_at-effect_order : (a : RelationshipConsequenceKind) → kind_at (effect_order a) ≡ a
unfolding kind_at effect_order
kind_at-effect_order harm = refl
kind_at-effect_order comfort = refl
kind_at-effect_order refusal = refl
kind_at-effect_order anger = refl
kind_at-effect_order boundary_expression = refl
kind_at-effect_order trust_decrease = refl
kind_at-effect_order temporary_distance = refl
kind_at-effect_order relationship_end = refl
kind_at-effect_order repair_attempt = refl
kind_at-effect_order repair_refused = refl
kind_at-effect_order conflict = refl

effect_order-injective :
    (a b : RelationshipConsequenceKind) → effect_order a ≡ effect_order b → a ≡ b
effect_order-injective a b h = sym (kind_at-effect_order a) ∙ ap kind_at h ∙ kind_at-effect_order b

contains_none :
    (e : RelationshipConsequenceKind) (es : List RelationshipConsequenceKind)
    → (contains es e ≡ false) ↔ All (λ f. e ≢ f) es
contains_none e [] = (λ h. tt, λ h. refl)
contains_none e (f ∷ es) =
    let (to, from) = contains_none e es in
    (λ h. (ground arith, to (ground arith)), λ h. ground (arith, h.0, from h.1))

has_duplicates-DistinctKeys :
    (es : List RelationshipConsequenceKind) → (has_duplicates es ≡ false) ↔ DistinctKeys (λ e. e) es
has_duplicates-DistinctKeys [] = (λ h. tt, λ h. refl)
has_duplicates-DistinctKeys (e ∷ es) =
    let (to, from) = has_duplicates-DistinctKeys es in
    let (none, some) = contains_none e es in
    (λ h. (none (ground arith), to (ground arith)), λ h. ground (arith, some h.0, from h.1))

is_empty_iff : (es : List RelationshipConsequenceKind) → (is_empty es ≡ false) ↔ (es ≢ [])
is_empty_iff [] = (λ h. absurd (ground arith), λ h. absurd (h refl))
is_empty_iff (e ∷ es) = (λ h. ground arith, λ h. refl)

require_effects-IsOrdering :
    (es fs : List RelationshipConsequenceKind) → (require_effects es ≡ ok fs) ↔ IsOrdering es fs
unfolding require_effects
require_effects-IsOrdering es fs = (
  λ h.
      let (full, h1) = raise_if-eq-ok (is_empty es) no_effects _ h in
      let (once, h2) = raise_if-eq-ok (has_duplicates es) duplicate_effects _ h1 in
      rw (← ok-injective h2) (record {
        written = (is_empty_iff es).0 full;
        distinct = (has_duplicates-DistinctKeys es).0 once;
        in_order = sorted-IsSorted effect_order es;
        same = sorted_perm_self effect_order es;
      }),
  λ h.
      let full = (is_empty_iff es).1 h.written in
      let once = (has_duplicates-DistinctKeys es).1 h.distinct in
      let q : sorted effect_order es ≡ fs =
        sorted-perm effect_order h.same (λ a b m n. effect_order-injective a b)
        ∙ sorted_of_IsSorted effect_order fs h.in_order in
      rw (full, once, q, require_effects) refl,
)

-- The constructor returns `d` if and only if `d` is `c` with every text stripped and none of them
-- blank, and with its effects, which are not none and of which none is there twice, in the order of
-- the enumeration. It raises otherwise.
pub make_consequence_iff-IsBuilt :
    (c d : RelationshipConsequence) → (make_consequence c ≡ ok d) ↔ IsBuilt c d
unfolding make_consequence
make_consequence_iff-IsBuilt c d = (
  λ e.
      let (a1, e1, k1) = >>=-eq-ok (require_text c.consequence_id "consequence_id") _ e in
      let (a2, e2, k2) = >>=-eq-ok (require_text c.relationship_id "relationship_id") _ k1 in
      let (a3, e3, k3) = >>=-eq-ok (require_text c.tension_id "tension_id") _ k2 in
      let (a4, e4, k4) = >>=-eq-ok (require_text c.source_turn_id "source_turn_id") _ k3 in
      let (a5, e5, k5) = >>=-eq-ok (require_text c.source_revision "source_revision") _ k4 in
      let (a6, e6, k6) = >>=-eq-ok (require_text c.source_decision_id "source_decision_id") _ k5 in
      let (a7, e7, k7) = >>=-eq-ok (require_text c.source_event_id "source_event_id") _ k6 in
      let (a8, e8, k8) = >>=-eq-ok (require_text c.source_message_id "source_message_id") _ k7 in
      let (a9, e9, k9) = >>=-eq-ok (require_text c.summary "summary") _ k8 in
      let (a10, e10, k10) = >>=-eq-ok (require_text c.recorded_at "recorded_at") _ k9 in
      let (a11, e11, k11) = >>=-eq-ok (require_effects c.effects) _ k10 in
      let q : _ ≡ d = ok-injective k11 in
      subst (IsBuilt c) q (record {
        consequence_id = (require_text-IsStripped c.consequence_id _ _).0 e1;
        relationship_id = (require_text-IsStripped c.relationship_id _ _).0 e2;
        tension_id = (require_text-IsStripped c.tension_id _ _).0 e3;
        source_turn_id = (require_text-IsStripped c.source_turn_id _ _).0 e4;
        source_revision = (require_text-IsStripped c.source_revision _ _).0 e5;
        source_decision_id = (require_text-IsStripped c.source_decision_id _ _).0 e6;
        source_event_id = (require_text-IsStripped c.source_event_id _ _).0 e7;
        source_message_id = (require_text-IsStripped c.source_message_id _ _).0 e8;
        summary = (require_text-IsStripped c.summary _ _).0 e9;
        recorded_at = (require_text-IsStripped c.recorded_at _ _).0 e10;
        effects = (require_effects-IsOrdering c.effects _).0 e11;
      }),
  λ h. simp (
    (require_text-IsStripped c.consequence_id d.consequence_id "consequence_id").1 h.consequence_id,
    (require_text-IsStripped c.relationship_id d.relationship_id "relationship_id").1
        h.relationship_id,
    (require_text-IsStripped c.tension_id d.tension_id "tension_id").1 h.tension_id,
    (require_text-IsStripped c.source_turn_id d.source_turn_id "source_turn_id").1 h.source_turn_id,
    (require_text-IsStripped c.source_revision d.source_revision "source_revision").1
        h.source_revision,
    (require_text-IsStripped c.source_decision_id d.source_decision_id "source_decision_id").1
        h.source_decision_id,
    (require_text-IsStripped c.source_event_id d.source_event_id "source_event_id").1
        h.source_event_id,
    (require_text-IsStripped c.source_message_id d.source_message_id "source_message_id").1
        h.source_message_id,
    (require_text-IsStripped c.summary d.summary "summary").1 h.summary,
    (require_text-IsStripped c.recorded_at d.recorded_at "recorded_at").1 h.recorded_at,
    (require_effects-IsOrdering c.effects d.effects).1 h.effects,
  ),
)
