-- ===== src/Turn/Store/Terminal.antt =====
-- A Turn is terminated at most once: what the storage calls do to the record of an identity.
use e_r_i_i.Prelude.{
  ◌≡◌, refl, sym, ap, ◌∙◌, ◌≢◌, ◌⊎◌, inl, inr, ℕ, ◌+◌, String, List, [], ◌∷◌, true, some, arith,
}
use mathlib.Core.Path.{subst}
use e_r_i_i.Prelude.Equality.{
  ◌==◌, string_eq, nat_eq, if◌then◌else◌, Bool-cases, option_eq, list_eq,
}
use e_r_i_i.Prelude.Result.{ok, Result-cases}
use e_r_i_i.Turn.Types.{
  TurnRecord, TurnStatus, opened, turn_status_eq, turn_record_eq, turn_message_eq,
  turn_context_baseline_eq, interaction_context_signal_eq,
}
use e_r_i_i.Turn.Lifecycle.{is_terminal_transition}
use e_r_i_i.Turn.Store.{find_turn, may_replace, replace_turn}

-- the second record is the first, or terminates it
abbrev pub Succeeds : TurnRecord → TurnRecord → Type 0
Succeeds t u = (u ≡ t) ⊎ (is_terminal_transition u t ≡ true)

pub record IsTermination (u t : TurnRecord) : Type 0 where
  pub was_open : t.status ≡ opened
  pub terminal : u.status ≢ opened
  pub turn_id : u.turn_id ≡ t.turn_id
  pub relationship_id : u.relationship_id ≡ t.relationship_id
  pub source_revision : u.source_revision ≡ t.source_revision
  pub record_version : u.record_version ≡ t.record_version + 1
  pub opened_at : u.opened_at ≡ t.opened_at
  pub context_baseline : u.context_baseline ≡ t.context_baseline
  pub user_message : u.transcript.user_message ≡ t.transcript.user_message
  pub interaction_context : u.interaction_context ≡ t.interaction_context

pub termination : (u t : TurnRecord) → is_terminal_transition u t ≡ true → IsTermination u t
unfolding is_terminal_transition
termination u t h = record {
  was_open = ground arith;
  terminal = λ e. ground arith;
  turn_id = ground arith;
  relationship_id = ground arith;
  source_revision = ground arith;
  record_version = ground arith;
  opened_at = ground arith;
  context_baseline = ground arith;
  user_message = ground arith;
  interaction_context = ground arith;
}

Succeeds-turn_id : (t u : TurnRecord) → Succeeds t u → u.turn_id ≡ t.turn_id
Succeeds-turn_id t u (inl e) = ap (λ v. v.turn_id) e
Succeeds-turn_id t u (inr e) = let p = termination u t e in p.turn_id

pub Succeeds-trans : (t u v : TurnRecord) → Succeeds t u → Succeeds u v → Succeeds t v
Succeeds-trans t u v (inl e) (inl f) = inl (f ∙ e)
Succeeds-trans t u v (inl e) (inr f) = inr (subst (λ w. is_terminal_transition v w ≡ true) e f)
Succeeds-trans t u v (inr e) (inl f) =
    inr (subst (λ w. is_terminal_transition w t ≡ true) (sym f) e)
Succeeds-trans t u v (inr e) (inr f) =
    let p = termination u t e in let q = termination v u f in absurd (p.terminal q.was_open)

-- the list after `replace_turn`
pub record Replaced (ts us : List TurnRecord) (stored : TurnRecord) : Type 0 where
  pub kept :
      (k : String) (t : TurnRecord)
      → find_turn ts k ≡ some t
      → (u : TurnRecord) × (find_turn us k ≡ some u) × Succeeds t u
  pub own : find_turn us stored.turn_id ≡ some stored

pub find_turn-cons :
    (k : String) (t : TurnRecord) (ts : List TurnRecord)
    → find_turn (t ∷ ts) k ≡ (if t.turn_id == k then some t else find_turn ts k)
unfolding find_turn
find_turn-cons k t ts = refl

pub find_turn-turn_id :
    (ts : List TurnRecord) (k : String) (t : TurnRecord) → find_turn ts k ≡ some t → t.turn_id ≡ k
unfolding find_turn
find_turn-turn_id [] k t h = cc
find_turn-turn_id (x ∷ ts) k t h = ground (arith, find_turn-turn_id ts k t)

Replaced-here :
    (t u : TurnRecord) (ts : List TurnRecord) → Succeeds t u → Replaced (t ∷ ts) (u ∷ ts) u
Replaced-here t u ts s = record {
  kept = λ k v f. kept k v f (string_eq.dec t.turn_id k);
  own = ground (arith, find_turn-cons u.turn_id u ts);
}
  where
    kept :
        (k : String) (v : TurnRecord)
        → find_turn (t ∷ ts) k ≡ some v
        → Dec (t.turn_id ≡ k)
        → (w : TurnRecord) × (find_turn (u ∷ ts) k ≡ some w) × Succeeds v w
    kept k v f (yes p) =
        let q : t ≡ v = ground (arith, find_turn-cons k t ts) in
        (
          u,
          ground (arith, find_turn-cons k u ts, Succeeds-turn_id t u s),
          subst (λ w. Succeeds w u) q s,
        )
    kept k v f (no n) = (
      v,
      ground (arith, find_turn-cons k t ts, find_turn-cons k u ts, Succeeds-turn_id t u s),
      inl refl,
    )

Replaced-there :
    (x stored : TurnRecord) (ts us : List TurnRecord)
    → x.turn_id ≢ stored.turn_id
    → Replaced ts us stored
    → Replaced (x ∷ ts) (x ∷ us) stored
Replaced-there x stored ts us n r = record {
  kept = λ k v f. kept k v f (string_eq.dec x.turn_id k);
  own = ground (arith, find_turn-cons stored.turn_id x us, r.own);
}
  where
    kept :
        (k : String) (v : TurnRecord)
        → find_turn (x ∷ ts) k ≡ some v
        → Dec (x.turn_id ≡ k)
        → (w : TurnRecord) × (find_turn (x ∷ us) k ≡ some w) × Succeeds v w
    kept k v f (yes p) = (v, ground (arith, find_turn-cons k x ts, find_turn-cons k x us), inl refl)
    kept k v f (no m) =
        let (w, e, s) = r.kept k v (ground (arith, find_turn-cons k x ts)) in
        (w, ground (arith, find_turn-cons k x us), s)

pub replace_turn-Replaced :
    (ts : List TurnRecord) (t : TurnRecord) (status : TurnStatus) (version : ℕ)
    {us : List TurnRecord} {stored : TurnRecord}
    → replace_turn ts t status version ≡ ok (us, stored)
    → Replaced ts us stored × (stored ≡ t)
unfolding replace_turn may_replace
replace_turn-Replaced [] t status version h = cc
replace_turn-Replaced (x ∷ ts) t status version {us} {stored} h =
    elim (string_eq.dec x.turn_id t.turn_id) [
      | no n ↦ elim (Result-cases (replace_turn ts t status version)) [
        | inr (e, f) ↦ absurd (ground arith)
        | inl ((vs, w), e1) ↦
            let (r, q) = replace_turn-Replaced ts t status version e1 in
            let pu : x ∷ vs ≡ us = ground arith in
            let ps : w ≡ stored = ground arith in
            (rw (← pu) (rw (← ps) (Replaced-there x w ts vs (rw q n) r)), sym ps ∙ q)
      ]
      | yes p ↦ elim (turn_record_eq.dec x t) [
        | yes q ↦
            let pu : x ∷ ts ≡ us = ground arith in
            let ps : x ≡ stored = ground arith in
            (rw (← pu) (rw (← ps) (Replaced-here x x ts (inl refl))), sym ps ∙ q)
        | no q ↦ elim (Bool-cases (may_replace t x status version)) [
          | inr e ↦ absurd (ground arith)
          | inl e ↦
              let pu : t ∷ ts ≡ us = ground arith in
              let ps : t ≡ stored = ground arith in
              (rw (← pu) (rw (← ps) (Replaced-here x t ts (inr (ground arith)))), sym ps)
        ]
      ]
    ]
