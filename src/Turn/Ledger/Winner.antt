-- ===== src/Turn/Ledger/Winner.antt =====
-- The completion that a Turn gets is final, and calling again returns it.
use e_r_i_i.Prelude.{◌≡◌, refl, sym, ap, ◌∙◌, ◌⊎◌, inl, inr, ℕ, String, true, ◌&&◌, some, arith}
use mathlib.Core.Path.{subst}
use e_r_i_i.Prelude.Equality.{
  ◌==◌, string_eq, option_eq, list_eq, if◌then◌else◌, Option-cases, Bool-cases,
}
use e_r_i_i.Prelude.Lists.{has_duplicates}
use e_r_i_i.Prelude.Result.{
  ok, err, ◌>>=◌, ◌>>◌, raise_if, >>=-eq-ok, raise_if-eq-ok, Result-cases, ok-injective,
}
use e_r_i_i.Security.{validate_key}
use e_r_i_i.Turn.Types.{
  TurnRecord, TurnStatus, opened, completed, abandoned, TurnMessage, turn_status_eq,
  source_processing_channel_eq, continuity_review_record_eq, delivery_disposition_eq,
  delivery_exception_record_eq,
}
use e_r_i_i.Turn.Lifecycle.{
  Turned, turn_terminal_conflict, duplicate_channels, check_text, check_turn, make_turn, same_reply,
  reply_of,
}
use e_r_i_i.Turn.Store.{TurnFiles, get_turn_record, find_turn, list_turns, transition_turn_record}
use e_r_i_i.Turn.Store.Terminal.{find_turn-turn_id}
use e_r_i_i.Turn.Store.Calls.{stored_turn, Later, Later-terminal, transition_turn_record-Keeps}
use e_r_i_i.Turn.Store.Filed.{IsFiled}
use e_r_i_i.Turn.Ledger.{
  get, is_conflict, on_conflict, Completion, same_completion, has_channels, make_reply,
  completion_of, completed_turn, settle, complete,
}

get-eq-ok :
    (s : TurnFiles) (r turn_id : String) {t : TurnRecord}
    → get s r turn_id ≡ ok t
    → (key : String) × (validate_key turn_id ≡ ok key) × (stored_turn s r key ≡ some t)
unfolding get get_turn_record
get-eq-ok s r turn_id {t} h = elim (Result-cases (validate_key turn_id)) [
  | inr (e, f) ↦ absurd (ground arith)
  | inl (key, f) ↦ elim (Option-cases (find_turn (list_turns s r) key)) [
    | inl e ↦ absurd (ground arith)
    | inr (u, e) ↦ (key, f, ground arith)
  ]
]

get_of_stored :
    (s : TurnFiles) (r turn_id : String) {key : String} {t : TurnRecord}
    → validate_key turn_id ≡ ok key
    → stored_turn s r key ≡ some t
    → get s r turn_id ≡ ok t
unfolding get get_turn_record
get_of_stored s r turn_id h f = ground arith

-- the record of a completion
pub record IsCompletion (t : TurnRecord) (existing : TurnRecord) (c : Completion) : Type 0 where
  pub turn_id : t.turn_id ≡ existing.turn_id
  pub relationship_id : t.relationship_id ≡ existing.relationship_id
  pub finished : t.status ≡ completed
  pub same : same_completion t c ≡ true

make_turn-eq-ok : (t : TurnRecord) {u : TurnRecord} → make_turn t ≡ ok u → u ≡ t
unfolding make_turn
make_turn-eq-ok t h = let (u, e, k) = >>=-eq-ok (check_turn t) _ h in sym (ok-injective k)

completed_turn-IsCompletion :
    (t : TurnRecord) (c : Completion) (reply : TurnMessage) {u : TurnRecord}
    → reply.content ≡ c.agent_message
    → completed_turn t c reply ≡ ok u
    → IsCompletion u t c
unfolding completed_turn same_completion same_reply reply_of has_channels
completed_turn-IsCompletion t c reply {u} m h =
    let q = make_turn-eq-ok (completion_of t c reply) h in
    rw q
      (record { turn_id = refl; relationship_id = refl; finished = refl; same = ground (arith, m) })

make_reply-content :
    (t : TurnRecord) (c : Completion) (now : String) {m : TurnMessage}
    → make_reply t c now ≡ ok m
    → m.content ≡ c.agent_message
unfolding make_reply
make_reply-content t c now {m} h =
    let (u, e1, k1) = >>=-eq-ok (check_text c.agent_message "content") _ h in
    let (v, e2, k2) = >>=-eq-ok (check_text now "recorded_at") _ k1 in
    ap (λ n. n.content) (sym (ok-injective k2))

on_conflict-eq-ok :
    {A : Type 0} (m k : Turned A) {a : A} → on_conflict m k ≡ ok a → (m ≡ ok a) ⊎ (k ≡ ok a)
unfolding on_conflict
on_conflict-eq-ok (ok b) k h = inl h
on_conflict-eq-ok (err e) k h = elim (Bool-cases (is_conflict e)) [
  | inl f ↦ inr (ground arith)
  | inr f ↦ absurd (ground arith)
]

-- the result of a call: the files, and the completed record that stands in them
pub record IsSettled (s : TurnFiles) (r turn_id : String) (c : Completion) (t : TurnRecord)
    : Type 0 where
  pub key : String
  pub valid : validate_key turn_id ≡ ok key
  pub stored : stored_turn s r key ≡ some t
  pub finished : t.status ≡ completed
  pub same : same_completion t c ≡ true

settle-IsSettled :
    (current after : TurnFiles) (r turn_id key : String) (existing t : TurnRecord) (version : ℕ)
    (c : Completion) {s' : TurnFiles} {u : TurnRecord}
    → validate_key turn_id ≡ ok key
    → existing.turn_id ≡ key
    → existing.relationship_id ≡ r
    → IsCompletion t existing c
    → settle current after r turn_id t version
        (λ winner. winner.status == completed && same_completion winner c)
      ≡ ok (s', u)
    → IsSettled s' r turn_id c u
unfolding settle
settle-IsSettled current after r turn_id key existing t version c {s'} {u} valid own filed done h =
    elim (on_conflict-eq-ok (transition_turn_record current t opened version) _ h) [
      | inl e ↦
          let (kept, q, f) = transition_turn_record-Keeps current t opened version e in
          record {
            key = key;
            valid = valid;
            stored =
                subst (λ k. stored_turn s' r k ≡ some u) (done.turn_id ∙ own)
                  (subst (λ x. stored_turn s' x t.turn_id ≡ some u) (done.relationship_id ∙ filed)
                    f);
            finished = ap (λ v. v.status) q ∙ done.finished;
            same = subst (λ v. same_completion v c ≡ true) (sym q) done.same;
          }
      | inr e ↦
          let (w, e1, k1) = >>=-eq-ok (get after r turn_id) _ e in
          let (k, v, f) = get-eq-ok after r turn_id e1 in
          elim (Bool-cases (w.status == completed && same_completion w c)) [
            | inr n ↦ absurd (ground arith)
            | inl y ↦
                let ps : after ≡ s' = ground arith in
                let pt : w ≡ u = ground arith in
                rw (← ps) (
                  rw (← pt) (record {
                    key = k;
                    valid = v;
                    stored = f;
                    finished = ground arith;
                    same = ground arith;
                  }))
          ]
    ]

complete-IsSettled :
    (seen current after : TurnFiles) (r turn_id : String) (c : Completion)
    (authority : Turned (Unit {0})) (now : String) {s' : TurnFiles} {t : TurnRecord}
    → IsFiled seen
    → complete seen current after r turn_id c authority now ≡ ok (s', t)
    → IsSettled s' r turn_id c t
unfolding complete
complete-IsSettled seen current after r turn_id c authority now {s'} {t} filed h =
    let (existing, e1, k1) = >>=-eq-ok (get seen r turn_id) _ h in
    let (key, valid, f) = get-eq-ok seen r turn_id e1 in
    by_status existing key valid f existing.status refl k1
  where
    by_status :
        (existing : TurnRecord) (key : String)
        → validate_key turn_id ≡ ok key
        → stored_turn seen r key ≡ some existing
        → (st : TurnStatus) → existing.status ≡ st
        → elim st [
          | completed ↦
              if same_completion existing c then ok (seen, existing) else err turn_terminal_conflict
          | abandoned ↦ err turn_terminal_conflict
          | opened ↦ do
            raise_if (has_duplicates c.channels) duplicate_channels
            reply ← make_reply existing c now
            t ← completed_turn existing c reply
            authority
            settle current after r turn_id t existing.record_version
                (λ winner. winner.status == completed && same_completion winner c)
        ]
          ≡ ok (s', t)
        → IsSettled s' r turn_id c t
    by_status existing key valid f abandoned e k = cc
    by_status existing key valid f completed e k = elim (Bool-cases (same_completion existing c)) [
      | inr n ↦ absurd (ground arith)
      | inl y ↦
          let ps : seen ≡ s' = ground arith in
          let pt : existing ≡ t = ground arith in
          rw (← ps)
            (rw (← pt) (record { key = key; valid = valid; stored = f; finished = e; same = y }))
    ]
    by_status existing key valid f opened e k =
        let (e2, k2) = raise_if-eq-ok (has_duplicates c.channels) duplicate_channels _ k in
        let (reply, e3, k3) = >>=-eq-ok (make_reply existing c now) _ k2 in
        let (u, e4, k4) = >>=-eq-ok (completed_turn existing c reply) _ k3 in
        let (v, e5, k5) = >>=-eq-ok authority _ k4 in
        settle-IsSettled current after r turn_id key existing u existing.record_version c valid
          (find_turn-turn_id (list_turns seen r) key existing f) (filed r key existing f)
          (completed_turn-IsCompletion existing c reply (make_reply-content existing c now e3) e4)
          k5

-- A completion that has returned is final, if each Turn that it saw stood in the file of its
-- relationship. Whatever calls follow, the Turn that it returned stays in the file, and the same
-- completion, called again, whatever files it finds later, returns that Turn and changes nothing.
pub complete-final :
    (seen current after : TurnFiles) (r turn_id : String) (c : Completion)
    (authority : Turned (Unit {0})) (now : String) {s' u : TurnFiles} {t : TurnRecord}
    → IsFiled seen
    → complete seen current after r turn_id c authority now ≡ ok (s', t)
    → Later s' u
    → (get u r turn_id ≡ ok t)
      × ((v w : TurnFiles) (authority' : Turned (Unit {0})) (now' : String)
          → complete u v w r turn_id c authority' now' ≡ ok (u, t))
unfolding complete
complete-final seen current after r turn_id c authority now {u = u} {t = t} filed h later =
    let p = complete-IsSettled seen current after r turn_id c authority now filed h in
    let stays = Later-terminal r p.key t later p.stored (λ e. ground (arith, p.finished)) in
    let g = get_of_stored u r turn_id p.valid stays in (g, λ v w a n. simp (g, p.finished, p.same))
