-- ===== src/Turn/Store/Calls.antt =====
-- The storage calls on whole Turn files, and what any sequence of them keeps.
use e_r_i_i.Prelude.{
  ◌≡◌, refl, sym, ap, ◌∙◌, ◌≢◌, ◌⊎◌, inl, inr, ℕ, ◌+◌, String, List, [], ◌∷◌, ◌++◌, not, Option,
  none, some, arith,
}
use mathlib.Core.Path.{subst}
use e_r_i_i.Prelude.Dict.{lookup-insert}
use e_r_i_i.Prelude.Equality.{◌==◌, string_eq, nat_eq, contains, if◌then◌else◌, Option-cases}
use e_r_i_i.Prelude.Result.{ok, >>=-eq-ok, raise_if-eq-ok}
use e_r_i_i.Turn.Types.{TurnRecord, TurnStatus, opened, turn_status_eq, turn_record_eq}
use e_r_i_i.Turn.Lifecycle.{unknown_turn_relationship}
use e_r_i_i.Turn.Store.{
  TurnFiles, list_turns, write_turns, find_turn, create_turn_record, replace_turn,
  transition_turn_record,
}
use e_r_i_i.Turn.Store.Terminal.{Succeeds, termination, Succeeds-trans, replace_turn-Replaced}

-- the record of an identity in the file of a relationship
abbrev pub stored_turn : TurnFiles → String → String → Option TurnRecord
stored_turn s r k = find_turn (list_turns s r) k

-- Every record has a successor.
abbrev pub Keeps : TurnFiles → TurnFiles → Type 0
Keeps s s' =
    (r k : String) (t : TurnRecord)
    → stored_turn s r k ≡ some t
    → (u : TurnRecord) × (stored_turn s' r k ≡ some u) × Succeeds t u

Keeps-refl : (s : TurnFiles) → Keeps s s
Keeps-refl s r k t f = (t, f, inl refl)

Keeps-trans : (s t u : TurnFiles) → Keeps s t → Keeps t u → Keeps s u
Keeps-trans s t u h g r k a f =
    let (b, fb, sb) = h r k a f in
    let (c, fc, sc) = g r k b fb in (c, fc, Succeeds-trans a b c sb sc)

pub list_turns-write :
    (s : TurnFiles) (r q : String) (ts : List TurnRecord)
    → list_turns (write_turns s q ts) r ≡ (if r == q then ts else list_turns s r)
unfolding list_turns write_turns
list_turns-write s r q ts = ground (arith, lookup-insert r q ts s.records)

find_turn-append :
    (k : String) (t u : TurnRecord) (ts : List TurnRecord)
    → find_turn ts k ≡ some t
    → find_turn (ts ++ (u ∷ [])) k ≡ some t
unfolding find_turn
find_turn-append k t u [] h = cc
find_turn-append k t u (x ∷ ts) h = ground (arith, find_turn-append k t u ts)

find_turn-append_none :
    (u : TurnRecord) (ts : List TurnRecord)
    → find_turn ts u.turn_id ≡ none
    → find_turn (ts ++ (u ∷ [])) u.turn_id ≡ some u
unfolding find_turn
find_turn-append_none u [] h = ground arith
find_turn-append_none u (x ∷ ts) h = ground (arith, find_turn-append_none u ts)

-- a write of a list whose records succeed those of the file
write_turns-Keeps :
    (s : TurnFiles) (q : String) (ts : List TurnRecord)
    → ((k : String) (t : TurnRecord)
        → find_turn (list_turns s q) k ≡ some t
        → (u : TurnRecord) × (find_turn ts k ≡ some u) × Succeeds t u)
    → Keeps s (write_turns s q ts)
write_turns-Keeps s q ts h r k t f = elim (string_eq.dec r q) [
  | yes p ↦
      let (u, e, g) = h k t (subst (λ x. find_turn (list_turns s x) k ≡ some t) p f) in
      (u, ground (arith, list_turns-write s r q ts), g)
  | no n ↦ (t, ground (arith, list_turns-write s r q ts), inl refl)
]

-- `create_turn_record` keeps every record, and what it returns stands in the file.
pub create_turn_record-Keeps :
    (s : TurnFiles) (t : TurnRecord) {s' : TurnFiles} {stored : TurnRecord}
    → create_turn_record s t ≡ ok (s', stored)
    → Keeps s s' × (stored_turn s' t.relationship_id t.turn_id ≡ some stored)
unfolding create_turn_record
create_turn_record-Keeps s t {s'} {stored} h =
    let (e1, k1) =
      raise_if-eq-ok (not (contains s.relationships t.relationship_id)) unknown_turn_relationship _
        h in
    let ts = list_turns s t.relationship_id in
    elim (Option-cases (find_turn ts t.turn_id)) [
      | inr (old, f) ↦
          let ps : s ≡ s' = ground arith in
          let pt : old ≡ stored = ground arith in
          (subst (Keeps s) ps (Keeps-refl s), rw (← ps) (f ∙ ap some pt))
      | inl f ↦
          let ps : write_turns s t.relationship_id (ts ++ (t ∷ [])) ≡ s' = ground arith in
          let pt : t ≡ stored = ground arith in
          (
            subst (Keeps s) ps (
                write_turns-Keeps s t.relationship_id (ts ++ (t ∷ []))
                  (λ k u g. (u, find_turn-append k u t ts g, inl refl))),
            rw (← ps) (
                ground (
                  arith,
                  list_turns-write s t.relationship_id t.relationship_id (ts ++ (t ∷ [])),
                  find_turn-append_none t ts f,
                )),
          )
    ]

-- `transition_turn_record` replaces no record but by a termination of it, and what it returns is the
-- record that it was called with, which stands in the file.
pub transition_turn_record-Keeps :
    (s : TurnFiles) (t : TurnRecord) (status : TurnStatus) (version : ℕ) {s' : TurnFiles}
    {stored : TurnRecord}
    → transition_turn_record s t status version ≡ ok (s', stored)
    → Keeps s s' × (stored ≡ t) × (stored_turn s' t.relationship_id t.turn_id ≡ some stored)
unfolding transition_turn_record
transition_turn_record-Keeps s t status version {s'} {stored} h =
    let ((us, u), e1, k1) =
      >>=-eq-ok (replace_turn (list_turns s t.relationship_id) t status version) _ h in
    let (r, q) = replace_turn-Replaced (list_turns s t.relationship_id) t status version e1 in
    let ps : write_turns s t.relationship_id us ≡ s' = ground arith in
    let pt : u ≡ stored = ground arith in
    (
      subst (Keeps s) ps (write_turns-Keeps s t.relationship_id us r.kept),
      sym pt ∙ q,
      rw (← ps) (ground (arith, list_turns-write s t.relationship_id t.relationship_id us, r.own)),
    )

-- A storage that calls have led to, by this process or another.
pub data Later (s : TurnFiles) : TurnFiles → Type 0 where
  now : Later s s
  created :
      {t u : TurnFiles} (turn stored : TurnRecord)
      → Later s t
      → create_turn_record t turn ≡ ok (u, stored)
      → Later s u
  transitioned :
      {t u : TurnFiles} (turn stored : TurnRecord) (status : TurnStatus) (version : ℕ)
      → Later s t
      → transition_turn_record t turn status version ≡ ok (u, stored)
      → Later s u

pub Later-Keeps : {s t : TurnFiles} → Later s t → Keeps s t
Later-Keeps {s = s} now = Keeps-refl s
Later-Keeps {s = s} {t = u} (created {t = t} turn stored p e) =
    Keeps-trans s t u (Later-Keeps p) (create_turn_record-Keeps t turn e).0
Later-Keeps {s = s} {t = u} (transitioned {t = t} turn stored status version p e) =
    Keeps-trans s t u (Later-Keeps p) (transition_turn_record-Keeps t turn status version e).0

-- Whatever calls follow, a stored Turn that is no longer open stays as it is.
pub Later-terminal :
    {s u : TurnFiles} (r k : String) (t : TurnRecord)
    → Later s u
    → stored_turn s r k ≡ some t
    → t.status ≢ opened
    → stored_turn u r k ≡ some t
Later-terminal r k t p f n =
    let (v, e, step) = Later-Keeps p r k t f in
    elim step [
      | inl q ↦ e ∙ ap some q
      | inr q ↦ let done = termination v t q in absurd (n done.was_open)
    ]

-- Whatever calls follow, a stored Turn keeps its opening: its identity, relationship, revision, time
-- of opening, baseline, user message and context. Its version is the same or, once it is terminated,
-- one more.
pub Later-opening :
    {s u : TurnFiles} (r k : String) (t : TurnRecord)
    → Later s u
    → stored_turn s r k ≡ some t
    → (v : TurnRecord) × (stored_turn u r k ≡ some v)
      × (v.turn_id ≡ t.turn_id)
      × (v.relationship_id ≡ t.relationship_id)
      × (v.source_revision ≡ t.source_revision)
      × (v.opened_at ≡ t.opened_at)
      × (v.context_baseline ≡ t.context_baseline)
      × (v.transcript.user_message ≡ t.transcript.user_message)
      × (v.interaction_context ≡ t.interaction_context)
      × ((v ≡ t)
          ⊎ ((t.status ≡ opened) × (v.status ≢ opened) × (v.record_version ≡ t.record_version + 1)))
Later-opening r k t p f =
    let (v, e, step) = Later-Keeps p r k t f in
    elim step [
      | inl q ↦ (
        v,
        e,
        ap (λ w. w.turn_id) q,
        ap (λ w. w.relationship_id) q,
        ap (λ w. w.source_revision) q,
        ap (λ w. w.opened_at) q,
        ap (λ w. w.context_baseline) q,
        ap (λ w. w.transcript.user_message) q,
        ap (λ w. w.interaction_context) q,
        inl q,
      )
      | inr q ↦
          let d = termination v t q in
          (
            v,
            e,
            d.turn_id,
            d.relationship_id,
            d.source_revision,
            d.opened_at,
            d.context_baseline,
            d.user_message,
            d.interaction_context,
            inr (d.was_open, d.terminal, d.record_version),
          )
    ]
