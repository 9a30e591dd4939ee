-- ===== src/Turn/Store/Filed.antt =====
-- Every Turn stands in the file of its relationship, whatever calls are made.
use e_r_i_i.Prelude.{
  ◌≡◌, sym, ap, ◌∙◌, ◌⊎◌, inl, inr, ℕ, String, List, [], ◌∷◌, ◌++◌, not, some, arith,
}
use mathlib.Core.Path.{subst}
use e_r_i_i.Prelude.Equality.{string_eq, contains, Option-cases, Bool-cases}
use e_r_i_i.Prelude.Result.{ok, >>=-eq-ok, raise_if-eq-ok, Result-cases}
use e_r_i_i.Turn.Types.{TurnRecord, TurnStatus, turn_status_eq, turn_record_eq}
use e_r_i_i.Turn.Lifecycle.{unknown_turn_relationship}
use e_r_i_i.Turn.Store.{
  TurnFiles, list_turns, write_turns, find_turn, create_turn_record, may_replace, replace_turn,
  transition_turn_record,
}
use e_r_i_i.Turn.Store.Calls.{stored_turn, Later, now, created, transitioned, list_turns-write}

-- each record stands in the file of its relationship
abbrev pub IsFiled : TurnFiles → Type 0
IsFiled s = (r k : String) (t : TurnRecord) → stored_turn s r k ≡ some t → t.relationship_id ≡ r

append_origin :
    (k : String) (t u : TurnRecord) (ts : List TurnRecord)
    → find_turn (ts ++ (t ∷ [])) k ≡ some u
    → (find_turn ts k ≡ some u) ⊎ (u ≡ t)
unfolding find_turn
append_origin k t u [] h = inr (ground arith)
append_origin k t u (x ∷ ts) h = elim (string_eq.dec x.turn_id k) [
  | yes p ↦ inl (ground arith)
  | no n ↦ elim (append_origin k t u ts (ground arith)) [
    | inl e ↦ inl (ground arith)
    | inr e ↦ inr e
  ]
]

replace_turn_origin :
    (ts : List TurnRecord) (t : TurnRecord) (status : TurnStatus) (version : ℕ)
    {us : List TurnRecord} {stored : TurnRecord}
    → replace_turn ts t status version ≡ ok (us, stored)
    → (k : String) (u : TurnRecord) → find_turn us k ≡ some u
    → (find_turn ts k ≡ some u) ⊎ (u ≡ t)
unfolding replace_turn find_turn
replace_turn_origin [] t status version h k u f = cc
replace_turn_origin (x ∷ ts) t status version {us} {stored} h k u f =
    elim (string_eq.dec x.turn_id t.turn_id) [
      | no n ↦ elim (Result-cases (replace_turn ts t status version)) [
        | inr (e, g) ↦ absurd (ground arith)
        | inl ((vs, w), e1) ↦
            let q : x ∷ vs ≡ us = ground arith in
            elim (string_eq.dec x.turn_id k) [
              | yes p ↦ inl (ground arith)
              | no m ↦ elim (replace_turn_origin ts t status version e1 k u (ground arith)) [
                | inl e ↦ inl (ground arith)
                | inr e ↦ inr e
              ]
            ]
      ]
      | yes p ↦ elim (turn_record_eq.dec x t) [
        | yes q ↦ let e : x ∷ ts ≡ us = ground arith in inl (ground arith)
        | no q ↦ elim (Bool-cases (may_replace t x status version)) [
          | inr e ↦ absurd (ground arith)
          | inl e ↦
              let pu : t ∷ ts ≡ us = ground arith in
              elim (string_eq.dec t.turn_id k) [
                | yes m ↦ inr (ground arith)
                | no m ↦ inl (ground arith)
              ]
        ]
      ]
    ]

-- a write of records that are those of the file or of the relationship
write_turns-IsFiled :
    (s : TurnFiles) (q : String) (ts : List TurnRecord)
    → ((k : String) (u : TurnRecord)
        → find_turn ts k ≡ some u
        → (find_turn (list_turns s q) k ≡ some u) ⊎ (u.relationship_id ≡ q))
    → IsFiled s
    → IsFiled (write_turns s q ts)
write_turns-IsFiled s q ts h filed r k u f = elim (string_eq.dec r q) [
  | no n ↦ filed r k u (ground (arith, list_turns-write s r q ts))
  | yes p ↦ elim (h k u (ground (arith, list_turns-write s r q ts))) [
    | inl e ↦ filed q k u e ∙ sym p
    | inr e ↦ e ∙ sym p
  ]
]

create_turn_record-IsFiled :
    (s : TurnFiles) (t : TurnRecord) {s' : TurnFiles} {stored : TurnRecord}
    → create_turn_record s t ≡ ok (s', stored)
    → IsFiled s
    → IsFiled s'
unfolding create_turn_record
create_turn_record-IsFiled s t {s'} h filed =
    let (e1, k1) =
      raise_if-eq-ok (not (contains s.relationships t.relationship_id)) unknown_turn_relationship _
        h in
    let ts = list_turns s t.relationship_id in
    elim (Option-cases (find_turn ts t.turn_id)) [
      | inr (old, f) ↦ let ps : s ≡ s' = ground arith in subst IsFiled ps filed
      | inl f ↦
          let ps : write_turns s t.relationship_id (ts ++ (t ∷ [])) ≡ s' = ground arith in
          subst IsFiled ps (
            write_turns-IsFiled s t.relationship_id (ts ++ (t ∷ []))
              (λ k u g. elim (append_origin k t u ts g) [
                | inl e ↦ inl e
                | inr e ↦ inr (ap (λ v. v.relationship_id) e)
              ])
              filed)
    ]

transition_turn_record-IsFiled :
    (s : TurnFiles) (t : TurnRecord) (status : TurnStatus) (version : ℕ) {s' : TurnFiles}
    {stored : TurnRecord}
    → transition_turn_record s t status version ≡ ok (s', stored)
    → IsFiled s
    → IsFiled s'
unfolding transition_turn_record
transition_turn_record-IsFiled s t status version {s'} h filed =
    let ((us, u), e1, k1) =
      >>=-eq-ok (replace_turn (list_turns s t.relationship_id) t status version) _ h in
    let ps : write_turns s t.relationship_id us ≡ s' = ground arith in
    subst IsFiled ps (
      write_turns-IsFiled s t.relationship_id us
        (λ k v g.
          elim (replace_turn_origin (list_turns s t.relationship_id) t status version e1 k v g) [
            | inl e ↦ inl e
            | inr e ↦ inr (ap (λ w. w.relationship_id) e)
          ])
        filed)

-- Whatever calls follow, every stored Turn stands in the file of its relationship, if every one did.
pub Later-IsFiled : {s u : TurnFiles} → Later s u → IsFiled s → IsFiled u
Later-IsFiled now filed = filed
Later-IsFiled (created {t = t} turn stored p e) filed =
    create_turn_record-IsFiled t turn e (Later-IsFiled p filed)
Later-IsFiled (transitioned {t = t} turn stored status version p e) filed =
    transition_turn_record-IsFiled t turn status version e (Later-IsFiled p filed)
