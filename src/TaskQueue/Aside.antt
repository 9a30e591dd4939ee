-- ===== src/TaskQueue/Aside.antt =====
-- The calls on the queue that leave a waiting or finished task alone.
use mathlib.Core.Path.{subst}
use e_r_i_i.Prelude.{
  ◌≡◌, refl, sym, ap, ◌∙◌, ◌≢◌, ◌⊎◌, ◌≤◌, ◌<◌, ℕ, ◌+◌, String, List, [], ◌∷◌, ◌++◌, Bool, true, inl,
  inr, none, some, arith,
}
use e_r_i_i.Prelude.Equality.{string_eq, nat_eq, Bool-cases, Option-cases, if◌then◌else◌}
use e_r_i_i.Prelude.Lists.{Has, here, there, find?, filter}
use e_r_i_i.TaskQueue.{
  TaskRow, QueueConfig, pending, processing, update_where, has_id, init_db, enqueue, dequeue,
  complete, fail, after_failure, is_due, earliest, task_status_eq,
}
use e_r_i_i.TaskQueue.Order.{update_where-Has, dequeue-some}

-- A call that neither returns the task, nor fails it, nor retries all that have failed.
pub data AsideStep (cfg : QueueConfig) (k : String) (ts : List TaskRow)
    : List TaskRow → Type 0 where
  recovers : (now : ℕ) → AsideStep cfg k ts (init_db cfg now ts)
  enqueues :
      (task_id : String) (now : ℕ) (agent_id user_id user_msg bot_reply : String)
      {us : List TaskRow}
      → enqueue cfg task_id now agent_id user_id user_msg bot_reply ts ≡ some us
      → AsideStep cfg k ts us
  hands_out :
      (now : ℕ) {t : TaskRow} {us : List TaskRow}
      → dequeue now ts ≡ (some t, us)
      → t.task_id ≢ k
      → AsideStep cfg k ts us
  finds_none : (now : ℕ) {us : List TaskRow} → dequeue now ts ≡ (none, us) → AsideStep cfg k ts us
  completes : (j : String) → AsideStep cfg k ts (complete j ts)
  fails : (now : ℕ) (j msg : String) → j ≢ k → AsideStep cfg k ts (fail cfg now j msg ts)

pub data Aside (cfg : QueueConfig) (k : String) (ts : List TaskRow) : List TaskRow → Type 0 where
  stays : Aside cfg k ts ts
  follows : {us vs : List TaskRow} → Aside cfg k ts us → AsideStep cfg k us vs → Aside cfg k ts vs

-- a row of the task that failed as `row`: it is not processed, and it waits only with attempts left
-- and up to `bound` at least
pub record IsBackedOff (row : TaskRow) (bound : ℕ) (u : TaskRow) : Type 0 where
  pub idle : u.status ≢ processing
  pub waits :
      u.status ≡ pending → (row.attempts + 1 < row.max_attempts) × (bound ≤ u.next_attempt_at)

pub record IsHeld (k : String) (row : TaskRow) (bound : ℕ) (ts : List TaskRow) : Type 0 where
  pub rows : (u : TaskRow) → Has u ts → u.task_id ≡ k → IsBackedOff row bound u
  pub known : (v : TaskRow) × Has v ts × (v.task_id ≡ k)

pub Has-update_where :
    (p : TaskRow → Bool) (f : TaskRow → TaskRow) {t : TaskRow} (ts : List TaskRow)
    → Has t ts
    → Has (if p t then f t else t) (update_where p f ts)
unfolding update_where
Has-update_where p f [] m = elim m [ ]
Has-update_where p f (t ∷ ts) (here e) = here (ap (λ x. if p x then f x else x) e)
Has-update_where p f (t ∷ ts) (there m) = there (Has-update_where p f ts m)

Has-append : (u new : TaskRow) (ts : List TaskRow) → Has u (ts ++ (new ∷ [])) → Has u ts ⊎ (u ≡ new)
Has-append u new [] (here e) = inr e
Has-append u new [] (there m) = elim m [ ]
Has-append u new (t ∷ ts) (here e) = inl (here e)
Has-append u new (t ∷ ts) (there m) = elim (Has-append u new ts m) [
  | inl n ↦ inl (there n)
  | inr e ↦ inr e
]

append-Has : (u new : TaskRow) (ts : List TaskRow) → Has u ts → Has u (ts ++ (new ∷ []))
append-Has u new [] m = elim m [ ]
append-Has u new (t ∷ ts) (here e) = here e
append-Has u new (t ∷ ts) (there m) = there (append-Has u new ts m)

unfound :
    (k : String) (v : TaskRow) (ts : List TaskRow)
    → find? (has_id k) ts ≡ none
    → Has v ts
    → v.task_id ≢ k
unfound k v [] h m = elim m [ ]
unfound k v (t ∷ ts) h (here e) = λ q. absurd (ground (arith, ap (λ (x : TaskRow). x.task_id) e))
unfound k v (t ∷ ts) h (there m) = unfound k v ts (ground arith) m

dequeue-none_same :
    (now : ℕ) (ts : List TaskRow) {us : List TaskRow} → dequeue now ts ≡ (none, us) → ts ≡ us
unfolding dequeue
dequeue-none_same now ts {us} h = elim (Option-cases (earliest (filter (is_due now) ts))) [
  | inl e ↦ ground arith
  | inr (t, e) ↦ ground arith
]

module _ (k : String) (row : TaskRow) (bound : ℕ) where
  update_where-IsHeld :
      (p : TaskRow → Bool) (f : TaskRow → TaskRow) (ts : List TaskRow)
      → ((t : TaskRow) → (f t).task_id ≡ t.task_id)
      → ((t : TaskRow)
          → t.task_id ≡ k
          → p t ≡ true
          → IsBackedOff row bound t
          → IsBackedOff row bound (f t))
      → IsHeld k row bound ts
      → IsHeld k row bound (update_where p f ts)
  update_where-IsHeld p f ts same h held =
      let (v, n, q) = held.known in
      record {
        rows = λ u m e.
            let (t, l, c) = update_where-Has p f u ts m in
            elim c [
              | inl (chosen, g) ↦
                  let id = sym (same t) ∙ sym (ap (λ x. x.task_id) g) ∙ e in
                  rw g (h t id chosen (held.rows t l id))
              | inr (other, g) ↦ rw g (held.rows t l (sym (ap (λ x. x.task_id) g) ∙ e))
            ];
        known = (
          if p v then f v else v,
          Has-update_where p f ts n,
          elim (Bool-cases (p v)) [ inl e ↦ rw e (same v ∙ q) | inr e ↦ rw e q ],
        );
      }

  enqueue-IsHeld :
      (cfg : QueueConfig) (task_id : String) (now : ℕ)
      (agent_id user_id user_msg bot_reply : String) (ts : List TaskRow) {us : List TaskRow}
      → enqueue cfg task_id now agent_id user_id user_msg bot_reply ts ≡ some us
      → IsHeld k row bound ts
      → IsHeld k row bound us
  unfolding enqueue
  enqueue-IsHeld cfg task_id now agent_id user_id user_msg bot_reply ts {us} h held =
      elim (Option-cases (find? (has_id task_id) ts)) [
        | inr (t, e) ↦ absurd (ground arith)
        | inl e ↦
            let new : TaskRow = record {
              task_id = task_id;
              agent_id = agent_id;
              user_id = user_id;
              user_msg = user_msg;
              bot_reply = bot_reply;
              status = pending;
              attempts = 0;
              max_attempts = cfg.max_attempts;
              created_at = now;
              next_attempt_at = now;
              error_msg = none;
              processing_started_at = none;
            } in
            let q : ts ++ (new ∷ []) ≡ us = ground arith in
            let (v, m, id) = held.known in
            subst (IsHeld k row bound) q (record {
              rows = λ u n j. elim (Has-append u new ts n) [
                | inl old ↦ held.rows u old j
                | inr f ↦
                    absurd
                      (unfound task_id v ts e m (id ∙ sym j ∙ ap (λ (x : TaskRow). x.task_id) f))
              ];
              known = (v, append-Has v new ts m, id);
            })
      ]

  AsideStep-IsHeld :
      (cfg : QueueConfig) {ts us : List TaskRow}
      → AsideStep cfg k ts us
      → IsHeld k row bound ts
      → IsHeld k row bound us
  unfolding init_db complete fail after_failure dequeue
  AsideStep-IsHeld cfg {ts} (recovers now) held =
      update_where-IsHeld _ _ ts (λ t. refl) (λ t e c b. absurd (b.idle (ground arith))) held
  AsideStep-IsHeld cfg {ts} (enqueues task_id now agent_id user_id user_msg bot_reply e) held =
      enqueue-IsHeld cfg task_id now agent_id user_id user_msg bot_reply ts e held
  AsideStep-IsHeld cfg {ts} (hands_out now {t} e n) held =
      let (_, q) = dequeue-some now ts e in
      rw q (update_where-IsHeld _ _ ts (λ u. refl) (λ u id c b. absurd (ground arith)) held)
  AsideStep-IsHeld cfg {ts} (finds_none now {us} e) held = rw (← dequeue-none_same now ts e) held
  AsideStep-IsHeld cfg {ts} (completes j) held =
      update_where-IsHeld _ _ ts (λ t. refl)
        (λ t e c b. record {
          idle = λ q. absurd (ground arith);
          waits = λ q. absurd (ground arith);
        })
        held
  AsideStep-IsHeld cfg {ts} (fails now j msg n) held = elim (Option-cases (find? (has_id j) ts)) [
    | inl e ↦ rw (e, fail) held
    | inr (t, e) ↦
        rw (e, fail)
          (update_where-IsHeld (has_id j) (after_failure cfg now msg t) ts (λ u. ground arith)
            (λ u id c b. absurd (ground arith)) held)
  ]

  pub Aside-IsHeld :
      (cfg : QueueConfig) {ts us : List TaskRow}
      → Aside cfg k ts us
      → IsHeld k row bound ts
      → IsHeld k row bound us
  Aside-IsHeld cfg stays held = held
  Aside-IsHeld cfg (follows r s) held = AsideStep-IsHeld cfg s (Aside-IsHeld cfg r held)
