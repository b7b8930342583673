-- ===== src/Runtime/Task/Events.antt =====
-- What an event of the host does to the count of a task.
use wai_bindgen.Prelude.{
  ℕ, zero, suc, ◌≡◌, ◌↔◌, ◌⊎◌, ◌≤◌, refl, Option, none, some, List, ◌==◌, if◌then◌else◌, arith,
}
use wai_bindgen.Runtime.Store.{ok, Poll, ready, pending, update}
use wai_bindgen.Runtime.Task.{FutureState, Runtime, subtask_drop, frees, log_effect}
use wai_bindgen.Runtime.Task.Callback.{is_operation_event, poll, deliver, settle, callback}

module _ {Tasks Task : Type 0}
    (poll_next : Tasks
      → Runtime Tasks Task
      → Poll (Option (Unit {0})) × (Tasks × Runtime Tasks Task))
    (extend : Tasks → List Task → Tasks) where
  -- An event that ends a call or an operation takes one from the count of its task, whatever the
  -- poll of the task did; the host is told that the task is done, and its state is freed, exactly
  -- where the poll was ready and the count is then 0.
  pub callback-counts :
      (fuel ctx event0 event1 event2 todo : ℕ) (r m : Runtime Tasks Task) (p : Poll (Unit {0}))
      (s : FutureState Tasks)
      → (event0 ≡ 3) ⊎ ((5 ≤ event0) × (event0 ≤ 8))
      → poll poll_next extend fuel ctx (deliver poll_next extend event1 event2 r) ≡ some (ok (p, m))
      → m.states ctx ≡ some (record s { todo = suc todo })
      → (code : ℕ) × ((r' : Runtime Tasks Task) × ((callback poll_next extend fuel ctx event0 event1
                event2 r
              ≡ some (ok (code, r')))
            × (((code ≡ 1) ↔ ((p ≡ ready tt) × (todo ≡ 0)))
                × (r'.states ctx ≡ (if code == 1 then none else some (record s { todo = todo }))))))
  unfolding callback settle is_operation_event log_effect
  callback-counts fuel ctx event0 event1 event2 todo r m pending s e polled at =
      let m' = if event0 == 3 then log_effect (subtask_drop event1) m else m in
      (
        0,
        (
          record m' { states = update m'.states ctx (some (record s { todo = todo })) },
          (
            ground arith,
            (((λ q. absurd (omega arith)), λ q. absurd (ground (arith, q.0))), ground arith),
          ),
        ),
      )
  callback-counts fuel ctx event0 event1 event2 zero r m (ready _) s e polled at =
      let m' = if event0 == 3 then log_effect (subtask_drop event1) m else m in
      (
        1,
        (
          log_effect (frees ctx) (record m' { states = update m'.states ctx none }),
          (ground arith, (((λ q. (refl, refl)), λ q. refl), ground arith)),
        ),
      )
  callback-counts fuel ctx event0 event1 event2 (suc todo) r m (ready _) s e polled at =
      let m' = if event0 == 3 then log_effect (subtask_drop event1) m else m in
      (
        0,
        (
          record m' { states = update m'.states ctx (some (record s { todo = suc todo })) },
          (
            ground arith,
            (((λ q. absurd (omega arith)), λ q. absurd (omega (arith, q.1))), ground arith),
          ),
        ),
      )
