-- ===== src/Runtime/Task/Callback.antt =====
-- crates/guest-rust/rt/src/async_support.rs: `poll` and `callback`. A state that has been freed is
-- a panic, and so is a `todo` that would go below 0 (a build with overflow checks).
use wai_bindgen.Prelude.{
  ℕ, zero, suc, ◌-◌, Bool, true, false, ◌&&◌, ◌||◌, Option, none, some, List, [], ◌∷◌, ◌++◌, ◌==◌,
  if◌then◌else◌,
}
use wai_bindgen.Runtime.Store.{Outcome, ok, panic, Poll, ready, pending, update}
use wai_bindgen.Runtime.Task.{FutureState, Runtime, subtask_drop, wakes, frees, log_effect}

abbrev pub event_call_started : ℕ
event_call_started = 1

abbrev pub event_call_returned : ℕ
event_call_returned = 2

abbrev pub event_call_done : ℕ
event_call_done = 3

-- `EVENT_STREAM_READ`, `EVENT_STREAM_WRITE`, `EVENT_FUTURE_READ` and `EVENT_FUTURE_WRITE`
unfoldable pub is_operation_event : ℕ → Bool
is_operation_event e = (e == 5) || (e == 6) || (e == 7) || (e == 8)

-- The ways one turn of the loop of `poll` ends.
pub data Turn (R : Type 0) : Type 0 where
  again : R → Turn R
  breaks : Poll (Unit {0}) → R → Turn R

module _ {Tasks Task : Type 0}
    (poll_next : Tasks
      → Runtime Tasks Task
      → Poll (Option (Unit {0})) × (Tasks × Runtime Tasks Task))
    (extend : Tasks → List Task → Tasks) where
  -- `futures.poll_next_unpin(..)` with `CURRENT` set around it.
  unfoldable pub poll_current :
      ℕ → Tasks → Runtime Tasks Task → Poll (Option (Unit {0})) × (Tasks × Runtime Tasks Task)
  poll_current state futures r =
      let q = poll_next futures (record r { current = some state }) in
      (q.0, (q.1.0, record q.1.1 { current = r.current }))

  -- What the loop leaves in `(*state).tasks`.
  unfoldable pub put_tasks : ℕ → Option Tasks → Runtime Tasks Task → Outcome (Runtime Tasks Task)
  put_tasks state t r = elim (r.states state) [
    | none ↦ panic
    | some s ↦ ok (record r { states = update r.states state (some (record s { tasks = t })) })
  ]

  turn_by :
      ℕ
      → Poll (Option (Unit {0}))
      → Tasks
      → List Task
      → Runtime Tasks Task
      → Outcome (Turn (Runtime Tasks Task))
  unfolding put_tasks
  turn_by state (ready (some _)) futures [] r = elim (put_tasks state (some futures) r) [
    | panic ↦ panic
    | ok r' ↦ ok (again r')
  ]
  turn_by state (ready none) futures [] r = elim (put_tasks state none r) [
    | panic ↦ panic
    | ok r' ↦ ok (breaks (ready tt) r')
  ]
  turn_by state pending futures [] r = elim (put_tasks state (some futures) r) [
    | panic ↦ panic
    | ok r' ↦ ok (breaks pending r')
  ]
  turn_by state p futures (t ∷ ts) r =
      elim (put_tasks state (some (extend futures (t ∷ ts))) (record r { spawned = [] })) [
        | panic ↦ panic
        | ok r' ↦ ok (again r')
      ]

  -- One turn of the loop.
  unfoldable pub turn : ℕ → Runtime Tasks Task → Outcome (Turn (Runtime Tasks Task))
  unfolding poll_current turn_by
  turn state r = elim (r.states state) [
    | none ↦ panic
    | some s ↦ elim s.tasks [
      | none ↦ ok (breaks (ready tt) r)
      | some futures ↦
          let q = poll_current state futures r in turn_by state q.0 q.1.0 q.1.1.spawned q.1.1
    ]
  ]

  -- `poll`, with at most `fuel` turns.
  unfoldable pub poll :
      ℕ → ℕ → Runtime Tasks Task → Option (Outcome (Poll (Unit {0}) × Runtime Tasks Task))
  poll zero state r = none
  poll (suc fuel) state r = elim (turn state r) [
    | panic ↦ some panic
    | ok t ↦ elim t [ again r' ↦ poll fuel state r' | breaks p r' ↦ some (ok (p, r')) ]
  ]

  -- `if let Some(call) = CALLS.remove(&event1) { _ = call.send(event2 as _); }`
  unfoldable pub deliver : ℕ → ℕ → Runtime Tasks Task → Runtime Tasks Task
  unfolding log_effect
  deliver event1 event2 r = elim (r.calls event1) [
    | none ↦ r
    | some tx ↦ log_effect (wakes tx event2) (record r { calls = update r.calls event1 none })
  ]

  is_ready : Poll (Unit {0}) → Bool
  is_ready (ready _) = true
  is_ready pending = false

  -- `(*state).todo -= 1` where the event is one of those that were counted.
  subtract_todo : Bool → FutureState Tasks → Outcome (FutureState Tasks)
  subtract_todo false s = ok s
  subtract_todo true s = if s.todo == 0 then panic else ok (record s { todo = s.todo - 1 })

  -- The rest of `callback`, after `poll`.
  unfoldable pub settle :
      ℕ → ℕ → ℕ → Poll (Unit {0}) × Runtime Tasks Task → Outcome (ℕ × Runtime Tasks Task)
  unfolding log_effect is_operation_event is_ready subtract_todo
  settle ctx event0 event1 (p, r) =
      let r' = if event0 == event_call_done then log_effect (subtask_drop event1) r else r in
      elim (r'.states ctx) [
        | none ↦ panic
        | some s ↦
            elim (subtract_todo ((event0 == event_call_done) || is_operation_event event0) s) [
              | panic ↦ panic
              | ok s' ↦
                  if is_ready p && (s'.todo == 0)
                  then ok
                      (1, log_effect (frees ctx) (record r' { states = update r'.states ctx none }))
                  else ok (0, record r' { states = update r'.states ctx (some s') })
            ]
      ]

  unfoldable pub callback :
      ℕ → ℕ → ℕ → ℕ → ℕ → Runtime Tasks Task → Option (Outcome (ℕ × Runtime Tasks Task))
  unfolding is_operation_event
  callback fuel ctx event0 event1 event2 r =
      let polled = poll fuel ctx (deliver event1 event2 r) in
      if event0 == event_call_started
      then some (ok (0, r))
      else if (event0 == event_call_returned)
          || (event0 == event_call_done)
          || is_operation_event event0
      then elim polled [
        | none ↦ none
        | some panic ↦ some panic
        | some (ok q) ↦ some (settle ctx event0 event1 q)
      ]
      else some panic

  -- `spawn`
  unfoldable pub spawn : Task → Runtime Tasks Task → Runtime Tasks Task
  spawn future r = record r { spawned = r.spawned ++ future ∷ [] }

  -- `first_poll` of a set of one future, with the address of the state that it makes; a null
  -- pointer is `none`.
  unfoldable pub first_poll :
      ℕ → ℕ → Tasks → Runtime Tasks Task → Option (Outcome (Option ℕ × Runtime Tasks Task))
  first_poll fuel state futures r =
      let made : FutureState Tasks = record { todo = 0; tasks = some futures } in
      elim (poll fuel state (record r { states = update r.states state (some made) })) [
        | none ↦ none
        | some panic ↦ some panic
        | some (ok (ready _, r')) ↦ some (ok (none, r'))
        | some (ok (pending, r')) ↦ some (ok (some state, r'))
      ]
