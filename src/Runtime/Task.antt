-- ===== src/Runtime/Task.antt =====
-- crates/guest-rust/rt/src/async_support.rs: tasks, the calls that they await, and the events of
-- the host. The set of futures of a task is a `FuturesUnordered`, of the `futures` crate: its type
-- `Tasks`, what one poll of it does, and `extend` are parameters. An `i32` key of `CALLS` is given
-- by the `u32` with the same bits.
pub mod Callback
pub mod Polling
pub mod Fuel
pub mod Events
pub mod Codes
use wai_bindgen.Prelude.{
  ℕ, ◌+◌, ◌-◌, ◌/◌, ◌%◌, Bool, true, false, not, Option, none, some, List, ◌∷◌, ◌==◌, ◌⊎◌, inl, inr,
  if◌then◌else◌,
}
use wai_bindgen.Runtime.Store.{Outcome, ok, panic, update}

pub record FutureState (Tasks : Type 0) : Type 0 where
  pub todo : ℕ
  pub tasks : Option Tasks

pub data TaskEffect : Type 0 where
  dealloc subtask_drop : ℕ → TaskEffect
  wakes : ℕ → ℕ → TaskEffect
  frees : ℕ → TaskEffect

-- The statics `CURRENT`, `CALLS` and `SPAWNED`, the states in the heap by their addresses, and what
-- is done outside of them, latest first.
pub record Runtime (Tasks Task : Type 0) : Type 0 where
  pub current : Option ℕ
  pub calls : ℕ → Option ℕ
  pub spawned : List Task
  pub states : ℕ → Option (FutureState Tasks)
  pub log : List TaskEffect
  pub next_sender : ℕ

-- `AsyncWaitResult`
pub data AsyncWaitResult : Type 0 where
  values error : ℕ → AsyncWaitResult
  end : AsyncWaitResult

abbrev pub status_starting : ℕ
status_starting = 0

abbrev pub status_started : ℕ
status_started = 1

abbrev pub status_returned : ℕ
status_returned = 2

abbrev pub status_done : ℕ
status_done = 3

-- `mod results`
abbrev pub blocked : ℕ
blocked = 4294967295

abbrev pub closed : ℕ
closed = 2147483648

abbrev pub canceled : ℕ
canceled = 0

-- `result >> 30` and `result & !(0b11 << 30)`
unfoldable pub status_of : ℕ → ℕ
status_of result = result / 1073741824

unfoldable pub call_of : ℕ → ℕ
call_of result = result % 1073741824

-- `v & results::CLOSED != 0`
has_closed_bit : ℕ → Bool
has_closed_bit v = not (v / 2147483648 % 2 == 0)

-- `v & !results::CLOSED`
without_closed_bit : ℕ → ℕ
without_closed_bit v = if has_closed_bit v then v - 2147483648 else v

unfoldable pub from_nonblocked_async_result : ℕ → AsyncWaitResult
unfolding has_closed_bit without_closed_bit
from_nonblocked_async_result v =
    if v == closed
    then end
    else if v == canceled
    then end
    else if has_closed_bit v
    then error (without_closed_bit v)
    else values v

-- How a blocked stream operation reads what the host sends; `usize` has at least 32 bits.
unfoldable pub from_blocked_stream_result : ℕ → AsyncWaitResult
from_blocked_stream_result v = if v == closed then end else if v == canceled then end else values v

-- What is awaited: nothing more, or a receiver, with whether the parameters are freed after it.
pub data Awaited : Type 0 where
  finished : Awaited
  waits : ℕ → Bool → Awaited

module _ {Tasks Task : Type 0} where
  -- `(*CURRENT).todo += 1`, after the assertion that there is a current task.
  unfoldable pub add_todo : Runtime Tasks Task → Outcome (Runtime Tasks Task)
  add_todo r = elim r.current [
    | none ↦ panic
    | some p ↦ elim (r.states p) [
      | none ↦ panic
      | some s ↦
          ok (record r { states = update r.states p (some (record s { todo = s.todo + 1 })) })
    ]
  ]

  -- `let (tx, rx) = oneshot::channel(); CALLS.insert(call, tx);`
  unfoldable pub insert_call : ℕ → Runtime Tasks Task → ℕ × Runtime Tasks Task
  insert_call call r = (
    r.next_sender,
    record r { calls = update r.calls call (some r.next_sender); next_sender = r.next_sender + 1 },
  )

  unfoldable pub log_effect : TaskEffect → Runtime Tasks Task → Runtime Tasks Task
  log_effect e r = record r { log = e ∷ r.log }

  -- The `match status` of `await_result`.
  await_status : ℕ → ℕ → ℕ → Runtime Tasks Task → Outcome (Awaited × Runtime Tasks Task)
  unfolding insert_call log_effect
  await_status params call status r =
      if status == status_starting
      then (let c = insert_call call r in ok (waits c.0 true, c.1))
      else if status == status_started
      then (let c = insert_call call (log_effect (dealloc params) r) in ok (waits c.0 false, c.1))
      else if status == status_returned
      then ok (finished, log_effect (dealloc params) r)
      else if status == status_done
      then ok (finished, log_effect (dealloc params) r)
      else panic

  -- `await_result` up to where it waits; `result` is what the import returns.
  unfoldable pub await_result : ℕ → ℕ → Runtime Tasks Task → Outcome (Awaited × Runtime Tasks Task)
  unfolding await_status add_todo
  await_result params result r =
      if status_of result == status_done
      then await_status params (call_of result) (status_of result) r
      else elim (add_todo r) [
        | panic ↦ panic
        | ok r' ↦ await_status params (call_of result) (status_of result) r'
      ]

  -- `await_result` from where it waits, by what the receiver gives.
  unfoldable pub resume_result :
      ℕ → Bool → Option ℕ → Runtime Tasks Task → Outcome (Runtime Tasks Task)
  resume_result params frees_params none r = panic
  resume_result params true (some v) r = ok (log_effect (dealloc params) r)
  resume_result params false (some v) r = ok r

  -- `await_future_result` and `await_stream_result` up to where they wait.
  unfoldable pub await_operation :
      ℕ → ℕ → Runtime Tasks Task → Outcome ((AsyncWaitResult ⊎ ℕ) × Runtime Tasks Task)
  await_operation handle result r =
      if result == blocked
      then elim (add_todo r) [
        | panic ↦ panic
        | ok r' ↦ (let c = insert_call handle r' in ok (inr c.0, c.1))
      ]
      else ok (inl (from_nonblocked_async_result result), r)
