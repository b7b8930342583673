-- ===== src/Runtime/Tests/Tasks.antt =====
-- The theorems about crates/guest-rust/rt/src/async_support.rs on concrete tasks.
use wai_bindgen.Prelude.{
  ℕ, zero, suc, length-append, ◌+◌, ◌≡◌, ◌≢◌, ◌≤◌, ◌↔◌, inl, refl, Option, none, some, List, [],
  ◌∷◌, ◌++◌, ◌==◌, if◌then◌else◌, length, arith,
}
use wai_bindgen.Runtime.Store.{ok, Poll, ready}
use wai_bindgen.Runtime.Store.{update}
use wai_bindgen.Runtime.Task.{
  FutureState, Runtime, wakes, error, values, blocked, from_nonblocked_async_result,
  from_blocked_stream_result, await_result, status_of, status_done,
}
use wai_bindgen.Runtime.Task.Codes.{
  result_code, IsResult, from_nonblocked_async_result-result_code, blocked-divergence, deallocs,
  complete, await_result-frees,
}
use wai_bindgen.Runtime.Task.Callback.{poll, callback, deliver, turn}
use wai_bindgen.Runtime.Task.Fuel.{IsTaskSet, total, poll-terminates}
use wai_bindgen.Runtime.Task.Events.{callback-counts}

from_nonblocked_async_result-result_code_example :
    (from_nonblocked_async_result (result_code (error 9)) ≡ error 9)
    × (result_code (error 9) ≢ blocked)
unfolding IsResult
from_nonblocked_async_result-result_code_example =
    from_nonblocked_async_result-result_code (error 9) (omega arith, omega arith)

blocked-divergence_example :
    (from_nonblocked_async_result (result_code (error 9)) ≡ error 9)
    × (from_blocked_stream_result (result_code (error 9)) ≡ values 2147483657)
blocked-divergence_example = blocked-divergence 9 (omega arith) (omega arith)

-- A task set that is the list of its futures, each of which completes when it is polled.
abbrev poll_first :
    List ℕ → Runtime (List ℕ) ℕ → Poll (Option (Unit {0})) × (List ℕ × Runtime (List ℕ) ℕ)
poll_first [] r = (ready none, ([], record r { spawned = [] }))
poll_first (f ∷ fs) r = (ready (some tt), (fs, record r { spawned = [] }))

abbrev add_all : List ℕ → List ℕ → List ℕ
add_all fs ts = fs ++ ts

abbrev state : FutureState (List ℕ)
state = record { todo = 1; tasks = some (4 ∷ 6 ∷ []) }

abbrev runtime : Runtime (List ℕ) ℕ
runtime = record {
  current = some 1;
  calls = λ j. if 8 == j then some 0 else none;
  spawned = [];
  states = λ j. if 1 == j then some state else none;
  log = [];
  next_sender = 1;
}

await_result-frees_example :
    (r : Runtime (List ℕ) ℕ) × ((complete 64 0 (await_result 64 1073741833 runtime) ≡ ok r)
      × ((deallocs 64 r.log ≡ 1 + deallocs 64 runtime.log)
          × (r.states 1
              ≡ some (record state {
                todo = 1 + (if status_of 1073741833 == status_done then 0 else 1);
              }))))
await_result-frees_example =
    await_result-frees runtime 64 1073741833 0 1 state (omega arith) refl refl

-- A task set whose tasks are numbers: a task completes when it is polled, and spawns the number below
-- its own.
abbrev spawned_by : List ℕ → Runtime (List ℕ) ℕ → List ℕ
spawned_by [] r = []
spawned_by (zero ∷ fs) r = []
spawned_by (suc k ∷ fs) r = k ∷ []

abbrev poll_spawning :
    List ℕ → Runtime (List ℕ) ℕ → Poll (Option (Unit {0})) × (List ℕ × Runtime (List ℕ) ℕ)
poll_spawning [] r = (ready none, ([], record r { spawned = r.spawned ++ [] }))
poll_spawning (k ∷ fs) r =
    (ready (some tt), (fs, record r { spawned = r.spawned ++ spawned_by (k ∷ fs) r }))

abbrev number : ℕ → ℕ
number k = k

total-add_all : (f l : List ℕ) → total number (add_all f l) ≡ total number f + total number l
total-add_all [] l = omega arith
total-add_all (x ∷ f) l = omega (arith, total-add_all f l)

spawning_completes :
    (f : List ℕ) (r : Runtime (List ℕ) ℕ)
    → (poll_spawning f r).0 ≡ ready (some tt)
    → length (poll_spawning f r).1.0 + 1 ≡ length f
spawning_completes [] r e = absurd (ground arith)
spawning_completes (k ∷ f) r e = omega arith

spawning_keeps :
    (f : List ℕ) (r : Runtime (List ℕ) ℕ)
    → (poll_spawning f r).0 ≢ ready (some tt)
    → length (poll_spawning f r).1.0 ≡ length f
spawning_keeps [] r e = refl
spawning_keeps (k ∷ f) r e = absurd (e refl)

spawning_appends :
    (f : List ℕ) (r : Runtime (List ℕ) ℕ)
    → (poll_spawning f r).1.1.spawned ≡ r.spawned ++ spawned_by f r
spawning_appends [] r = refl
spawning_appends (k ∷ f) r = refl

spawning_finite :
    (f : List ℕ) (r : Runtime (List ℕ) ℕ)
    → total number (poll_spawning f r).1.0
        + (length (spawned_by f r) + total number (spawned_by f r))
      ≤ total number f
spawning_finite [] r = omega arith
spawning_finite (zero ∷ f) r = omega arith
spawning_finite (suc k ∷ f) r = omega arith

spawning-IsTaskSet : IsTaskSet poll_spawning add_all length (total number) number spawned_by
spawning-IsTaskSet = record {
  completes = spawning_completes;
  keeps = spawning_keeps;
  extend_size = λ f l. length-append f l;
  appends = spawning_appends;
  extend_spawns = total-add_all;
  finite = spawning_finite;
}

abbrev spawning_state : FutureState (List ℕ)
spawning_state = record { todo = 1; tasks = some (2 ∷ 0 ∷ []) }

-- One task waits in `SPAWNED`.
abbrev spawning_runtime : Runtime (List ℕ) ℕ
spawning_runtime = record runtime {
  spawned = 1 ∷ [];
  states = λ j. if 1 == j then some spawning_state else none;
}

poll-terminates_example : poll poll_spawning add_all 11 1 spawning_runtime ≢ none
poll-terminates_example =
    poll-terminates poll_spawning add_all length (total number) number spawned_by spawning-IsTaskSet
      11 1 spawning_runtime spawning_state (2 ∷ 0 ∷ []) refl refl (omega arith)

abbrev step_state : Option (List ℕ) → Option (FutureState (List ℕ))
step_state t = some (record { todo = 1; tasks = t })

-- What the poll after the event leaves.
abbrev polled : Runtime (List ℕ) ℕ
polled = record runtime {
  calls = update runtime.calls 8 none;
  states =
      update
        (update (update runtime.states 1 (step_state (some (6 ∷ [])))) 1 (step_state (some []))) 1
        (step_state none);
  log = wakes 0 0 ∷ [];
}

abbrev is_done : Poll (Unit {0})
is_done = ready tt

abbrev no_calls : ℕ
no_calls = 0

callback-counts_example :
    (code : ℕ) × ((r : Runtime (List ℕ) ℕ) × ((callback poll_first add_all 4 1 3 8 0 runtime
          ≡ some (ok (code, r)))
        × (((code ≡ 1) ↔ ((is_done ≡ ready tt) × (no_calls ≡ 0)))
            × (r.states 1
                ≡ (if code == 1 then none else some (record { todo = 0; tasks = none }))))))
unfolding poll deliver turn
callback-counts_example =
    callback-counts poll_first add_all 4 1 3 8 0 0 runtime polled is_done
      (record { todo = 1; tasks = none }) (inl refl) refl refl
