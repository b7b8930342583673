-- ===== src/Runtime/Task/Codes.antt =====
-- What the host's results mean, and what is awaited for them.
use wai_bindgen.Prelude.{
  ℕ, ◌+◌, ◌≡◌, ◌≢◌, ◌<◌, ◌⊎◌, inl, inr, some, List, [], ◌∷◌, ◌==◌, if◌then◌else◌, arith,
}
use wai_bindgen.Runtime.Store.{Outcome, ok, panic, update}
use wai_bindgen.Runtime.Task.{
  FutureState, Runtime, TaskEffect, dealloc, AsyncWaitResult, values, error, end, blocked, closed,
  status_done, status_of, call_of, from_nonblocked_async_result, from_blocked_stream_result,
  Awaited, finished, waits, add_todo, insert_call, log_effect, await_result, resume_result,
}

-- The result that means a number of values, or an error.
unfoldable pub result_code : AsyncWaitResult → ℕ
result_code (values n) = n
result_code (error e) = 2147483648 + e
result_code end = closed

-- The results that the host can give: an error is not 0, and no result is `BLOCKED`.
unfoldable pub IsResult : AsyncWaitResult → Type 0
IsResult (values n) = (0 < n) × (n < 2147483648)
IsResult (error e) = (0 < e) × (e < 2147483647)
IsResult end = Unit

-- Every result that the host can give is told apart from `BLOCKED` and is read back as it was.
pub from_nonblocked_async_result-result_code :
    (x : AsyncWaitResult)
    → IsResult x
    → (from_nonblocked_async_result (result_code x) ≡ x) × (result_code x ≢ blocked)
unfolding from_nonblocked_async_result result_code IsResult
from_nonblocked_async_result-result_code (values n) (pos, le) =
    (ground arith, λ e. absurd (omega arith))
from_nonblocked_async_result-result_code (error e) (pos, le) =
    (ground arith, λ q. absurd (omega arith))
from_nonblocked_async_result-result_code end _ = (ground arith, λ q. absurd (omega arith))

-- Every error that a stream operation reports at once is read as that error; where the operation
-- has blocked first, the same code is read as a number of values above 2 ^ 31.
pub blocked-divergence :
    (e : ℕ)
    → 0 < e
    → e < 2147483647
    → (from_nonblocked_async_result (result_code (error e)) ≡ error e)
      × (from_blocked_stream_result (result_code (error e)) ≡ values (2147483648 + e))
unfolding from_blocked_stream_result result_code IsResult
blocked-divergence e pos le =
    ((from_nonblocked_async_result-result_code (error e) (pos, le)).0, ground arith)

-- How often a block of parameters is freed.
unfoldable pub deallocs : ℕ → List TaskEffect → ℕ
deallocs p [] = 0
deallocs p (dealloc q ∷ l) = (if p == q then 1 else 0) + deallocs p l
deallocs p (_ ∷ l) = deallocs p l

status_bound : (result : ℕ) → result < 4294967296 → status_of result < 4
unfolding status_of
status_bound result bound = omega arith

status_cases : (n : ℕ) → n < 4 → (n ≡ 0) ⊎ (n ≡ 1) ⊎ (n ≡ 2) ⊎ (n ≡ 3)
status_cases n lt = ground arith

module _ {Tasks Task : Type 0} where
  -- A wait that is over, with the number that the host sends.
  unfoldable pub complete :
      ℕ → ℕ → Outcome (Awaited × Runtime Tasks Task) → Outcome (Runtime Tasks Task)
  complete params v (ok (finished, r)) = ok r
  complete params v (ok (waits tx b, r)) = resume_result params b (some v) r
  complete params v panic = panic

  -- What a call of an import has done when its wait is over.
  abbrev FreesOnce : Runtime Tasks Task → ℕ → ℕ → ℕ → ℕ → FutureState Tasks → Type 0
  FreesOnce r params result v p s =
      (r' : Runtime Tasks Task) × ((complete params v (await_result params result r) ≡ ok r')
        × ((deallocs params r'.log ≡ 1 + deallocs params r.log)
            × (r'.states p
                ≡ some (record s {
                  todo = s.todo + (if status_of result == status_done then 0 else 1);
                }))))

  frees_at :
      (r : Runtime Tasks Task) (params result v p : ℕ) (s : FutureState Tasks)
      → (status_of result ≡ 0)
        ⊎ (status_of result ≡ 1)
        ⊎ (status_of result ≡ 2)
        ⊎ (status_of result ≡ 3)
      → r.current ≡ some p
      → r.states p ≡ some s
      → FreesOnce r params result v p s
  unfolding complete await_result resume_result deallocs add_todo insert_call log_effect
  frees_at r params result v p s (inl at) c e = (
    record r {
      calls = update r.calls (call_of result) (some r.next_sender);
      states = update r.states p (some (record s { todo = s.todo + 1 }));
      log = dealloc params ∷ r.log;
      next_sender = r.next_sender + 1;
    },
    (ground arith, (ground arith, ground arith)),
  )
  frees_at r params result v p s (inr (inl at)) c e = (
    record r {
      calls = update r.calls (call_of result) (some r.next_sender);
      states = update r.states p (some (record s { todo = s.todo + 1 }));
      log = dealloc params ∷ r.log;
      next_sender = r.next_sender + 1;
    },
    (ground arith, (ground arith, ground arith)),
  )
  frees_at r params result v p s (inr (inr (inl at))) c e = (
    record r {
      states = update r.states p (some (record s { todo = s.todo + 1 }));
      log = dealloc params ∷ r.log;
    },
    (ground arith, (ground arith, ground arith)),
  )
  frees_at r params result v p s (inr (inr (inr at))) c e =
      (record r { log = dealloc params ∷ r.log }, (ground arith, (ground arith, ground arith)))

  -- A call of an import from a current task does not panic, whatever 32-bit result the import gives:
  -- when its wait is over, its parameters have been freed once, and the task has one more call to
  -- hear of unless the import said that it was done.
  pub await_result-frees :
      (r : Runtime Tasks Task) (params result v p : ℕ) (s : FutureState Tasks)
      → result < 4294967296
      → r.current ≡ some p
      → r.states p ≡ some s
      → (r' : Runtime Tasks Task) × ((complete params v (await_result params result r) ≡ ok r')
          × ((deallocs params r'.log ≡ 1 + deallocs params r.log)
              × (r'.states p
                  ≡ some (record s {
                    todo = s.todo + (if status_of result == status_done then 0 else 1);
                  }))))
  await_result-frees r params result v p s bound c e =
      frees_at r params result v p s (status_cases (status_of result) (status_bound result bound)) c
        e
