-- ===== src/Runtime/Task/Polling.antt =====
-- What `poll` answers, and what it leaves.
use wai_bindgen.Prelude.{ℕ, zero, suc, ◌≡◌, ◌≢◌, ◌↔◌, refl, ◌∙◌, Option, none, some, List, arith}
use wai_bindgen.Runtime.Store.{Outcome, ok, panic, Poll, ready}
use wai_bindgen.Runtime.Task.{FutureState, Runtime}
use wai_bindgen.Runtime.Task.Callback.{Turn, again, breaks, poll_current, put_tasks, turn, poll}

module _ {Tasks Task : Type 0}
    (poll_next : Tasks
      → Runtime Tasks Task
      → Poll (Option (Unit {0})) × (Tasks × Runtime Tasks Task))
    (extend : Tasks → List Task → Tasks) where
  again-current :
      (state : ℕ) (r r' : Runtime Tasks Task)
      → turn poll_next extend state r ≡ ok (again r')
      → r'.current ≡ r.current
  unfolding turn put_tasks poll_current
  again-current state r r' e = ground arith

  breaks-current :
      (state : ℕ) (r r' : Runtime Tasks Task) (p : Poll (Unit {0}))
      → turn poll_next extend state r ≡ ok (breaks p r')
      → r'.current ≡ r.current
  unfolding turn put_tasks poll_current
  breaks-current state r r' p e = ground arith

  breaks-answer :
      (state : ℕ) (r r' : Runtime Tasks Task) (p : Poll (Unit {0}))
      → turn poll_next extend state r ≡ ok (breaks p r')
      → (r'.states state ≢ none)
        × ((s : FutureState Tasks) → r'.states state ≡ some s → (p ≡ ready tt) ↔ (s.tasks ≡ none))
  unfolding turn put_tasks poll_current
  breaks-answer state r r' p e =
      ((λ q. ground arith), λ s at. ((λ q. ground arith), λ q. ground arith))

  Answers : ℕ → Runtime Tasks Task → Poll (Unit {0}) → Runtime Tasks Task → Type 0
  Answers state r p r' =
      (r'.current ≡ r.current)
      × ((r'.states state ≢ none)
          × ((s : FutureState Tasks)
              → r'.states state ≡ some s
              → (p ≡ ready tt) ↔ (s.tasks ≡ none)))

  Answers-by :
      (fuel state : ℕ) (r r' : Runtime Tasks Task) (p : Poll (Unit {0}))
      → ((m : Runtime Tasks Task)
          → poll poll_next extend fuel state m ≡ some (ok (p, r'))
          → Answers state m p r')
      → (o : Outcome (Turn (Runtime Tasks Task))) → turn poll_next extend state r ≡ o
      → poll poll_next extend (suc fuel) state r ≡ some (ok (p, r'))
      → Answers state r p r'
  unfolding poll Answers
  Answers-by fuel state r r' p ih panic q e = absurd (ground arith)
  Answers-by fuel state r r' p ih (ok (again m)) q e =
      let a = ih m (ground arith) in (a.0 ∙ again-current state r m q, a.1)
  Answers-by fuel state r r' p ih (ok (breaks u m)) q e =
      let same : turn poll_next extend state r ≡ ok (breaks p r') = ground arith in
      (breaks-current state r r' p same, breaks-answer state r r' p same)

  -- A poll that returns leaves the current task as it was, and is ready exactly where the task has
  -- no work left.
  pub poll-answers :
      (fuel state : ℕ) (r r' : Runtime Tasks Task) (p : Poll (Unit {0}))
      → poll poll_next extend fuel state r ≡ some (ok (p, r'))
      → (r'.current ≡ r.current)
        × ((r'.states state ≢ none)
            × ((s : FutureState Tasks)
                → r'.states state ≡ some s
                → (p ≡ ready tt) ↔ (s.tasks ≡ none)))
  unfolding poll Answers
  poll-answers zero state r r' p e = absurd (ground arith)
  poll-answers (suc fuel) state r r' p e =
      Answers-by fuel state r r' p (λ m. poll-answers fuel state m r' p)
        (turn poll_next extend state r) refl e
