-- ===== src/Runtime/Task/Fuel.antt =====
-- The loop of `poll` returns.
use wai_bindgen.Prelude.{
  ℕ, zero, suc, ◌+◌, ◌*◌, ◌≡◌, ◌≢◌, ◌<◌, ◌≤◌, ◌++◌, length, length-append, refl, sym, ap, ◌∙◌,
  Option, none, some, List, [], ◌∷◌, arith,
}
use wai_bindgen.Runtime.Store.{Outcome, ok, panic, Poll, ready, pending}
use wai_bindgen.Runtime.Task.{FutureState, Runtime}
use wai_bindgen.Runtime.Task.Callback.{Turn, again, breaks, poll_current, put_tasks, turn, poll}

-- The sum over a list.
abbrev pub total : {A : Type 0} → (A → ℕ) → List A → ℕ
total f [] = 0
total f (x ∷ l) = f x + total f l

total-append : {A : Type 0} (f : A → ℕ) (l m : List A) → total f (l ++ m) ≡ total f l + total f m
total-append f [] m = omega arith
total-append f (x ∷ l) m = omega (arith, total-append f l m)

tasks_of : {Tasks : Type 0} → Option (FutureState Tasks) → Option Tasks
tasks_of none = none
tasks_of (some s) = s.tasks

module _ {Tasks Task : Type 0}
    (poll_next : Tasks
      → Runtime Tasks Task
      → Poll (Option (Unit {0})) × (Tasks × Runtime Tasks Task))
    (extend : Tasks → List Task → Tasks) where
  again-tasks :
      (state : ℕ) (r m : Runtime Tasks Task)
      → turn poll_next extend state r ≡ ok (again m)
      → (m.states state ≢ none)
        × ((s : FutureState Tasks) → m.states state ≡ some s → s.tasks ≢ none)
  unfolding turn put_tasks poll_current
  again-tasks state r m e = ((λ q. ground arith), λ s at q. ground arith)

  -- A task set with `size` futures, as `futures` documents it: a poll that gives a completed future
  -- removes it, and no other poll changes their number; `extend` adds what it is given. `new` is
  -- what a poll spawns. The futures of a set are to spawn at most `spawns` tasks in all, where those
  -- that a spawned task spawns in turn (`spawns_of`) count.
  pub record IsTaskSet (size spawns : Tasks → ℕ) (spawns_of : Task → ℕ)
      (new : Tasks → Runtime Tasks Task → List Task) : Type 0 where
    pub completes :
        (f : Tasks) (r : Runtime Tasks Task)
        → (poll_next f r).0 ≡ ready (some tt)
        → size (poll_next f r).1.0 + 1 ≡ size f
    pub keeps :
        (f : Tasks) (r : Runtime Tasks Task)
        → (poll_next f r).0 ≢ ready (some tt)
        → size (poll_next f r).1.0 ≡ size f
    pub extend_size : (f : Tasks) (l : List Task) → size (extend f l) ≡ size f + length l
    pub appends :
        (f : Tasks) (r : Runtime Tasks Task) → (poll_next f r).1.1.spawned ≡ r.spawned ++ new f r
    pub extend_spawns :
        (f : Tasks) (l : List Task) → spawns (extend f l) ≡ spawns f + total spawns_of l
    pub finite :
        (f : Tasks) (r : Runtime Tasks Task)
        → spawns (poll_next f r).1.0 + (length (new f r) + total spawns_of (new f r)) ≤ spawns f

  -- A turn that goes on without new tasks has completed a future.
  again-completes :
      (state : ℕ) (r m : Runtime Tasks Task) (s s' : FutureState Tasks) (f f' : Tasks)
      → r.states state ≡ some s
      → s.tasks ≡ some f
      → turn poll_next extend state r ≡ ok (again m)
      → m.states state ≡ some s'
      → s'.tasks ≡ some f'
      → (poll_next f (record r { current = some state })).1.1.spawned ≡ []
      → ((poll_next f (record r { current = some state })).0 ≡ ready (some tt))
        × ((f' ≡ (poll_next f (record r { current = some state })).1.0) × (m.spawned ≡ []))
  unfolding turn put_tasks poll_current
  again-completes state r m s s' f f' at tasks e at' tasks' none_ =
      (ground arith, (ground arith, ground arith))

  -- A turn with new tasks has added them to the set.
  again-extends :
      (state : ℕ) (r m : Runtime Tasks Task) (s s' : FutureState Tasks) (f f' : Tasks) (t : Task)
      (ts : List Task)
      → r.states state ≡ some s
      → s.tasks ≡ some f
      → turn poll_next extend state r ≡ ok (again m)
      → m.states state ≡ some s'
      → s'.tasks ≡ some f'
      → (poll_next f (record r { current = some state })).1.1.spawned ≡ t ∷ ts
      → (f' ≡ extend (poll_next f (record r { current = some state })).1.0 (t ∷ ts))
        × (m.spawned ≡ [])
  unfolding turn put_tasks poll_current
  again-extends state r m s s' f f' t ts at tasks e at' tasks' some_ = (ground arith, ground arith)

  module _ (size spawns : Tasks → ℕ) (spawns_of : Task → ℕ)
      (new : Tasks → Runtime Tasks Task → List Task)
      (law : IsTaskSet size spawns spawns_of new) where
    -- What is left to do: two turns for each task that is still to be spawned or put in the set, and
    -- one for each future in the set.
    abbrev work : Tasks → List Task → ℕ
    work f spawned = 2 * (spawns f + (length spawned + total spawns_of spawned)) + size f

    size_bound :
        (f : Tasks) (r : Runtime Tasks Task) (p : Poll (Option (Unit {0})))
        → (poll_next f r).0 ≡ p
        → size (poll_next f r).1.0 ≤ size f
    size_bound f r (ready (some tt)) e = omega (arith, law.completes f r e)
    size_bound f r (ready none) e = omega (arith, law.keeps f r (ground (arith, e)))
    size_bound f r pending e = omega (arith, law.keeps f r (ground (arith, e)))

    again-work :
        (state : ℕ) (r m : Runtime Tasks Task) (s s' : FutureState Tasks) (f f' : Tasks)
        → r.states state ≡ some s
        → s.tasks ≡ some f
        → turn poll_next extend state r ≡ ok (again m)
        → m.states state ≡ some s'
        → s'.tasks ≡ some f'
        → (l : List Task) → (poll_next f (record r { current = some state })).1.1.spawned ≡ l
        → work f' m.spawned < work f r.spawned
    again-work state r m s s' f f' at tasks e at' tasks' [] none_ =
        let r' : Runtime Tasks Task = record r { current = some state } in
        let c = again-completes state r m s s' f f' at tasks e at' tasks' none_ in
        let fewer = law.completes f r' c.0 in
        let bound = law.finite f r' in rw (c.1.0, c.1.1) (omega (arith, fewer, bound))
    again-work state r m s s' f f' at tasks e at' tasks' (t ∷ ts) some_ =
        let r' : Runtime Tasks Task = record r { current = some state } in
        let c = again-extends state r m s s' f f' t ts at tasks e at' tasks' some_ in
        let g = (poll_next f r').1.0 in
        let drained : t ∷ ts ≡ r.spawned ++ new f r' = sym some_ ∙ law.appends f r' in
        rw (c.0, c.1)
          (omega (
            arith,
            law.extend_size g (t ∷ ts),
            law.extend_spawns g (t ∷ ts),
            law.finite f r',
            size_bound f r' (poll_next f r').0 refl,
            ap length drained,
            length-append r.spawned (new f r'),
            ap (total spawns_of) drained,
            total-append spawns_of r.spawned (new f r'),
          ))

    Returns : ℕ → Type 0
    Returns fuel =
        (state : ℕ) (r : Runtime Tasks Task) (s : FutureState Tasks) (f : Tasks)
        → r.states state ≡ some s
        → s.tasks ≡ some f
        → work f r.spawned < fuel
        → poll poll_next extend fuel state r ≢ none

    -- The rest of the loop, at the state of the task.
    continues :
        (fuel : ℕ)
        → Returns fuel
        → (state : ℕ) (r m : Runtime Tasks Task) (s : FutureState Tasks) (f : Tasks)
        → r.states state ≡ some s
        → s.tasks ≡ some f
        → work f r.spawned < suc fuel
        → turn poll_next extend state r ≡ ok (again m)
        → (x : Option (FutureState Tasks)) → m.states state ≡ x
        → (y : Option Tasks) → ((s' : FutureState Tasks) → x ≡ some s' → s'.tasks ≡ y)
        → poll poll_next extend fuel state m ≢ none
    unfolding Returns
    continues fuel ih state r m s f at tasks lt e none at' y of =
        absurd ((again-tasks state r m e).0 at')
    continues fuel ih state r m s f at tasks lt e (some s') at' none of =
        absurd ((again-tasks state r m e).1 s' at' (of s' refl))
    continues fuel ih state r m s f at tasks lt e (some s') at' (some f') of =
        let less =
          again-work state r m s s' f f' at tasks e at' (of s' refl)
            (poll_next f (record r { current = some state })).1.1.spawned refl in
        ih state m s' f' at' (of s' refl) (omega (arith, less, lt))

    Returns-by :
        (fuel : ℕ)
        → Returns fuel
        → (state : ℕ) (r : Runtime Tasks Task) (s : FutureState Tasks) (f : Tasks)
        → r.states state ≡ some s
        → s.tasks ≡ some f
        → work f r.spawned < suc fuel
        → (o : Outcome (Turn (Runtime Tasks Task))) → turn poll_next extend state r ≡ o
        → poll poll_next extend (suc fuel) state r ≢ none
    unfolding poll tasks_of
    Returns-by fuel ih state r s f at tasks lt panic e q = ground arith
    Returns-by fuel ih state r s f at tasks lt (ok (again m)) e q =
        continues fuel ih state r m s f at tasks lt e (m.states state) refl
          (tasks_of (m.states state)) (λ s' same. sym (ap tasks_of same)) (ground arith)
    Returns-by fuel ih state r s f at tasks lt (ok (breaks p m)) e q = ground arith

    returns : (fuel : ℕ) → Returns fuel
    unfolding Returns
    returns zero state r s f at tasks lt = absurd (omega arith)
    returns (suc fuel) state r s f at tasks lt =
        Returns-by fuel (returns fuel) state r s f at tasks lt (turn poll_next extend state r) refl

    -- For a task set as `futures` documents it, whose futures are to spawn finitely many tasks in
    -- all, the loop returns: within one turn for each future in the set, two for each task that is
    -- still to be spawned or that waits in `SPAWNED`, and one.
    pub poll-terminates :
        (fuel state : ℕ) (r : Runtime Tasks Task) (s : FutureState Tasks) (f : Tasks)
        → r.states state ≡ some s
        → s.tasks ≡ some f
        → 2 * (spawns f + (length r.spawned + total spawns_of r.spawned)) + size f < fuel
        → poll poll_next extend fuel state r ≢ none
    unfolding Returns
    poll-terminates fuel state r s f at tasks lt = returns fuel state r s f at tasks lt
