-- ===== src/Runtime/Store.antt =====
-- crates/guest-rust/rt/src/async_support.rs: `Handle`, the map `HANDLES` of the open streams and
-- futures, and `with_entry`. What the operations do outside of the map is a log: calls of the host
-- through a vtable, wakers that are woken, and values that are sent on or dropped with a `oneshot`
-- channel. `V` stands for the type of the values that the writers box, which is not the type that the
-- readers downcast to.
use wai_bindgen.Prelude.{
  ℕ, ◌+◌, ◌≡◌, Option, none, some, List, [], ◌∷◌, ◌++◌, ◌==◌, if◌then◌else◌, arith,
}

-- A call that returns, or panics.
pub data Outcome (A : Type 0) : Type 0 where
  ok : A → Outcome A
  panic : Outcome A

-- `core::task::Poll`
pub data Poll (A : Type 0) : Type 0 where
  ready : A → Poll A
  pending : Poll A

-- `ErrorContext`, by its handle.
abbrev pub ErrorContext : Type 0
ErrorContext = ℕ

-- `Handle`; a waker and a sender are named by numbers.
pub data Handle (V : Type 0) : Type 0 where
  local_open : Handle V
  local_ready : V → ℕ → Handle V
  local_waiting : ℕ → Handle V
  local_closed read write : Handle V
  write_closed_err : Option ErrorContext → Handle V

-- What an operation does outside of the map.
pub data Effect (V : Type 0) : Type 0 where
  cancel_write cancel_read close_readable : ℕ → Effect V
  close_writable : ℕ → ErrorContext → Effect V
  wake : ℕ → Effect V
  send : ℕ → V → Effect V
  drop_sender : ℕ → Effect V
  error_drop : ErrorContext → Effect V

-- `HANDLES`, the log, latest first, and the number of the next channel.
pub record Store (V : Type 0) : Type 0 where
  pub entries : ℕ → Option (Handle V)
  pub log : List (Effect V)
  pub next_sender : ℕ

abbrev pub M : Type 0 → Type 0 → Type 0
M V A = Store V → Outcome (A × Store V)

-- The value sent on a channel.
abbrev pub sent : {V : Type 0} → List (Effect V) → ℕ → Option V
sent [] t = none
sent (send u v ∷ l) t = if u == t then some v else sent l t
sent (_ ∷ l) t = sent l t

abbrev pub update : {A : Type 0} → (ℕ → Option A) → ℕ → Option A → ℕ → Option A
update f h x j = if h == j then x else f j

pub update_self : {A : Type 0} (f : ℕ → Option A) (h : ℕ) (x : Option A) → update f h x h ≡ x
update_self f h x = ground arith

-- What is seen of an `ErrorContext` that is dropped.
abbrev pub drop_error : {V : Type 0} → ErrorContext → List (Effect V)
drop_error e = if e == 0 then [] else error_drop e ∷ []

-- What is seen of a `Handle` that is dropped.
abbrev pub drop_handle : {V : Type 0} → Option (Handle V) → List (Effect V)
drop_handle (some (local_waiting tx)) = drop_sender tx ∷ []
drop_handle (some (write_closed_err (some e))) = drop_error e
drop_handle _ = []

module _ {V : Type 0} where
  abbrev pub pure : {A : Type 0} → A → M V A
  pure a s = ok (a, s)

  abbrev pub fail : {A : Type 0} → M V A
  fail s = panic

  -- `*v.downcast().unwrap()`: the box holds a `V`, a `Vec<T>` or a `T`, and the type that is asked for
  -- is the `Result` of it, so that the downcast fails.
  abbrev pub downcast : {A : Type 0} → V → M V A
  downcast v = fail

  infixl 5 ◌>>=◌ ◌>>◌
  abbrev pub ◌>>=◌ : {A B : Type 0} → M V A → (A → M V B) → M V B
  ◌>>=◌ m f s = elim (m s) [ ok (a, s') ↦ f a s' | panic ↦ panic ]

  abbrev pub ◌>>◌ : {B : Type 0} → M V (Unit {0}) → M V B → M V B
  m >> k = m >>= λ _. k

  -- `with_entry(h, |entry| match entry { Vacant(_) => unreachable!(), Occupied(entry) => .. })`
  abbrev pub occupied : {A : Type 0} → ℕ → (Handle V → M V A) → M V A
  occupied h f s = elim (s.entries h) [ none ↦ panic | some x ↦ f x s ]

  -- `entry.insert(x);`, which drops what was there.
  abbrev pub insert : ℕ → Handle V → M V (Unit {0})
  insert h x s = ok (
    tt,
    record s { entries = update s.entries h (some x); log = drop_handle (s.entries h) ++ s.log },
  )

  -- `let .. = entry.insert(x)`, where what was there is moved out.
  abbrev pub replace : ℕ → Handle V → M V (Unit {0})
  replace h x s = ok (tt, record s { entries = update s.entries h (some x) })

  -- `entry.remove()`, where what was there is moved out.
  abbrev pub remove : ℕ → M V (Unit {0})
  remove h s = ok (tt, record s { entries = update s.entries h none })

  abbrev pub note : Effect V → M V (Unit {0})
  note e s = ok (tt, record s { log = e ∷ s.log })

  -- `oneshot::channel()`
  abbrev pub channel : M V ℕ
  channel s = ok (s.next_sender, record s { next_sender = s.next_sender + 1 })

  -- `drop(e)`, of an `ErrorContext`
  abbrev pub drop_error_context : ErrorContext → M V (Unit {0})
  drop_error_context e s = ok (tt, record s { log = drop_error e ++ s.log })
