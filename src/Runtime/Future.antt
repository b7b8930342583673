-- ===== src/Runtime/Future.antt =====
-- crates/guest-rust/rt/src/async_support/future_support.rs: the writable end of a future, and
-- writes, which can be cancelled; Reader has the other end. As for streams, what the boxed Rust
-- futures capture is data, and the host's futures and the receiving ends of channels answer by an
-- argument. A `FutureWriter` and a `FutureReader` are their handles.
pub mod Reader
pub mod Transfer
pub mod Local
use wai_bindgen.Prelude.{ℕ, Bool, true, false, Option, none, some}
use wai_bindgen.Runtime.Store.{
  Poll, ready, pending, ErrorContext, Handle, local_open, local_ready, local_waiting, local_closed,
  read, write, write_closed_err, cancel_write, close_writable, send, M, pure, fail, ◌>>=◌, ◌>>◌,
  occupied, insert, replace, remove, note, drop_error_context,
}

-- The future of a write; a future that has completed is not polled again.
pub data WriteTask (V : Type 0) : Type 0 where
  local : Option V → WriteTask V
  immediate : WriteTask V
  host : V → WriteTask V
  spent : WriteTask V

pub record CancelableWrite (V : Type 0) : Type 0 where
  pub writer : Option ℕ
  pub future : WriteTask V

module _ {V : Type 0} where
  drop_future_writer_at : ℕ → Handle V → M V (Unit {0})
  drop_future_writer_at h local_open = insert h local_closed
  drop_future_writer_at h (local_waiting tx) = insert h local_closed
  drop_future_writer_at h (local_ready v w) = insert h local_closed
  drop_future_writer_at h read = fail
  drop_future_writer_at h write = do remove h; note (close_writable h 0)
  drop_future_writer_at h local_closed = do remove h; note (close_writable h 0)
  drop_future_writer_at h (write_closed_err none) = do remove h; note (close_writable h 0)
  drop_future_writer_at h (write_closed_err (some e)) = do
    remove h
    note (close_writable h e)
    drop_error_context e

  -- `Drop for FutureWriter`
  unfoldable pub drop_future_writer : ℕ → M V (Unit {0})
  unfolding drop_future_writer_at
  drop_future_writer h = occupied h (drop_future_writer_at h)

  -- `FutureWriter::close_with_error`
  unfoldable pub close_future_with_error : ℕ → ErrorContext → M V (Unit {0})
  close_future_with_error h e = occupied h (λ _. insert h (write_closed_err (some e)))

  start_write_at : ℕ → V → Handle V → M V (WriteTask V)
  start_write_at h v local_open = pure (local (some v))
  start_write_at h v (local_waiting tx) = do
    replace h local_closed
    note (send tx v)
    pure immediate
  start_write_at h v local_closed = pure immediate
  start_write_at h v (write_closed_err e) = pure immediate
  start_write_at h v read = fail
  start_write_at h v (local_ready u w) = fail
  start_write_at h v write = pure (host v)

  -- `FutureWriter::write`
  unfoldable pub start_write : ℕ → V → M V (CancelableWrite V)
  unfolding start_write_at
  start_write h v = do
    f ← occupied h (start_write_at h v)
    pure (record { writer = some h; future = f })

  -- The closure of `poll_fn`, at the state of the entry.
  poll_write_task_at : ℕ → ℕ → Option V → Handle V → M V (Poll (Unit {0}) × WriteTask V)
  poll_write_task_at h waker (some v) local_open = do
    insert h (local_ready v waker)
    pure (pending, local none)
  poll_write_task_at h waker none local_open = fail
  poll_write_task_at h waker v (local_ready u w) = pure (pending, local v)
  poll_write_task_at h waker v local_closed = pure (ready tt, local v)
  poll_write_task_at h waker v (write_closed_err e) = pure (ready tt, local v)
  poll_write_task_at h waker v _ = fail

  -- A poll of the future; `finished` is the answer of the host's.
  poll_write_task : ℕ → ℕ → Bool → WriteTask V → M V (Poll (Unit {0}) × WriteTask V)
  unfolding poll_write_task_at
  poll_write_task h waker finished (local v) = occupied h (poll_write_task_at h waker v)
  poll_write_task h waker finished immediate = pure (ready tt, spent)
  poll_write_task h waker true (host v) = pure (ready tt, spent)
  poll_write_task h waker false (host v) = pure (pending, host v)
  poll_write_task h waker finished spent = fail

  -- `self.writer = None`
  drop_writer_of : Option ℕ → M V (Unit {0})
  unfolding drop_future_writer
  drop_writer_of none = pure tt
  drop_writer_of (some h) = drop_future_writer h

  after_write_task :
      CancelableWrite V → Poll (Unit {0}) × WriteTask V → M V (Poll (Unit {0}) × CancelableWrite V)
  unfolding drop_writer_of
  after_write_task c (ready _, f) = do
    drop_writer_of c.writer
    pure (ready tt, record { writer = none; future = f })
  after_write_task c (pending, f) = pure (pending, record c { future = f })

  -- `CancelableWrite::poll`; `h` is the handle that the future captures.
  unfoldable pub poll_write :
      ℕ → CancelableWrite V → ℕ → Bool → M V (Poll (Unit {0}) × CancelableWrite V)
  unfolding poll_write_task after_write_task
  poll_write h c waker finished = do
    r ← poll_write_task h waker finished c.future
    after_write_task c r

  cancel_mut_write_at : ℕ → Handle V → M V (Unit {0})
  cancel_mut_write_at h (local_ready v w) = insert h local_open
  cancel_mut_write_at h write = note (cancel_write h)
  cancel_mut_write_at h _ = fail

  -- `CancelableWrite::cancel_mut`
  unfoldable pub cancel_mut_write : CancelableWrite V → M V ℕ
  unfolding cancel_mut_write_at
  cancel_mut_write c = elim c.writer [
    | none ↦ fail
    | some h ↦ do occupied h (cancel_mut_write_at h); pure h
  ]

  -- `Drop for CancelableWrite`, which drops the writer that `cancel_mut` returns.
  unfoldable pub drop_cancelable_write : CancelableWrite V → M V (Unit {0})
  drop_cancelable_write c = elim c.writer [
    | none ↦ pure tt
    | some h ↦ do w ← cancel_mut_write c; drop_future_writer w
  ]
