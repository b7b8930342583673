-- ===== src/Runtime/Stream/Writer.antt =====
-- crates/guest-rust/rt/src/async_support/stream_support.rs: `StreamWriter` and `CancelWriteOnDrop`.
use wai_bindgen.Prelude.{ℕ, Bool, true, false, Option, none, some}
use wai_bindgen.Runtime.Store.{
  Poll, ready, pending, ErrorContext, Handle, local_open, local_ready, local_waiting, local_closed,
  read, write, write_closed_err, cancel_write, close_writable, send, M, pure, fail, ◌>>=◌, ◌>>◌,
  occupied, insert, replace, remove, note, drop_error_context,
}
use wai_bindgen.Runtime.Stream.{WriteFuture, local, host, StreamWriter}

module _ {V : Type 0} where
  -- `Drop for CancelWriteOnDrop`
  cancel_write_at : ℕ → Handle V → M V (Unit {0})
  cancel_write_at h (local_ready v w) = insert h local_open
  cancel_write_at h write = note (cancel_write h)
  cancel_write_at h _ = fail

  unfoldable pub cancel_write_on_drop : ℕ → M V (Unit {0})
  unfolding cancel_write_at
  cancel_write_on_drop h = occupied h (cancel_write_at h)

  -- `self.future = None`
  unfoldable pub drop_write_future : ℕ → Option (WriteFuture V) → M V (Unit {0})
  drop_write_future h none = pure tt
  drop_write_future h (some _) = cancel_write_on_drop h

  -- `StreamWriter::cancel`
  unfoldable pub cancel_writer : StreamWriter V → M V (StreamWriter V)
  cancel_writer w = elim w.future [
    | none ↦ fail
    | some f ↦ do drop_write_future w.handle w.future; pure (record w { future = none })
  ]

  -- The closure of `poll_fn`, at the state of the entry.
  poll_local_at : ℕ → ℕ → Option V → Handle V → M V (Poll (Unit {0}) × WriteFuture V)
  poll_local_at h waker (some item) local_open = do
    insert h (local_ready item waker)
    pure (pending, local none)
  poll_local_at h waker none local_open = pure (ready tt, local none)
  poll_local_at h waker item (local_ready v w) = pure (pending, local item)
  poll_local_at h waker item local_closed = pure (ready tt, local item)
  poll_local_at h waker item (write_closed_err e) = pure (ready tt, local item)
  poll_local_at h waker item _ = fail

  -- A poll of the writer's future; `finished` is the answer of the host's.
  unfoldable pub poll_write_future :
      ℕ → ℕ → Bool → WriteFuture V → M V (Poll (Unit {0}) × WriteFuture V)
  unfolding poll_local_at
  poll_write_future h waker finished (local item) = occupied h (poll_local_at h waker item)
  poll_write_future h waker true (host v) = pure (ready tt, host v)
  poll_write_future h waker false (host v) = pure (pending, host v)

  after_write_poll :
      StreamWriter V → Poll (Unit {0}) × WriteFuture V → Poll (Unit {0}) × StreamWriter V
  after_write_poll w (ready _, f) = (ready tt, record w { future = none })
  after_write_poll w (pending, f) = (pending, record w { future = some f })

  -- `poll_ready`, and with it `poll_flush` and `poll_close`
  unfoldable pub poll_ready : StreamWriter V → ℕ → Bool → M V (Poll (Unit {0}) × StreamWriter V)
  unfolding after_write_poll
  poll_ready w waker finished = elim w.future [
    | none ↦ pure (ready tt, w)
    | some f ↦ do r ← poll_write_future w.handle waker finished f; pure (after_write_poll w r)
  ]

  start_send_at : StreamWriter V → V → Handle V → M V (StreamWriter V)
  start_send_at w item local_open = pure (record w { future = some (local (some item)) })
  start_send_at w item (local_waiting tx) = do
    replace w.handle local_open
    note (send tx item)
    pure w
  start_send_at w item local_closed = pure w
  start_send_at w item (write_closed_err e) = pure w
  start_send_at w item write = pure (record w { future = some (host item) })
  start_send_at w item _ = fail

  unfoldable pub start_send : StreamWriter V → V → M V (StreamWriter V)
  unfolding start_send_at
  start_send w item = elim w.future [
    | none ↦ occupied w.handle (start_send_at w item)
    | some f ↦ fail
  ]

  drop_writer_at : ℕ → Handle V → M V (Unit {0})
  drop_writer_at h local_open = insert h local_closed
  drop_writer_at h (local_waiting tx) = insert h local_closed
  drop_writer_at h (local_ready v w) = insert h local_closed
  drop_writer_at h read = fail
  drop_writer_at h write = do remove h; note (close_writable h 0)
  drop_writer_at h local_closed = do remove h; note (close_writable h 0)
  drop_writer_at h (write_closed_err none) = do remove h; note (close_writable h 0)
  drop_writer_at h (write_closed_err (some e)) = do
    remove h
    note (close_writable h e)
    drop_error_context e

  -- `Drop for StreamWriter`
  unfoldable pub drop_writer : StreamWriter V → M V (Unit {0})
  unfolding drop_writer_at
  drop_writer w = do
    drop_write_future w.handle w.future
    occupied w.handle (drop_writer_at w.handle)

  -- `StreamWriter::close_with_error`; the writer is dropped at the end.
  unfoldable pub close_with_error : StreamWriter V → ErrorContext → M V (Unit {0})
  close_with_error w e = do
    occupied w.handle (λ _. insert w.handle (write_closed_err (some e)))
    drop_writer w
