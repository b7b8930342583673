-- ===== src/Runtime/Stream/Reader.antt =====
-- crates/guest-rust/rt/src/async_support/stream_support.rs: `StreamReader` and `CancelReadOnDrop`.
use wai_bindgen.Prelude.{ℕ, Option, none, some, ◌==◌, if◌then◌else◌}
use wai_bindgen.Runtime.Store.{
  Poll, ready, pending, Handle, local_open, local_ready, local_waiting, local_closed, read, write,
  write_closed_err, cancel_read, close_readable, wake, M, pure, fail, ◌>>=◌, ◌>>◌, occupied, insert,
  replace, remove, note, channel, downcast,
}
use wai_bindgen.Runtime.Stream.{
  Item, error, ReadFuture, host, waiting, done, StreamReader, Answer, taken_handle,
}

module _ {V : Type 0} where
  -- `Drop for CancelReadOnDrop`
  cancel_read_at : ℕ → Handle V → M V (Unit {0})
  cancel_read_at h (local_waiting tx) = insert h local_open
  cancel_read_at h read = note (cancel_read h)
  cancel_read_at h _ = fail

  unfoldable pub cancel_read_on_drop : ℕ → M V (Unit {0})
  unfolding cancel_read_at
  cancel_read_on_drop h = occupied h (cancel_read_at h)

  -- `self.future = None`
  unfoldable pub drop_read_future : Option (ReadFuture V) → M V (Unit {0})
  drop_read_future none = pure tt
  drop_read_future (some (host h)) = cancel_read_on_drop h
  drop_read_future (some (waiting h tx)) = cancel_read_on_drop h
  drop_read_future (some (done r)) = pure tt

  -- `StreamReader::cancel`
  unfoldable pub cancel_reader : StreamReader V → M V (StreamReader V)
  cancel_reader r = elim r.future [
    | none ↦ fail
    | some f ↦ do drop_read_future r.future; pure (record r { future = none })
  ]

  from_handle_at : ℕ → Handle V → M V (Unit {0})
  from_handle_at h write = insert h local_open
  from_handle_at h _ = fail

  -- `StreamReader::from_handle_and_vtable`
  unfoldable pub from_handle : ℕ → M V (StreamReader V)
  unfolding from_handle_at
  from_handle h s = elim (s.entries h) [
    | none ↦ (do replace h read; pure (record { handle = h; future = none })) s
    | some x ↦ (do from_handle_at h x; pure (record { handle = h; future = none })) s
  ]

  take_handle_at : ℕ → Handle V → M V (Unit {0})
  take_handle_at h local_open = insert h write
  take_handle_at h read = remove h
  take_handle_at h local_closed = remove h
  take_handle_at h _ = fail

  -- `StreamReader::take_handle`
  unfoldable pub take_handle : StreamReader V → M V (ℕ × StreamReader V)
  unfolding take_handle_at
  take_handle r = do
    occupied r.handle (take_handle_at r.handle)
    pure (r.handle, record r { handle = taken_handle })

  -- The future that `poll_next` makes where there is none.
  read_future_at : ℕ → Handle V → M V (ReadFuture V)
  read_future_at h read = pure (host h)
  read_future_at h local_open = do tx ← channel; insert h (local_waiting tx); pure (waiting h tx)
  read_future_at h local_closed = pure (done none)
  read_future_at h (write_closed_err none) = pure (done none)
  read_future_at h (write_closed_err (some e)) = do
    replace h (write_closed_err none)
    pure (done (some (error e)))
  read_future_at h (local_ready v w) = do
    replace h local_open
    note (wake w)
    x ← downcast v
    pure (done (some x))
  read_future_at h _ = fail

  unfoldable pub read_future : StreamReader V → M V (ReadFuture V)
  unfolding read_future_at
  read_future r = elim r.future [
    | none ↦ occupied r.handle (read_future_at r.handle)
    | some f ↦ pure f
  ]

  poll_read_future : Answer V → ReadFuture V → M V (Poll (Option (Item V)))
  poll_read_future a (host h) = pure a.host_read
  poll_read_future a (waiting h tx) = elim a.received [
    | ready (some v) ↦ do x ← downcast v; pure (ready (some x))
    | ready none ↦ pure (ready none)
    | pending ↦ pure pending
  ]
  poll_read_future a (done r) = pure (ready r)

  after_read_poll :
      StreamReader V
      → ReadFuture V
      → Poll (Option (Item V))
      → Poll (Option (Item V)) × StreamReader V
  after_read_poll r f (ready x) = (ready x, record r { future = none })
  after_read_poll r f pending = (pending, record r { future = some f })

  -- `poll_next`
  unfoldable pub poll_next :
      StreamReader V → Answer V → M V (Poll (Option (Item V)) × StreamReader V)
  unfolding poll_read_future after_read_poll
  poll_next r a = do f ← read_future r; x ← poll_read_future a f; pure (after_read_poll r f x)

  drop_reader_at : ℕ → Handle V → M V (Unit {0})
  drop_reader_at h (local_ready v w) = do replace h local_closed; note (wake w)
  drop_reader_at h local_open = insert h local_closed
  drop_reader_at h (local_waiting tx) = insert h local_closed
  drop_reader_at h read = do remove h; note (close_readable h)
  drop_reader_at h local_closed = do remove h; note (close_readable h)
  drop_reader_at h _ = fail

  -- `Drop for StreamReader`
  unfoldable pub drop_reader : StreamReader V → M V (Unit {0})
  unfolding drop_reader_at
  drop_reader r = do
    drop_read_future r.future
    if r.handle == taken_handle then pure tt else occupied r.handle (drop_reader_at r.handle)
