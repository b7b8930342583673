-- ===== src/Runtime/Future/Reader.antt =====
-- crates/guest-rust/rt/src/async_support/future_support.rs: the readable end of a future, and reads,
-- which can be cancelled.
use wai_bindgen.Prelude.{ℕ, Option, none, some, ◌==◌, if◌then◌else◌}
use wai_bindgen.Runtime.Store.{
  Poll, ready, pending, Handle, local_open, local_ready, local_waiting, local_closed, read, write,
  write_closed_err, cancel_read, close_readable, wake, M, pure, fail, ◌>>=◌, ◌>>◌, occupied, insert,
  replace, remove, note, channel, downcast,
}
use wai_bindgen.Runtime.Stream.{Item, error, Answer, taken_handle}

-- The future of a read.
pub data ReadTask (V : Type 0) : Type 0 where
  host : ReadTask V
  waiting : ℕ → ReadTask V
  immediate : Option (Item V) → ReadTask V
  consumed : ReadTask V

pub record CancelableRead (V : Type 0) : Type 0 where
  pub reader : Option ℕ
  pub future : ReadTask V

module _ {V : Type 0} where
  future_from_handle_at : ℕ → Handle V → M V (Unit {0})
  future_from_handle_at h write = insert h local_open
  future_from_handle_at h _ = fail

  -- `FutureReader::from_handle_and_vtable`
  unfoldable pub future_from_handle : ℕ → M V ℕ
  unfolding future_from_handle_at
  future_from_handle h s = elim (s.entries h) [
    | none ↦ (do replace h read; pure h) s
    | some x ↦ (do future_from_handle_at h x; pure h) s
  ]

  take_future_handle_at : ℕ → Handle V → M V (Unit {0})
  take_future_handle_at h local_open = insert h write
  take_future_handle_at h read = remove h
  take_future_handle_at h local_closed = remove h
  take_future_handle_at h _ = fail

  -- `FutureReader::take_handle`, with the handle that it leaves.
  unfoldable pub take_future_handle : ℕ → M V (ℕ × ℕ)
  unfolding take_future_handle_at
  take_future_handle h = do occupied h (take_future_handle_at h); pure (h, taken_handle)

  into_future_at : ℕ → Handle V → M V (ReadTask V)
  into_future_at h read = pure host
  into_future_at h local_open = do tx ← channel; insert h (local_waiting tx); pure (waiting tx)
  into_future_at h local_closed = pure (immediate none)
  into_future_at h (write_closed_err none) = pure (immediate none)
  into_future_at h (write_closed_err (some e)) = do
    replace h (write_closed_err none)
    pure (immediate (some (error e)))
  into_future_at h (local_ready v w) = do
    replace h local_closed
    note (wake w)
    x ← downcast v
    pure (immediate (some x))
  into_future_at h _ = fail

  -- `FutureReader::into_future`
  unfoldable pub into_future : ℕ → M V (CancelableRead V)
  unfolding into_future_at
  into_future h = do
    f ← occupied h (into_future_at h)
    pure (record { reader = some h; future = f })

  drop_future_reader_at : ℕ → Handle V → M V (Unit {0})
  drop_future_reader_at h (local_ready v w) = do replace h local_closed; note (wake w)
  drop_future_reader_at h local_open = insert h local_closed
  drop_future_reader_at h (local_waiting tx) = insert h local_closed
  drop_future_reader_at h read = do remove h; note (close_readable h)
  drop_future_reader_at h local_closed = do remove h; note (close_readable h)
  drop_future_reader_at h _ = fail

  -- `Drop for FutureReader`
  unfoldable pub drop_future_reader : ℕ → M V (Unit {0})
  unfolding drop_future_reader_at
  drop_future_reader h = if h == taken_handle then pure tt else occupied h (drop_future_reader_at h)

  -- A poll of the future, by what the host's read and the receiver answer.
  poll_read_task : Answer V → ReadTask V → M V (Poll (Option (Item V)) × ReadTask V)
  poll_read_task a host = elim a.host_read [
    | ready x ↦ pure (ready x, consumed)
    | pending ↦ pure (pending, host)
  ]
  poll_read_task a (waiting tx) = elim a.received [
    | ready (some v) ↦ do x ← downcast v; pure (ready (some x), consumed)
    | ready none ↦ pure (ready none, consumed)
    | pending ↦ pure (pending, waiting tx)
  ]
  poll_read_task a (immediate x) = pure (ready x, consumed)
  poll_read_task a consumed = fail

  -- `self.reader = None`
  drop_reader_of : Option ℕ → M V (Unit {0})
  unfolding drop_future_reader
  drop_reader_of none = pure tt
  drop_reader_of (some h) = drop_future_reader h

  after_read_task :
      CancelableRead V
      → Poll (Option (Item V)) × ReadTask V
      → M V (Poll (Option (Item V)) × CancelableRead V)
  unfolding drop_reader_of
  after_read_task c (ready x, f) = do
    drop_reader_of c.reader
    pure (ready x, record { reader = none; future = f })
  after_read_task c (pending, f) = pure (pending, record c { future = f })

  -- `CancelableRead::poll`
  unfoldable pub poll_read :
      CancelableRead V → Answer V → M V (Poll (Option (Item V)) × CancelableRead V)
  unfolding poll_read_task after_read_task
  poll_read c a = do r ← poll_read_task a c.future; after_read_task c r

  cancel_mut_read_at : ℕ → Handle V → M V (Unit {0})
  cancel_mut_read_at h (local_waiting tx) = insert h local_open
  cancel_mut_read_at h read = note (cancel_read h)
  cancel_mut_read_at h _ = fail

  -- `CancelableRead::cancel_mut`
  unfoldable pub cancel_mut_read : CancelableRead V → M V ℕ
  unfolding cancel_mut_read_at
  cancel_mut_read c = elim c.reader [
    | none ↦ fail
    | some h ↦ do occupied h (cancel_mut_read_at h); pure h
  ]

  -- `Drop for CancelableRead`, which drops the reader that `cancel_mut` returns.
  unfoldable pub drop_cancelable_read : CancelableRead V → M V (Unit {0})
  drop_cancelable_read c = elim c.reader [
    | none ↦ pure tt
    | some h ↦ do r ← cancel_mut_read c; drop_future_reader r
  ]
