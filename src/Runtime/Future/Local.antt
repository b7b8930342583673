-- ===== src/Runtime/Future/Local.antt =====
-- A future with both ends in one component.
use wai_bindgen.Prelude.{ℕ, ◌+◌, ◌≡◌, refl, false, none, some, ◌∷◌, arith}
use wai_bindgen.Runtime.Store.{
  ok, panic, ready, pending, send, local_open, local_ready, local_waiting, local_closed,
  close_writable, Store, ◌>>=◌, update, update_self,
}
use wai_bindgen.Runtime.Stream.{Answer}
use wai_bindgen.Runtime.Future.{
  CancelableWrite, local, spent, immediate, start_write, poll_write, drop_future_writer,
}
use wai_bindgen.Runtime.Future.Reader.{CancelableRead, into_future, poll_read, waiting}

module _ {V : Type 0} where
  -- The write first: after its poll the value is on offer, and a read panics.
  pub record OffersFirst (s : Store V) (h waker : ℕ) (v : V) : Type 0 where
    pub write : CancelableWrite V
    pub store : Store V
    pub runs :
        (start_write h v >>= λ c. poll_write h c waker false) s ≡ ok ((pending, write), store)
    pub on_offer : store.entries h ≡ some (local_ready v waker)
    pub read_panics : into_future h store ≡ panic

  -- The read first: it waits, the write sends the value to it and completes at its poll; the poll of
  -- the read panics before the poll of the write, and after it.
  pub record WaitsFirst (s : Store V) (h waker : ℕ) (v : V) (a : Answer V) : Type 0 where
    pub read : CancelableRead V
    pub waits : Store V
    pub read_runs : into_future h s ≡ ok (read, waits)
    pub write : CancelableWrite V
    pub sends : Store V
    pub write_runs : start_write h v waits ≡ ok (write, sends)
    pub sent_log : sends.log ≡ send s.next_sender v ∷ s.log
    pub read_panics : poll_read read a sends ≡ panic
    pub written : CancelableWrite V
    pub done : Store V
    pub completes : poll_write h write waker false sends ≡ ok ((ready tt, written), done)
    pub removed : done.entries h ≡ none
    pub done_log : done.log ≡ close_writable h 0 ∷ send s.next_sender v ∷ s.log
    pub read_panics_after : poll_read read a done ≡ panic

  offers_lem :
      (s : Store V) (h waker : ℕ) (v : V) → s.entries h ≡ some local_open → OffersFirst s h waker v
  unfolding start_write poll_write into_future
  offers_lem s h waker v e = record {
    write = record { writer = some h; future = local none };
    store = record s { entries = update s.entries h (some (local_ready v waker)) };
    runs = ground arith;
    on_offer = update_self s.entries h _;
    read_panics = ground arith;
  }

  waits_lem :
      (s : Store V) (h waker : ℕ) (v : V) (a : Answer V)
      → s.entries h ≡ some local_open
      → a.received ≡ ready (some v)
      → WaitsFirst s h waker v a
  unfolding start_write poll_write into_future poll_read drop_future_writer
  waits_lem s h waker v a e answer =
      let entries = update s.entries h (some (local_waiting s.next_sender)) in
      let closed = update entries h (some local_closed) in
      record {
        read = record { reader = some h; future = waiting s.next_sender };
        waits = record s { entries = entries; next_sender = s.next_sender + 1 };
        read_runs = ground arith;
        write = record { writer = some h; future = immediate };
        sends = record {
          entries = closed;
          log = send s.next_sender v ∷ s.log;
          next_sender = s.next_sender + 1;
        };
        write_runs = ground arith;
        sent_log = refl;
        read_panics = ground arith;
        written = record { writer = none; future = spent };
        done = record {
          entries = update closed h none;
          log = close_writable h 0 ∷ send s.next_sender v ∷ s.log;
          next_sender = s.next_sender + 1;
        };
        completes = ground arith;
        removed = update_self closed h none;
        done_log = refl;
        read_panics_after = ground arith;
      }

  -- Within a component no value is read. Where the write is first, its poll puts the value on offer,
  -- and the read that finds it there panics as it starts. Where the read is first, the write sends
  -- the value on its channel; a poll of the read that hears it panics, before the write is polled
  -- and after that poll, which completes the write, removes the entry and calls the host once.
  pub transfer-panics :
      (s : Store V) (h waker : ℕ) (v : V) (a : Answer V)
      → s.entries h ≡ some local_open
      → a.received ≡ ready (some v)
      → OffersFirst s h waker v × WaitsFirst s h waker v a
  transfer-panics s h waker v a e answer =
      (offers_lem s h waker v e, waits_lem s h waker v a e answer)
