-- ===== src/Runtime/Stream/Writes.antt =====
-- What a send and a flush do to the two ends of a stream within a component.
use wai_bindgen.Prelude.{ℕ, ◌≡◌, refl, false, Option, none, some, List, [], ◌∷◌, ◌++◌, arith}
use wai_bindgen.Runtime.Store.{
  ok, Poll, ready, pending, local_open, local_ready, Store, update, update_self, send,
}
use wai_bindgen.Runtime.Stream.{WriteFuture, local, ReadFuture}
use wai_bindgen.Runtime.Stream.Writer.{poll_ready, poll_write_future, start_send}
use wai_bindgen.Runtime.Stream.Phases.{
  IsFresh, Phase, idle, queued, offered, awaiting, arrived, arrived_queued, arrived_offered,
  writer_at,
}

module _ {V : Type 0} where
  -- A send from a phase with no pending write.
  pub record Sends (h : ℕ) (s : Store V) (rf : Option (ReadFuture V)) (flight : List V) (v : V)
      : Type 0 where
    pub future : Option (WriteFuture V)
    pub store : Store V
    pub runs : start_send (writer_at h none) v s ≡ ok (writer_at h future, store)
    pub phase : Phase h store future rf (flight ++ v ∷ [])
    pub fresh : IsFresh store

  pub send-Sends :
      {h : ℕ} {s : Store V} {rf : Option (ReadFuture V)} {flight : List V} (v : V)
      → Phase h s none rf flight
      → IsFresh s
      → Sends h s rf flight v
  unfolding start_send
  send-Sends {s = s} v (idle e) n = record {
    future = some (local (some v));
    store = s;
    runs = ground arith;
    phase = queued v e;
    fresh = n;
  }
  send-Sends {h = h} {s = s} v (awaiting tx e m lt) n = record {
    future = none;
    store = record s { entries = update s.entries h (some local_open); log = send tx v ∷ s.log };
    runs = ground arith;
    phase = arrived tx v (update_self s.entries h _) (ground arith);
    fresh = λ t le. ground (arith, n t le, lt);
  }
  send-Sends {s = s} v (arrived tx u e m) n = record {
    future = some (local (some v));
    store = s;
    runs = ground arith;
    phase = arrived_queued tx u v e m;
    fresh = n;
  }

  pub record Flushes (h : ℕ) (s : Store V) (wf : Option (WriteFuture V))
      (rf : Option (ReadFuture V)) (flight : List V) (waker : ℕ) : Type 0 where
    pub future : Option (WriteFuture V)
    pub answer : Poll (Unit {0})
    pub store : Store V
    pub runs : poll_ready (writer_at h wf) waker false s ≡ ok ((answer, writer_at h future), store)
    pub phase : Phase h store future rf flight
    pub fresh : IsFresh store

  pub flush-Flushes :
      {h : ℕ} {s : Store V} {wf : Option (WriteFuture V)} {rf : Option (ReadFuture V)}
      {flight : List V} (waker : ℕ)
      → Phase h s wf rf flight
      → IsFresh s
      → Flushes h s wf rf flight waker
  unfolding poll_ready poll_write_future
  flush-Flushes {s = s} waker (idle e) n = record {
    future = none;
    answer = ready tt;
    store = s;
    runs = refl;
    phase = idle e;
    fresh = n;
  }
  flush-Flushes {s = s} waker (awaiting tx e m lt) n = record {
    future = none;
    answer = ready tt;
    store = s;
    runs = refl;
    phase = awaiting tx e m lt;
    fresh = n;
  }
  flush-Flushes {s = s} waker (arrived tx v e m) n = record {
    future = none;
    answer = ready tt;
    store = s;
    runs = refl;
    phase = arrived tx v e m;
    fresh = n;
  }
  flush-Flushes {h = h} {s = s} waker (queued v e) n = record {
    future = some (local none);
    answer = pending;
    store = record s { entries = update s.entries h (some (local_ready v waker)) };
    runs = ground arith;
    phase = offered v waker (update_self s.entries h _);
    fresh = n;
  }
  flush-Flushes {s = s} waker (offered v w e) n = record {
    future = some (local none);
    answer = pending;
    store = s;
    runs = ground arith;
    phase = offered v w e;
    fresh = n;
  }
  flush-Flushes {h = h} {s = s} waker (arrived_queued tx v u e m) n = record {
    future = some (local none);
    answer = pending;
    store = record s { entries = update s.entries h (some (local_ready u waker)) };
    runs = ground arith;
    phase = arrived_offered tx v u waker (update_self s.entries h _) m;
    fresh = n;
  }
  flush-Flushes {s = s} waker (arrived_offered tx v u w e m) n = record {
    future = some (local none);
    answer = pending;
    store = s;
    runs = ground arith;
    phase = arrived_offered tx v u w e m;
    fresh = n;
  }
