-- ===== src/Runtime/Stream/Reads.antt =====
-- What a read does to the two ends of a stream within a component.
use wai_bindgen.Prelude.{ℕ, ◌+◌, ◌≡◌, refl, Bool, true, false, Option, none, some, List, arith}
use wai_bindgen.Runtime.Store.{ok, panic, pending, local_waiting, Store, update, update_self}
use wai_bindgen.Runtime.Stream.{WriteFuture, ReadFuture, waiting}
use wai_bindgen.Runtime.Stream.Reader.{poll_next, read_future}
use wai_bindgen.Runtime.Stream.Session.{receive, can_read, delivers_at}
use wai_bindgen.Runtime.Stream.Phases.{
  IsFresh, Phase, idle, queued, offered, awaiting, arrived, arrived_queued, arrived_offered,
  reader_at,
}

module _ {V : Type 0} where
  -- A poll that comes to no value waits, and leaves what is under way.
  pub record Reads (h : ℕ) (s : Store V) (wf : Option (WriteFuture V)) (rf : Option (ReadFuture V))
      (flight : List V) (hears : Bool) : Type 0 where
    pub future : Option (ReadFuture V)
    pub store : Store V
    pub runs :
        poll_next (reader_at h rf) (record { host_read = pending; received = receive s rf hears }) s
        ≡ ok ((pending, reader_at h future), store)
    pub phase : Phase h store wf future flight
    pub fresh : IsFresh store

  -- The read that already waits.
  still :
      {h : ℕ} {s : Store V} {wf : Option (WriteFuture V)} {tx : ℕ} {flight : List V} (hears : Bool)
      → Phase h s wf (some (waiting h tx)) flight
      → IsFresh s
      → receive s (some (waiting h tx)) hears ≡ pending
      → Reads h s wf (some (waiting h tx)) flight hears
  unfolding poll_next read_future
  still {h = h} {s = s} {tx = tx} hears p n e = record {
    future = some (waiting h tx);
    store = s;
    runs = ground arith;
    phase = p;
    fresh = n;
  }

  pub next-Reads :
      {h : ℕ} {s : Store V} {wf : Option (WriteFuture V)} {rf : Option (ReadFuture V)}
      {flight : List V} (hears : Bool)
      → Phase h s wf rf flight
      → IsFresh s
      → can_read wf rf (s.entries h) ≡ true
      → delivers_at hears s rf (s.entries h) ≡ false
      → Reads h s wf rf flight hears
  unfolding poll_next read_future receive can_read delivers_at
  next-Reads {h = h} {s = s} hears (idle e) n free quiet = record {
    future = some (waiting h s.next_sender);
    store = record s {
      entries = update s.entries h (some (local_waiting s.next_sender));
      next_sender = s.next_sender + 1;
    };
    runs = ground arith;
    phase =
        awaiting s.next_sender (update_self s.entries h _) (n s.next_sender (omega arith))
          (omega arith);
    fresh = λ t le. n t (omega arith);
  }
  next-Reads hears (queued v e) n free quiet = absurd (ground arith)
  next-Reads hears (offered v w e) n free quiet = absurd (ground arith)
  next-Reads false (awaiting tx e m lt) n free quiet = still false (awaiting tx e m lt) n refl
  next-Reads true (awaiting tx e m lt) n free quiet =
      still true (awaiting tx e m lt) n (ground arith)
  next-Reads false (arrived tx v e m) n free quiet = still false (arrived tx v e m) n refl
  next-Reads true (arrived tx v e m) n free quiet = absurd (ground arith)
  next-Reads false (arrived_queued tx v u e m) n free quiet =
      still false (arrived_queued tx v u e m) n refl
  next-Reads true (arrived_queued tx v u e m) n free quiet = absurd (ground arith)
  next-Reads false (arrived_offered tx v u w e m) n free quiet =
      still false (arrived_offered tx v u w e m) n refl
  next-Reads true (arrived_offered tx v u w e m) n free quiet = absurd (ground arith)

  -- A poll that comes to a value panics.
  pub next-panics :
      (h : ℕ) (s : Store V) (rf : Option (ReadFuture V)) (hears : Bool)
      → delivers_at hears s rf (s.entries h) ≡ true
      → poll_next (reader_at h rf) (record { host_read = pending; received = receive s rf hears }) s
        ≡ panic
  unfolding poll_next read_future receive delivers_at
  next-panics h s none hears e = ground arith
  next-panics h s (some f) true e = ground arith
  next-panics h s (some f) false e = absurd (ground arith)
