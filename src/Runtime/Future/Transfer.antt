-- ===== src/Runtime/Future/Transfer.antt =====
-- What becomes of a future's ends: values that cross to another component, operations that are
-- cancelled, and ends that are dropped.
use wai_bindgen.Prelude.{
  ℕ, zero, suc, ◌+◌, ◌≡◌, ◌≢◌, ◌⊎◌, inl, inr, refl, true, false, Option, none, some, ◌∷◌, ◌++◌,
  arith,
}
use wai_bindgen.Runtime.Store.{
  ok, ready, pending, Handle, local_open, local_ready, local_waiting, local_closed, read, write,
  write_closed_err, cancel_write, cancel_read, close_readable, close_writable, wake, drop_sender,
  Store, M, pure, ◌>>=◌, ◌>>◌, update, update_self, drop_handle, drop_error,
}
use wai_bindgen.Runtime.Stream.{Item, Answer, taken_handle}
use wai_bindgen.Runtime.Future.{
  CancelableWrite, host, local, spent, start_write, poll_write, cancel_mut_write,
  close_future_with_error, drop_future_writer,
}
use wai_bindgen.Runtime.Future.Reader.{
  CancelableRead, ReadTask, into_future, poll_read, consumed, cancel_mut_read, drop_future_reader,
}

module _ {V : Type 0} where
  -- Polls that the host has not finished.
  unfoldable pub unfinished : ℕ → ℕ → CancelableWrite V → M V (CancelableWrite V)
  unfinished h zero c = pure c
  unfinished h (suc n) c = do r ← poll_write h c 0 false; unfinished h n r.1

  unfinished_host :
      (s : Store V) (h n : ℕ) (v : V)
      → unfinished h n (record { writer = some h; future = host v }) s
        ≡ ok (record { writer = some h; future = host v }, s)
  unfolding unfinished poll_write
  unfinished_host s h zero v = refl
  unfinished_host s h (suc n) v = unfinished_host s h n v

  -- A write to another component, however often it is polled before the host has finished, ends
  -- with the entry removed and the writable end closed once.
  pub write-crosses :
      (s : Store V) (h n : ℕ) (v : V)
      → s.entries h ≡ some write
      → (s' : Store V) × (((start_write h v >>= unfinished h n >>= λ c. poll_write h c 0 true) s
            ≡ ok ((ready tt, record { writer = none; future = spent }), s'))
          × ((s'.entries h ≡ none) × (s'.log ≡ close_writable h 0 ∷ s.log)))
  unfolding start_write poll_write drop_future_writer
  write-crosses s h n v e = (
    record s { entries = update s.entries h none; log = close_writable h 0 ∷ s.log },
    (ground (arith, unfinished_host s h n v), (update_self s.entries h none, refl)),
  )

  -- A write that is cancelled leaves every entry as it was.
  cancel_mut_write-restores :
      (s : Store V) (h waker : ℕ) (v : V)
      → (s.entries h ≡ some write) ⊎ (s.entries h ≡ some local_open)
      → (s' : Store V) × (((start_write h v >>= λ c.
                poll_write h c waker false >>= λ r. cancel_mut_write r.1)
              s
            ≡ ok (h, s'))
          × ((j : ℕ) → s'.entries j ≡ s.entries j))
  unfolding start_write poll_write cancel_mut_write
  cancel_mut_write-restores s h waker v (inl e) =
      (record s { log = cancel_write h ∷ s.log }, (ground arith, λ j. refl))
  cancel_mut_write-restores s h waker v (inr e) = (
    record s {
      entries = update (update s.entries h (some (local_ready v waker))) h (some local_open);
    },
    (ground arith, λ j. ground arith),
  )

  -- Polls of a read that the host has not answered.
  unfoldable pub unanswered : ℕ → CancelableRead V → M V (CancelableRead V)
  unanswered zero c = pure c
  unanswered (suc n) c = do
    r ← poll_read c (record { host_read = pending; received = pending })
    unanswered n r.1

  unanswered_host :
      (s : Store V) (h n : ℕ)
      → unanswered n (record { reader = some h; future = ReadTask.host }) s
        ≡ ok (record { reader = some h; future = ReadTask.host }, s)
  unfolding unanswered poll_read
  unanswered_host s h zero = refl
  unanswered_host s h (suc n) = unanswered_host s h n

  -- A read from another component, however often it is polled before the host has answered, gives
  -- the host's answer, and ends with the entry removed and the readable end closed once; the
  -- reader's handle has not been taken.
  pub read-crosses :
      (s : Store V) (h n : ℕ) (x : Option (Item V)) (a : Answer V)
      → s.entries h ≡ some read
      → h ≢ taken_handle
      → a.host_read ≡ ready x
      → (s' : Store V) × (((into_future h >>= unanswered n >>= λ c. poll_read c a) s
            ≡ ok ((ready x, record { reader = none; future = consumed }), s'))
          × ((s'.entries h ≡ none) × (s'.log ≡ close_readable h ∷ s.log)))
  unfolding into_future poll_read drop_future_reader
  read-crosses s h n x a e far answer = (
    record s { entries = update s.entries h none; log = close_readable h ∷ s.log },
    (ground (arith, unanswered_host s h n), (update_self s.entries h none, refl)),
  )

  -- A read that is cancelled leaves every entry as it was.
  cancel_mut_read-restores :
      (s : Store V) (h : ℕ)
      → (s.entries h ≡ some read) ⊎ (s.entries h ≡ some local_open)
      → (s' : Store V) × (((into_future h >>= cancel_mut_read) s ≡ ok (h, s'))
          × ((j : ℕ) → s'.entries j ≡ s.entries j))
  unfolding into_future cancel_mut_read
  cancel_mut_read-restores s h (inl e) =
      (record s { log = cancel_read h ∷ s.log }, (ground arith, λ j. refl))
  cancel_mut_read-restores s h (inr e) = (
    record s {
      entries =
          update (update s.entries h (some (local_waiting s.next_sender))) h (some local_open);
      log = drop_sender s.next_sender ∷ s.log;
      next_sender = s.next_sender + 1;
    },
    (ground arith, λ j. ground arith),
  )

  -- A write that has been polled, or a read, that is cancelled gives its end back
  -- and leaves every entry as it was, whether the other end is in the component or not.
  pub cancel_mut-restores :
      (s : Store V) (h waker : ℕ) (v : V)
      → ((s.entries h ≡ some write) ⊎ (s.entries h ≡ some local_open)
          → (s' : Store V) × (((start_write h v >>= λ c.
                    poll_write h c waker false >>= λ r. cancel_mut_write r.1)
                  s
                ≡ ok (h, s'))
              × ((j : ℕ) → s'.entries j ≡ s.entries j)))
        × ((s.entries h ≡ some read) ⊎ (s.entries h ≡ some local_open)
            → (s' : Store V) × (((into_future h >>= cancel_mut_read) s ≡ ok (h, s'))
                × ((j : ℕ) → s'.entries j ≡ s.entries j)))
  cancel_mut-restores s h waker v =
      (cancel_mut_write-restores s h waker v, cancel_mut_read-restores s h)

  -- Within a component, a writable end that is dropped while a read waits ends the read with
  -- nothing; the entry is removed and the host is called once.
  read-dropped :
      (s : Store V) (h : ℕ) (a : Answer V)
      → s.entries h ≡ some local_open
      → h ≢ taken_handle
      → a.received ≡ ready none
      → (s' : Store V) × ((c : CancelableRead V) × (((into_future h >>= λ c.
                  drop_future_writer h >> poll_read c a)
                s
              ≡ ok ((ready none, c), s'))
            × ((s'.entries h ≡ none)
                × (s'.log ≡ close_readable h ∷ drop_sender s.next_sender ∷ s.log))))
  unfolding into_future poll_read drop_future_reader drop_future_writer
  read-dropped s h a e n answer =
      let waits = update s.entries h (some (local_waiting s.next_sender)) in
      let closed = update waits h (some local_closed) in
      (
        record {
          entries = update closed h none;
          log = close_readable h ∷ drop_sender s.next_sender ∷ s.log;
          next_sender = s.next_sender + 1;
        },
        (
          record { reader = none; future = consumed },
          (ground arith, (update_self closed h none, refl)),
        ),
      )

  -- Within a component, a readable end that is dropped while a value is on offer wakes the writer;
  -- the write ends, the entry is removed and the host is called once.
  write-dropped :
      (s : Store V) (h waker : ℕ) (v : V)
      → s.entries h ≡ some local_open
      → h ≢ taken_handle
      → (s' : Store V) × ((c : CancelableWrite V) × (((start_write h v >>= λ c.
                  poll_write h c waker false >>= λ r.
                  drop_future_reader h >> poll_write h r.1 waker false)
                s
              ≡ ok ((ready tt, c), s'))
            × ((s'.entries h ≡ none) × (s'.log ≡ close_writable h 0 ∷ wake waker ∷ s.log))))
  unfolding start_write poll_write drop_future_reader drop_future_writer
  write-dropped s h waker v e n =
      let offers = update s.entries h (some (local_ready v waker)) in
      let closed = update offers h (some local_closed) in
      (
        record s { entries = update closed h none; log = close_writable h 0 ∷ wake waker ∷ s.log },
        (
          record { writer = none; future = local none },
          (ground arith, (update_self closed h none, refl)),
        ),
      )

  -- Whatever the state of the entry, a writable end that is closed with an error, and is dropped,
  -- drops what the entry held, removes the entry, and tells the host of the error before it drops it.
  pub close_future_with_error-drop :
      (s : Store V) (h e : ℕ) (x : Handle V)
      → s.entries h ≡ some x
      → (s' : Store V) × (((close_future_with_error h e >> drop_future_writer h) s ≡ ok (tt, s'))
          × ((s'.entries h ≡ none)
              × (s'.log ≡ drop_error e ++ close_writable h e ∷ drop_handle (some x) ++ s.log)))
  unfolding close_future_with_error drop_future_writer
  close_future_with_error-drop s h e x present =
      let closed = update s.entries h (some (write_closed_err (some e))) in
      (
        record s {
          entries = update closed h none;
          log = drop_error e ++ close_writable h e ∷ drop_handle (some x) ++ s.log;
        },
        (ground arith, (update_self closed h none, refl)),
      )
