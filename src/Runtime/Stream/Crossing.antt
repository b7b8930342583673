-- ===== src/Runtime/Stream/Crossing.antt =====
-- A stream whose other end is in another component: reads and writes go through the host.
use wai_bindgen.Prelude.{
  ℕ, zero, suc, ◌≡◌, ◌≢◌, refl, Bool, true, false, Bool-cases, inl, inr, Option, none, some, List,
  [], ◌∷◌, ◌++◌, map, if◌then◌else◌, arith,
}
use wai_bindgen.Runtime.Store.{
  ok, Poll, ready, pending, Store, M, pure, ◌>>=◌, ◌>>◌, read, write, update, cancel_read,
  cancel_write, close_readable, close_writable,
}
use wai_bindgen.Runtime.Stream.{
  Item, WriteFuture, host, StreamReader, StreamWriter, Answer, taken_handle,
}
use wai_bindgen.Runtime.Stream.Reader.{
  poll_next, read_future, drop_reader, drop_read_future, cancel_read_on_drop,
}
use wai_bindgen.Runtime.Stream.Writer.{
  start_send, poll_ready, poll_write_future, drop_writer, drop_write_future, cancel_write_on_drop,
}
use wai_bindgen.Runtime.Stream.Phases.{reader_at, writer_at}

module _ {V : Type 0} where
  -- Polls of a reader, one for each answer of the host, and what they give.
  unfoldable pub poll_all :
      StreamReader V → List (Answer V) → M V (List (Poll (Option (Item V))) × StreamReader V)
  poll_all r [] = pure ([], r)
  poll_all r (a ∷ l) = poll_next r a >>= λ p. poll_all p.1 l >>= λ q. pure (p.0 ∷ q.0, q.1)

  unfoldable pub is_pending : Poll (Option (Item V)) → Bool
  is_pending (ready x) = false
  is_pending pending = true

  -- A read is pending after the answers, where one was or was not before them.
  unfoldable pub ends_pending : Bool → List (Answer V) → Bool
  ends_pending b [] = b
  ends_pending b (a ∷ l) = ends_pending (is_pending a.host_read) l

  reader_by : ℕ → Bool → StreamReader V
  reader_by h true = reader_at h (some (host h))
  reader_by h false = reader_at h none

  poll_next-host :
      (s : Store V) (h : ℕ) (b : Bool) (a : Answer V) (x : Poll (Option (Item V)))
      → s.entries h ≡ some read
      → a.host_read ≡ x
      → poll_next (reader_by h b) a s ≡ ok ((x, reader_by h (is_pending x)), s)
  unfolding poll_next read_future reader_by is_pending
  poll_next-host s h true a (ready x) e q = ground arith
  poll_next-host s h true a pending e q = ground arith
  poll_next-host s h false a (ready x) e q = ground arith
  poll_next-host s h false a pending e q = ground arith

  poll_all-host :
      (s : Store V) (h : ℕ) (b : Bool) (l : List (Answer V))
      → s.entries h ≡ some read
      → poll_all (reader_by h b) l s
        ≡ ok ((map (λ a. a.host_read) l, reader_by h (ends_pending b l)), s)
  unfolding poll_all ends_pending
  poll_all-host s h b [] e = refl
  poll_all-host s h b (a ∷ l) e =
      let first = poll_next-host s h b a a.host_read e refl in
      let rest = poll_all-host s h (is_pending a.host_read) l e in ground (arith, first, rest)

  -- Polls of a reader whose writable end is in another component, and whose handle has not been
  -- taken, give the host's answers, in order. The reader that is dropped then cancels the read where
  -- the last answer left it pending, removes the entry and closes the readable end, each once.
  pub reads-cross :
      (s : Store V) (h : ℕ) (l : List (Answer V))
      → s.entries h ≡ some read
      → h ≢ taken_handle
      → (s' : Store V) × (((poll_all (reader_at h none) l >>= λ p. drop_reader p.1 >> pure p.0) s
            ≡ ok (map (λ a. a.host_read) l, s'))
          × (((j : ℕ) → s'.entries j ≡ update s.entries h none j)
              × (s'.log
                  ≡ close_readable h
                    ∷ (if ends_pending false l then cancel_read h ∷ s.log else s.log))))
  unfolding drop_reader drop_read_future cancel_read_on_drop reader_by
  reads-cross s h l e n =
      let polls = poll_all-host s h false l e in
      (
        record s {
          entries = update s.entries h none;
          log = close_readable h ∷ (if ends_pending false l then cancel_read h ∷ s.log else s.log);
        },
        (
          elim (Bool-cases (ends_pending false l)) [
            | inl yes_ ↦ ground (arith, polls)
            | inr no_ ↦ ground (arith, polls)
          ],
          ((λ j. refl), refl),
        ),
      )

  -- Polls of a writer that the host has not finished.
  unfoldable pub wait_for_host : ℕ → StreamWriter V → M V (StreamWriter V)
  wait_for_host zero w = pure w
  wait_for_host (suc n) w = poll_ready w 0 false >>= λ r. wait_for_host n r.1

  unfoldable pub given : Option (WriteFuture V) → List V
  given (some (host v)) = v ∷ []
  given f = []

  -- Sends, each with the number of polls before the one at which the host has finished, and the
  -- values that the host is given.
  unfoldable pub send_all : StreamWriter V → List (V × ℕ) → M V (List V × StreamWriter V)
  send_all w [] = pure ([], w)
  send_all w ((v, n) ∷ l) = start_send w v >>= λ a. wait_for_host n a >>= λ b.
      poll_ready b 0 true >>= λ r. send_all r.1 l >>= λ q. pure (given b.future ++ q.0, q.1)

  -- A send that is not polled.
  unfoldable pub send_last : Option V → StreamWriter V → M V (StreamWriter V)
  send_last none w = pure w
  send_last (some v) w = start_send w v

  wait_for_host-host :
      (s : Store V) (h n : ℕ) (v : V)
      → wait_for_host n (writer_at h (some (host v))) s ≡ ok (writer_at h (some (host v)), s)
  unfolding wait_for_host poll_ready poll_write_future
  wait_for_host-host s h zero v = refl
  wait_for_host-host s h (suc n) v = wait_for_host-host s h n v

  send_all-host :
      (s : Store V) (h : ℕ) (l : List (V × ℕ))
      → s.entries h ≡ some write
      → send_all (writer_at h none) l s ≡ ok ((map (λ p. p.0) l, writer_at h none), s)
  unfolding send_all start_send poll_ready poll_write_future given
  send_all-host s h [] e = refl
  send_all-host s h ((v, n) ∷ l) e =
      let waits = wait_for_host-host s h n v in
      let rest = send_all-host s h l e in ground (arith, waits, rest)

  -- Sends on a writer whose readable end is in another component, each polled until the host has
  -- finished, give the host their values, in order. The writer that is dropped then cancels one more
  -- send that was not polled, removes the entry and closes the writable end, each once.
  pub writes-cross :
      (s : Store V) (h : ℕ) (l : List (V × ℕ)) (last : Option V)
      → s.entries h ≡ some write
      → (s' : Store V) × (((send_all (writer_at h none) l >>= λ p.
                send_last last p.1 >>= λ w. drop_writer w >> pure p.0)
              s
            ≡ ok (map (λ p. p.0) l, s'))
          × (((j : ℕ) → s'.entries j ≡ update s.entries h none j)
              × (s'.log
                  ≡ close_writable h 0
                    ∷ elim last [ none ↦ s.log | some v ↦ cancel_write h ∷ s.log ])))
  unfolding send_last start_send drop_writer drop_write_future cancel_write_on_drop
  writes-cross s h l none e = (
    record s { entries = update s.entries h none; log = close_writable h 0 ∷ s.log },
    (ground (arith, send_all-host s h l e), ((λ j. refl), refl)),
  )
  writes-cross s h l (some v) e = (
    record s {
      entries = update s.entries h none;
      log = close_writable h 0 ∷ cancel_write h ∷ s.log;
    },
    (ground (arith, send_all-host s h l e), ((λ j. refl), refl)),
  )
