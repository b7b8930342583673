-- ===== src/Runtime/Stream/Ends.antt =====
-- A stream that leaves the component and comes back, and the ends that close.
use wai_bindgen.Prelude.{
  ℕ, List, Option, ◌≡◌, ◌≢◌, ◌⊎◌, inl, inr, ◌↔◌, refl, sym, subst, none, some, ◌∷◌, arith,
}
use wai_bindgen.Runtime.Store.{
  ok, panic, Store, local_open, local_ready, read, write, update, update_self, ◌>>=◌,
  close_readable, close_writable, sent, local_closed,
}
use wai_bindgen.Runtime.Stream.{ReadFuture, WriteFuture, waiting, taken_handle}
use wai_bindgen.Runtime.Stream.Writer.{drop_writer, drop_write_future, cancel_write_on_drop}
use wai_bindgen.Runtime.Stream.Reader.{
  take_handle, from_handle, drop_reader, drop_read_future, cancel_read_on_drop,
}
use wai_bindgen.Runtime.Stream.Phases.{
  writer_at, reader_at, Phase, idle, queued, offered, awaiting, arrived, arrived_queued,
  arrived_offered,
}
use wai_bindgen.Runtime.Stream.Session.{Session, Reaches}
use wai_bindgen.Runtime.Stream.Steps.{reached-IsOrdered}

module _ {V : Type 0} where
  -- A stream whose readable end leaves the component and comes back is as it was, whether its
  -- writable end is in the component or not.
  pub from_handle-take_handle :
      (s : Store V) (h : ℕ)
      → (s.entries h ≡ some local_open) ⊎ (s.entries h ≡ some read)
      → (s' : Store V) × (((take_handle (reader_at h none) >>= λ p. from_handle p.0) s
            ≡ ok (reader_at h none, s'))
          × (((j : ℕ) → s'.entries j ≡ s.entries j) × (s'.log ≡ s.log)))
  unfolding take_handle from_handle
  from_handle-take_handle s h (inl e) = (
    record s { entries = update (update s.entries h (some write)) h (some local_open) },
    (ground arith, ((λ j. ground arith), refl)),
  )
  from_handle-take_handle s h (inr e) = (
    record s { entries = update (update s.entries h none) h (some read) },
    (ground arith, ((λ j. ground arith), refl)),
  )

  -- Where both ends of a stream are idle in a component, the first that is dropped leaves the entry
  -- closed and calls nothing, and the second removes the entry and calls the host once, whichever
  -- is first; the handle is not that of a reader that has been taken.
  pub ends-close :
      (s : Store V) (h : ℕ)
      → s.entries h ≡ some local_open
      → h ≢ taken_handle
      → ((s' s'' : Store V) × ((drop_writer (writer_at h none) s ≡ ok (tt, s'))
            × (((s'.entries h ≡ some local_closed) × (s'.log ≡ s.log))
                × ((drop_reader (reader_at h none) s' ≡ ok (tt, s''))
                    × ((s''.entries h ≡ none) × (s''.log ≡ close_readable h ∷ s.log))))))
        × ((s' s'' : Store V) × ((drop_reader (reader_at h none) s ≡ ok (tt, s'))
              × (((s'.entries h ≡ some local_closed) × (s'.log ≡ s.log))
                  × ((drop_writer (writer_at h none) s' ≡ ok (tt, s''))
                      × ((s''.entries h ≡ none) × (s''.log ≡ close_writable h 0 ∷ s.log))))))
  unfolding drop_writer drop_reader drop_read_future drop_write_future
  ends-close s h e n =
      let closed : Store V = record s { entries = update s.entries h (some local_closed) } in
      let now_closed : closed.entries h ≡ some local_closed = update_self s.entries h _ in
      let gone = update closed.entries h none in
      let removed : gone h ≡ none = update_self closed.entries h none in
      (
        (
          closed,
          record s { entries = gone; log = close_readable h ∷ s.log },
          (ground arith, ((now_closed, refl), (ground arith, (removed, refl)))),
        ),
        (
          closed,
          record s { entries = gone; log = close_writable h 0 ∷ s.log },
          (ground arith, ((now_closed, refl), (ground arith, (removed, refl)))),
        ),
      )

  drop_reader-Phase :
      (s : Store V) (h : ℕ) (wf : Option (WriteFuture V)) (rf : Option (ReadFuture V))
      (flight : List V)
      → Phase h s wf rf flight
      → (drop_reader (reader_at h rf) s ≡ panic)
        ↔ ((tx : ℕ) × ((v : V) × ((rf ≡ some (waiting h tx)) × (sent s.log tx ≡ some v))))
  unfolding drop_reader drop_read_future cancel_read_on_drop
  drop_reader-Phase s h _ _ _ (idle e) =
      ((λ p. absurd (ground arith)), λ q. absurd (ground (arith, q.1.1.0, q.1.1.1)))
  drop_reader-Phase s h _ _ _ (queued v e) =
      ((λ p. absurd (ground arith)), λ q. absurd (ground (arith, q.1.1.0, q.1.1.1)))
  drop_reader-Phase s h _ _ _ (offered v w e) =
      ((λ p. absurd (ground arith)), λ q. absurd (ground (arith, q.1.1.0, q.1.1.1)))
  drop_reader-Phase s h _ _ _ (awaiting tx e m lt) =
      ((λ p. absurd (ground arith)), λ q. absurd (ground (arith, q.1.1.0, q.1.1.1)))
  drop_reader-Phase s h _ _ _ (arrived tx v e m) = ((λ _. (tx, (v, (refl, m)))), λ _. ground arith)
  drop_reader-Phase s h _ _ _ (arrived_queued tx v u e m) =
      ((λ _. (tx, (v, (refl, m)))), λ _. ground arith)
  drop_reader-Phase s h _ _ _ (arrived_offered tx v u w e m) =
      ((λ _. (tx, (v, (refl, m)))), λ _. ground arith)

  drop_writer-Phase :
      (s : Store V) (h : ℕ) (wf : Option (WriteFuture V)) (rf : Option (ReadFuture V))
      (flight : List V)
      → Phase h s wf rf flight
      → (drop_writer (writer_at h wf) s ≡ panic)
        ↔ ((wf ≢ none) × ((v : V) (w : ℕ) → s.entries h ≢ some (local_ready v w)))
  unfolding drop_writer drop_write_future cancel_write_on_drop
  drop_writer-Phase s h _ _ _ (idle e) = ((λ p. absurd (ground arith)), λ q. absurd (q.0 refl))
  drop_writer-Phase s h _ _ _ (queued v e) =
      ((λ p. ((λ x. ground arith), λ u w x. ground arith)), λ q. ground arith)
  drop_writer-Phase s h _ _ _ (offered v w e) =
      ((λ p. absurd (ground arith)), λ q. absurd (q.1 v w e))
  drop_writer-Phase s h _ _ _ (awaiting tx e m lt) =
      ((λ p. absurd (ground arith)), λ q. absurd (q.0 refl))
  drop_writer-Phase s h _ _ _ (arrived tx v e m) =
      ((λ p. absurd (ground arith)), λ q. absurd (q.0 refl))
  drop_writer-Phase s h _ _ _ (arrived_queued tx v u e m) =
      ((λ p. ((λ x. ground arith), λ u w x. ground arith)), λ q. ground arith)
  drop_writer-Phase s h _ _ _ (arrived_offered tx v u w e m) =
      ((λ p. absurd (ground arith)), λ q. absurd (q.1 u w e))

  -- Of what the protocol reaches, a drop of the readable end panics exactly where its read waits
  -- for a value that has been sent already.
  pub drop_reader-arrived :
      (h : ℕ) (c : Session V)
      → Reaches h c
      → (drop_reader c.reader c.store ≡ panic) ↔ (
          (tx : ℕ) × ((v : V) × ((c.reader.future ≡ some (waiting h tx))
              × (sent c.store.log tx ≡ some v))))
  drop_reader-arrived h c r =
      let o = reached-IsOrdered h c r in
      subst
        (λ e. (drop_reader e c.store ≡ panic) ↔ (
          (tx : ℕ) × ((v : V) × ((e.future ≡ some (waiting h tx))
              × (sent c.store.log tx ≡ some v)))))
        (sym o.reader_eq)
        (drop_reader-Phase c.store h o.write_future o.read_future o.flight o.phase)

  -- Of what the protocol reaches, a drop of the writable end panics exactly where a write is
  -- pending whose value is not on offer.
  pub drop_writer-pending :
      (h : ℕ) (c : Session V)
      → Reaches h c
      → (drop_writer c.writer c.store ≡ panic) ↔ (
          (c.writer.future ≢ none) × ((v : V) (w : ℕ) → c.store.entries h ≢ some (local_ready v w)))
  drop_writer-pending h c r =
      let o = reached-IsOrdered h c r in
      subst
        (λ e.
          (drop_writer e c.store ≡ panic)
          ↔ ((e.future ≢ none) × ((v : V) (w : ℕ) → c.store.entries h ≢ some (local_ready v w))))
        (sym o.writer_eq)
        (drop_writer-Phase c.store h o.write_future o.read_future o.flight o.phase)
