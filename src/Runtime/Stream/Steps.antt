-- ===== src/Runtime/Stream/Steps.antt =====
-- What the moves of a stream within a component keep.
use mathlib.Core.Bool.{false≢true}
use wai_bindgen.Prelude.{
  ℕ, ◌≡◌, ◌≢◌, refl, sym, subst, ap, ◌∙◌, Bool, true, false, Bool-cases, inl, inr, Option, none,
  List, [], ◌∷◌, ◌++◌, arith,
}
use wai_bindgen.Runtime.Store.{ok, panic, pending}
use wai_bindgen.Runtime.Stream.{WriteFuture, ReadFuture}
use wai_bindgen.Runtime.Stream.Writer.{start_send, poll_ready}
use wai_bindgen.Runtime.Stream.Reader.{poll_next}
use wai_bindgen.Runtime.Stream.Session.{
  Session, Move, send, flush, next, step, IsAllowed, opened, Reaches, start, move, sending,
  flushing, reading, receive, can_read, delivers, delivers_at,
}
use wai_bindgen.Runtime.Stream.Phases.{Phase, idle, IsFresh, writer_at, reader_at}
use wai_bindgen.Runtime.Stream.Writes.{send-Sends, flush-Flushes}
use wai_bindgen.Runtime.Stream.Reads.{next-Reads, next-panics}

pub ok_injective : {A : Type 0} {a b : A} → ok a ≡ ok b → a ≡ b
ok_injective {a = a} e = ap (λ o. elim o [ ok x ↦ x | panic ↦ a ]) e

pub panic≢ok : {A : Type 0} {a : A} → panic ≢ ok a
panic≢ok e = ground arith

module _ {V : Type 0} (h : ℕ) where
  -- The ends are those of `h`, nothing has been read, and what was sent is under way.
  pub record IsOrdered (c : Session V) : Type 0 where
    pub write_future : Option (WriteFuture V)
    pub read_future : Option (ReadFuture V)
    pub flight : List V
    pub writer_eq : c.writer ≡ writer_at h write_future
    pub reader_eq : c.reader ≡ reader_at h read_future
    pub phase : Phase h c.store write_future read_future flight
    pub fresh : IsFresh c.store
    pub none_read : c.delivered ≡ []
    pub all_held : flight ≡ c.written

  -- A step that does not panic, to a session in order.
  pub record Steps (c : Session V) (m : Move V) : Type 0 where
    pub after : Session V
    pub runs : step c m ≡ ok after
    pub ordered : IsOrdered after

  step_send : (c : Session V) (v : V) (o : IsOrdered c) → o.write_future ≡ none → Steps c (send v)
  unfolding step
  step_send c v o free =
      let s =
        send-Sends v (subst (λ f. Phase h c.store f o.read_future o.flight) free o.phase) o.fresh in
      record {
        after = record c {
          writer = writer_at h s.future;
          store = s.store;
          written = c.written ++ v ∷ [];
        };
        runs =
            subst
              (λ w.
                sending c v (start_send w v c.store)
                ≡ ok (record c {
                  writer = writer_at h s.future;
                  store = s.store;
                  written = c.written ++ v ∷ [];
                }))
              (sym (o.writer_eq ∙ ap (writer_at h) free)) (ap (sending c v) s.runs);
        ordered = record {
          write_future = s.future;
          read_future = o.read_future;
          flight = o.flight ++ v ∷ [];
          writer_eq = refl;
          reader_eq = o.reader_eq;
          phase = s.phase;
          fresh = s.fresh;
          none_read = o.none_read;
          all_held = ap (λ l. l ++ v ∷ []) o.all_held;
        };
      }

  step_flush : (c : Session V) (waker : ℕ) → IsOrdered c → Steps c (flush waker)
  unfolding step
  step_flush c waker o =
      let s = flush-Flushes waker o.phase o.fresh in
      record {
        after = record c { writer = writer_at h s.future; store = s.store };
        runs =
            subst
              (λ w.
                flushing c (poll_ready w waker false c.store)
                ≡ ok (record c { writer = writer_at h s.future; store = s.store }))
              (sym o.writer_eq) (ap (flushing c) s.runs);
        ordered = record {
          write_future = s.future;
          read_future = o.read_future;
          flight = o.flight;
          writer_eq = refl;
          reader_eq = o.reader_eq;
          phase = s.phase;
          fresh = s.fresh;
          none_read = o.none_read;
          all_held = o.all_held;
        };
      }

  -- A poll that comes to no value.
  step_next :
      (c : Session V) (hears : Bool) (o : IsOrdered c)
      → can_read o.write_future o.read_future (c.store.entries h) ≡ true
      → delivers_at hears c.store o.read_future (c.store.entries h) ≡ false
      → Steps c (next hears)
  unfolding step
  step_next c hears o free quiet =
      let s = next-Reads hears o.phase o.fresh free quiet in
      record {
        after = record c { reader = reader_at h s.future; store = s.store };
        runs =
            subst
              (λ r.
                reading c (
                  poll_next r
                    (record { host_read = pending; received = receive c.store r.future hears })
                    c.store)
                ≡ ok (record c { reader = reader_at h s.future; store = s.store }))
              (sym o.reader_eq) (ap (reading c) s.runs);
        ordered = record {
          write_future = o.write_future;
          read_future = s.future;
          flight = o.flight;
          writer_eq = o.writer_eq;
          reader_eq = refl;
          phase = s.phase;
          fresh = s.fresh;
          none_read = o.none_read;
          all_held = o.all_held;
        };
      }

  -- A poll that comes to a value.
  step_next-panics :
      (c : Session V) (hears : Bool) → delivers c (next hears) ≡ true → step c (next hears) ≡ panic
  unfolding step delivers
  step_next-panics c hears e =
      ap (reading c) (next-panics c.reader.handle c.store c.reader.future hears e)

  read_allowed :
      (c : Session V) (hears : Bool) (o : IsOrdered c)
      → IsAllowed c (next hears)
      → can_read o.write_future o.read_future (c.store.entries h) ≡ true
  unfolding IsAllowed
  read_allowed c hears o free =
      subst (λ w. can_read w.future o.read_future (c.store.entries h) ≡ true) o.writer_eq
        (subst (λ r. can_read c.writer.future r.future (c.store.entries r.handle) ≡ true)
          o.reader_eq free)

  pub step_move :
      (c : Session V) (m : Move V) → IsOrdered c → IsAllowed c m → delivers c m ≡ false → Steps c m
  unfolding IsAllowed delivers
  step_move c (send v) o free quiet = step_send c v o (ap (λ w. w.future) (sym o.writer_eq) ∙ free)
  step_move c (flush waker) o free quiet = step_flush c waker o
  step_move c (next hears) o free quiet = step_next c hears o (read_allowed c hears o free) (
      subst (λ r. delivers_at hears c.store r.future (c.store.entries r.handle) ≡ false) o.reader_eq
        quiet)

  pub delivers-panics : (c : Session V) (m : Move V) → delivers c m ≡ true → step c m ≡ panic
  unfolding delivers
  delivers-panics c (send v) e = absurd (false≢true e)
  delivers-panics c (flush waker) e = absurd (false≢true e)
  delivers-panics c (next hears) e = step_next-panics c hears e

  pub opened-IsOrdered : IsOrdered (opened h)
  opened-IsOrdered = record {
    write_future = none;
    read_future = none;
    flight = [];
    writer_eq = refl;
    reader_eq = refl;
    phase = idle (ground arith);
    fresh = λ t le. refl;
    none_read = refl;
    all_held = refl;
  }

  moved-IsOrdered :
      (c c' : Session V) (m : Move V)
      → IsOrdered c
      → IsAllowed c m
      → step c m ≡ ok c'
      → IsOrdered c'
  moved-IsOrdered c c' m o allowed e = elim (Bool-cases (delivers c m)) [
    | inl yes_ ↦ absurd (panic≢ok (sym (delivers-panics c m yes_) ∙ e))
    | inr no_ ↦
        let s = step_move c m o allowed no_ in
        subst IsOrdered (ok_injective (sym s.runs ∙ e)) s.ordered
  ]

  pub reached-IsOrdered : (c : Session V) → Reaches h c → IsOrdered c
  reached-IsOrdered c start = opened-IsOrdered
  reached-IsOrdered c (move {c = c'} m r allowed e) =
      moved-IsOrdered c' c m (reached-IsOrdered c' r) allowed e
