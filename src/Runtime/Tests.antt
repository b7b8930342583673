-- ===== src/Runtime/Tests.antt =====
-- The theorems about crates/guest-rust/rt on concrete streams and futures, and in Tasks on tasks.
mod Tasks
use wai_bindgen.Prelude.{
  ℕ, map, ◌+◌, ◌≡◌, ◌≢◌, ◌≤◌, ◌↔◌, ◌⊎◌, inr, refl, true, false, none, some, List, [], ◌∷◌, ◌++◌,
  ◌==◌, if◌then◌else◌, length, arith,
}
use wai_bindgen.Runtime.Store.{
  ok, panic, ready, pending, local_open, local_waiting, read, write, close_writable, Store, ◌>>=◌,
  ◌>>◌, Effect, close_readable, cancel_read, cancel_write, pure,
}
use wai_bindgen.Runtime.Stream.{waiting, local}
use wai_bindgen.Runtime.Stream.Writer.{start_send, drop_writer}
use wai_bindgen.Runtime.Stream.Reader.{
  take_handle, from_handle, drop_reader, poll_next, read_future,
}
use wai_bindgen.Runtime.Stream.Phases.{reader_at, writer_at}
use wai_bindgen.Runtime.Stream.Session.{
  Session, send, next, step, delivers, under_way, IsAllowed, opened, Reaches, start, move, can_read,
}
use wai_bindgen.Runtime.Stream.Local.{step-panics, reached-under_way}
use wai_bindgen.Runtime.Stream.Crossing.{
  poll_all, ends_pending, reads-cross, send_all, send_last, writes-cross,
}
use wai_bindgen.Runtime.Stream.Ends.{
  from_handle-take_handle, drop_reader-arrived, drop_writer-pending, ends-close,
}
use wai_bindgen.Runtime.Stream.{Answer, value}
use wai_bindgen.Runtime.Store.{
  write_closed_err, local_closed, local_ready, drop_error, drop_handle, Handle, sent, update,
}
use wai_bindgen.Runtime.Future.{
  close_future_with_error, drop_future_writer, spent, start_write, poll_write, cancel_mut_write,
}
use wai_bindgen.Runtime.Future.Reader.{consumed, poll_read, into_future, cancel_mut_read}
use wai_bindgen.Runtime.Future.Transfer.{
  unfinished, write-crosses, cancel_mut-restores, unanswered, read-crosses,
  close_future_with_error-drop,
}
use wai_bindgen.Runtime.Future.Local.{OffersFirst, WaitsFirst, transfer-panics}

-- A stream whose reader waits, and for which 5 has been sent.
abbrev answered : Session ℕ
answered = record (opened 7) {
  reader = record { handle = 7; future = some (waiting 7 0) };
  store = record {
    entries = λ j.
        if 7 == j
        then some local_open
        else (if 7 == j
            then some (local_waiting 0)
            else (if 7 == j then some local_open else none));
    log = Effect.send 0 5 ∷ [];
    next_sender = 1;
  };
  written = 5 ∷ [];
}

answered-Reaches : Reaches 7 answered
unfolding step IsAllowed can_read poll_next read_future start_send
answered-Reaches = move (send 5) (move (next true) start refl refl) refl refl

step-panics_example : (step answered (next true) ≡ panic) ↔ (delivers answered (next true) ≡ true)
unfolding IsAllowed can_read
step-panics_example = step-panics 7 answered (next true) answered-Reaches refl

reached-under_way_example :
    (under_way answered ≡ 5 ∷ []) × ((length answered.written ≤ 2) × (answered.delivered ≡ []))
reached-under_way_example = reached-under_way 7 answered answered-Reaches

drop_reader-arrived_example : (drop_reader answered.reader answered.store ≡ panic) ↔ (
    (tx : ℕ) × ((v : ℕ) × ((answered.reader.future ≡ some (waiting 7 tx))
        × (sent answered.store.log tx ≡ some v))))
drop_reader-arrived_example = drop_reader-arrived 7 answered answered-Reaches

-- A stream on which 5 has been sent, and not been polled.
abbrev queued : Session ℕ
queued = record (opened 7) {
  writer = record { handle = 7; future = some (local (some 5)) };
  written = 5 ∷ [];
}

queued-Reaches : Reaches 7 queued
unfolding step IsAllowed start_send
queued-Reaches = move (send 5) start refl refl

drop_writer-pending_example : (drop_writer queued.writer queued.store ≡ panic) ↔ (
    (queued.writer.future ≢ none) × ((v w : ℕ) → queued.store.entries 7 ≢ some (local_ready v w)))
drop_writer-pending_example = drop_writer-pending 7 queued queued-Reaches

-- A store with one stream or future, at 3.
abbrev holds : Handle ℕ → Store ℕ
holds x = record { entries = λ j. if 3 == j then some x else none; log = []; next_sender = 0 }

from_handle-take_handle_example :
    (s : Store ℕ) × (((take_handle (reader_at 3 none) >>= λ p. from_handle p.0) (holds read)
        ≡ ok (reader_at 3 none, s))
      × (((j : ℕ) → s.entries j ≡ (holds read).entries j) × (s.log ≡ [])))
from_handle-take_handle_example = from_handle-take_handle (holds read) 3 (inr refl)

ends-close_example :
    ((s s' : Store ℕ) × ((drop_writer (writer_at 3 none) (holds local_open) ≡ ok (tt, s))
        × (((s.entries 3 ≡ some local_closed) × (s.log ≡ []))
            × ((drop_reader (reader_at 3 none) s ≡ ok (tt, s'))
                × ((s'.entries 3 ≡ none) × (s'.log ≡ close_readable 3 ∷ []))))))
    × ((s s' : Store ℕ) × ((drop_reader (reader_at 3 none) (holds local_open) ≡ ok (tt, s))
          × (((s.entries 3 ≡ some local_closed) × (s.log ≡ []))
              × ((drop_writer (writer_at 3 none) s ≡ ok (tt, s'))
                  × ((s'.entries 3 ≡ none) × (s'.log ≡ close_writable 3 0 ∷ []))))))
ends-close_example = ends-close (holds local_open) 3 refl (λ e. absurd (omega arith))

write-crosses_example :
    (s : Store ℕ) × (((start_write 3 5 >>= unfinished 3 2 >>= λ c. poll_write 3 c 0 true)
          (holds write)
        ≡ ok ((ready tt, record { writer = none; future = spent }), s))
      × ((s.entries 3 ≡ none) × (s.log ≡ close_writable 3 0 ∷ [])))
write-crosses_example = write-crosses (holds write) 3 2 5 refl

abbrev answer : Answer ℕ
answer = record { host_read = ready (some (value 5)); received = pending }

read-crosses_example :
    (s : Store ℕ) × (((into_future 3 >>= unanswered 2 >>= λ c. poll_read c answer) (holds read)
        ≡ ok ((ready (some (value 5)), record { reader = none; future = consumed }), s))
      × ((s.entries 3 ≡ none) × (s.log ≡ close_readable 3 ∷ [])))
read-crosses_example =
    read-crosses (holds read) 3 2 (some (value 5)) answer refl (λ e. absurd (omega arith)) refl

close_future_with_error-drop_example :
    (s : Store ℕ) × (((close_future_with_error 3 9 >> drop_future_writer 3)
          (holds (write_closed_err (some 4)))
        ≡ ok (tt, s))
      × ((s.entries 3 ≡ none)
          × (s.log
              ≡ drop_error 9
                ++ close_writable 3 9 ∷ drop_handle (some (write_closed_err (some 4))))))
close_future_with_error-drop_example =
    close_future_with_error-drop (holds (write_closed_err (some 4))) 3 9 (write_closed_err (some 4))
      refl

cancel_mut-restores_example :
    (((holds local_open).entries 3 ≡ some write) ⊎ ((holds local_open).entries 3 ≡ some local_open)
      → (s : Store ℕ) × (((start_write 3 5 >>= λ c.
                poll_write 3 c 1 false >>= λ r. cancel_mut_write r.1)
              (holds local_open)
            ≡ ok (3, s))
          × ((j : ℕ) → s.entries j ≡ (holds local_open).entries j)))
    × (((holds local_open).entries 3 ≡ some read) ⊎ ((holds local_open).entries 3 ≡ some local_open)
        → (s : Store ℕ) × (((into_future 3 >>= cancel_mut_read) (holds local_open) ≡ ok (3, s))
            × ((j : ℕ) → s.entries j ≡ (holds local_open).entries j)))
cancel_mut-restores_example = cancel_mut-restores (holds local_open) 3 1 5

abbrev hears : Answer ℕ
hears = record { host_read = pending; received = ready (some 5) }

transfer-panics_example :
    OffersFirst (holds local_open) 3 1 5 × WaitsFirst (holds local_open) 3 1 5 hears
transfer-panics_example = transfer-panics (holds local_open) 3 1 5 hears refl refl

-- The host answers a read with 5, and leaves the next one pending.
abbrev answers : List (Answer ℕ)
answers = answer ∷ record { host_read = pending; received = pending } ∷ []

reads-cross_example :
    (s : Store ℕ) × (((poll_all (reader_at 3 none) answers >>= λ p. drop_reader p.1 >> pure p.0)
          (holds read)
        ≡ ok (map (λ a. a.host_read) answers, s))
      × (((j : ℕ) → s.entries j ≡ update (holds read).entries 3 none j)
          × (s.log
              ≡ close_readable 3
                ∷ (if ends_pending false answers then cancel_read 3 ∷ [] else []))))
reads-cross_example = reads-cross (holds read) 3 answers refl (λ e. absurd (omega arith))

-- 5 is finished at the third poll, and 6 at the first.
abbrev sends : List (ℕ × ℕ)
sends = (5, 2) ∷ (6, 0) ∷ []

writes-cross_example :
    (s : Store ℕ) × (((send_all (writer_at 3 none) sends >>= λ p.
    send_last (some 7) p.1 >>= λ w. drop_writer w >> pure p.0)
          (holds write)
        ≡ ok (5 ∷ 6 ∷ [], s))
      × (((j : ℕ) → s.entries j ≡ update (holds write).entries 3 none j)
          × (s.log ≡ close_writable 3 0 ∷ cancel_write 3 ∷ [])))
writes-cross_example = writes-cross (holds write) 3 sends (some 7) refl
