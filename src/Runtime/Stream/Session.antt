-- ===== src/Runtime/Stream/Session.antt =====
-- Both ends of one stream in use within a component: the operations of
-- crates/guest-rust/rt/src/async_support/stream_support.rs in any order that the protocol allows.
use wai_bindgen.Prelude.{
  ℕ, ◌≡◌, Bool, true, false, Option, none, some, List, [], ◌∷◌, ◌++◌, ◌==◌, if◌then◌else◌,
}
use wai_bindgen.Runtime.Store.{
  Outcome, ok, panic, Poll, ready, pending, Handle, local_open, local_ready, Store, sent,
}
use wai_bindgen.Runtime.Stream.{
  Item, value, WriteFuture, local, ReadFuture, waiting, StreamWriter, StreamReader,
}
use wai_bindgen.Runtime.Stream.Writer.{poll_ready, start_send}
use wai_bindgen.Runtime.Stream.Reader.{poll_next}

-- The ends, with what has been sent and what has been read so far.
pub record Session (V : Type 0) : Type 0 where
  pub writer : StreamWriter V
  pub reader : StreamReader V
  pub store : Store V
  pub written : List V
  pub delivered : List V

-- A receiver may hear at a poll what was sent on its channel, or later.
pub data Move (V : Type 0) : Type 0 where
  send : V → Move V
  flush : ℕ → Move V
  next : Bool → Move V

module _ {V : Type 0} where
  unfoldable pub heard : Option V → Poll (Option V)
  heard (some v) = ready (some v)
  heard none = pending

  unfoldable pub receive : Store V → Option (ReadFuture V) → Bool → Poll (Option V)
  unfolding heard
  receive s (some (waiting h tx)) true = heard (sent s.log tx)
  receive s f b = pending

  unfoldable pub collect : List V → Poll (Option (Item V)) → List V
  collect l (ready (some (value v))) = l ++ v ∷ []
  collect l _ = l

  unfoldable pub sending : Session V → V → Outcome (StreamWriter V × Store V) → Outcome (Session V)
  sending c v (ok (w, s)) = ok (record c { writer = w; store = s; written = c.written ++ v ∷ [] })
  sending c v panic = panic

  unfoldable pub flushing :
      Session V → Outcome ((Poll (Unit {0}) × StreamWriter V) × Store V) → Outcome (Session V)
  flushing c (ok (r, s)) = ok (record c { writer = r.1; store = s })
  flushing c panic = panic

  unfoldable pub reading :
      Session V
      → Outcome ((Poll (Option (Item V)) × StreamReader V) × Store V)
      → Outcome (Session V)
  reading c (ok (r, s)) =
      ok (record c { reader = r.1; store = s; delivered = collect c.delivered r.0 })
  reading c panic = panic

  unfoldable pub step : Session V → Move V → Outcome (Session V)
  unfolding sending flushing reading receive collect heard
  step c (send v) = sending c v (start_send c.writer v c.store)
  step c (flush waker) = flushing c (poll_ready c.writer waker false c.store)
  step c (next hears) = reading c (
      poll_next c.reader
        (record { host_read = pending; received = receive c.store c.reader.future hears }) c.store)

  -- A new read waits for a pending write to offer its value.
  unfoldable pub can_read :
      Option (WriteFuture V) → Option (ReadFuture V) → Option (Handle V) → Bool
  can_read w (some f) e = true
  can_read none none e = true
  can_read (some f) none (some (local_ready v w)) = true
  can_read (some f) none _ = false

  unfoldable pub delivers_at : Bool → Store V → Option (ReadFuture V) → Option (Handle V) → Bool
  delivers_at hears s none (some (local_ready v w)) = true
  delivers_at true s (some (waiting h tx)) e = elim (sent s.log tx) [ none ↦ false | some v ↦ true ]
  delivers_at hears s f e = false

  -- A poll of the reader comes to a value: one on offer where it starts to read, or one on the
  -- channel of its read, which it hears.
  unfoldable pub delivers : Session V → Move V → Bool
  delivers c (next hears) =
      delivers_at hears c.store c.reader.future (c.store.entries c.reader.handle)
  delivers c m = false

  unfoldable pub on_channel : Store V → Option (ReadFuture V) → List V
  on_channel s (some (waiting h tx)) = elim (sent s.log tx) [ none ↦ [] | some v ↦ v ∷ [] ]
  on_channel s f = []

  unfoldable pub on_offer : Option (Handle V) → List V
  on_offer (some (local_ready v w)) = v ∷ []
  on_offer e = []

  unfoldable pub in_write : Option (WriteFuture V) → List V
  in_write (some (local (some v))) = v ∷ []
  in_write f = []

  -- The values under way: on the channel of the read, on offer, and in the pending write.
  unfoldable pub under_way : Session V → List V
  under_way c =
      on_channel c.store c.reader.future
      ++ on_offer (c.store.entries c.writer.handle)
      ++ in_write c.writer.future

  -- The protocol: a value is sent where no write is pending.
  unfoldable pub IsAllowed : Session V → Move V → Type 0
  IsAllowed c (send v) = c.writer.future ≡ none
  IsAllowed c (flush waker) = Unit
  IsAllowed c (next hears) =
      can_read c.writer.future c.reader.future (c.store.entries c.reader.handle) ≡ true

  -- A new stream, whose entry generated code makes (`Handle::LocalOpen`).
  abbrev pub opened : ℕ → Session V
  opened h = record {
    writer = record { handle = h; future = none };
    reader = record { handle = h; future = none };
    store = record {
      entries = λ j. if h == j then some local_open else none;
      log = [];
      next_sender = 0;
    };
    written = [];
    delivered = [];
  }

  -- What the protocol can reach.
  pub data Reaches (h : ℕ) : Session V → Type 0 where
    start : Reaches h (opened h)
    move :
        {c c' : Session V} (m : Move V)
        → Reaches h c
        → IsAllowed c m
        → step c m ≡ ok c'
        → Reaches h c'
