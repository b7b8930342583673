-- ===== src/Runtime/Stream/Phases.antt =====
-- Where the two ends of a stream within a component stand.
use wai_bindgen.Prelude.{ℕ, ◌≤◌, ◌<◌, ◌≡◌, Option, none, some, List, [], ◌∷◌}
use wai_bindgen.Runtime.Store.{local_open, local_ready, local_waiting, Store, sent}
use wai_bindgen.Runtime.Stream.{WriteFuture, local, ReadFuture, waiting, StreamWriter, StreamReader}

module _ {V : Type 0} where
  -- No channel that is still to be made has a value.
  abbrev pub IsFresh : Store V → Type 0
  IsFresh s = (t : ℕ) → s.next_sender ≤ t → sent s.log t ≡ none

  -- Where the ends and the entry stand, with the values that are under way.
  pub data Phase (h : ℕ) (s : Store V)
      : Option (WriteFuture V) → Option (ReadFuture V) → List V → Type 0 where
    idle : s.entries h ≡ some local_open → Phase h s none none []
    queued :
        (v : V) → s.entries h ≡ some local_open → Phase h s (some (local (some v))) none (v ∷ [])
    offered :
        (v : V) (w : ℕ)
        → s.entries h ≡ some (local_ready v w)
        → Phase h s (some (local none)) none (v ∷ [])
    awaiting :
        (tx : ℕ)
        → s.entries h ≡ some (local_waiting tx)
        → sent s.log tx ≡ none
        → tx < s.next_sender
        → Phase h s none (some (waiting h tx)) []
    arrived :
        (tx : ℕ) (v : V)
        → s.entries h ≡ some local_open
        → sent s.log tx ≡ some v
        → Phase h s none (some (waiting h tx)) (v ∷ [])
    arrived_queued :
        (tx : ℕ) (v u : V)
        → s.entries h ≡ some local_open
        → sent s.log tx ≡ some v
        → Phase h s (some (local (some u))) (some (waiting h tx)) (v ∷ u ∷ [])
    arrived_offered :
        (tx : ℕ) (v u : V) (w : ℕ)
        → s.entries h ≡ some (local_ready u w)
        → sent s.log tx ≡ some v
        → Phase h s (some (local none)) (some (waiting h tx)) (v ∷ u ∷ [])

  abbrev pub writer_at : ℕ → Option (WriteFuture V) → StreamWriter V
  writer_at h f = record { handle = h; future = f }

  abbrev pub reader_at : ℕ → Option (ReadFuture V) → StreamReader V
  reader_at h f = record { handle = h; future = f }
