-- ===== src/Runtime/Stream.antt =====
-- crates/guest-rust/rt/src/async_support/stream_support.rs: the two ends of a stream. The futures
-- that they hold are data: what `poll_fn` and the `async` blocks capture. A poll of the host's
-- future, or of the receiving end of a channel, is answered by an argument. `V` is `Vec<T>`.
pub mod Writer
pub mod Reader
pub mod Session
pub mod Phases
pub mod Writes
pub mod Reads
pub mod Steps
pub mod Local
pub mod Ends
pub mod Crossing
use wai_bindgen.Prelude.{ℕ, ◌/◌, ◌%◌, ◌+◌, Option, ◌==◌, if◌then◌else◌}
use wai_bindgen.Runtime.Store.{Poll, ErrorContext}

unfoldable pub ceiling : ℕ → ℕ → ℕ
ceiling x y = x / y + (if x % y == 0 then 0 else 1)

-- `Result<Vec<T>, ErrorContext>`
pub data Item (V : Type 0) : Type 0 where
  value : V → Item V
  error : ErrorContext → Item V

-- The future of a write; both hold a `CancelWriteOnDrop` until they are done.
pub data WriteFuture (V : Type 0) : Type 0 where
  local : Option V → WriteFuture V
  host : V → WriteFuture V

-- The future of a read; the first two hold a `CancelReadOnDrop` until they are done, with the handle
-- that the reader had when the read started, and `waiting` the receiver.
pub data ReadFuture (V : Type 0) : Type 0 where
  host : ℕ → ReadFuture V
  waiting : ℕ → ℕ → ReadFuture V
  done : Option (Item V) → ReadFuture V

pub record StreamWriter (V : Type 0) : Type 0 where
  pub handle : ℕ
  pub future : Option (WriteFuture V)

pub record StreamReader (V : Type 0) : Type 0 where
  pub handle : ℕ
  pub future : Option (ReadFuture V)

-- The answers of the futures that are not the runtime's own: the host's read, and the receiver.
pub record Answer (V : Type 0) : Type 0 where
  pub host_read : Poll (Option (Item V))
  pub received : Poll (Option V)

-- `u32::MAX`, for a handle that has been taken.
abbrev pub taken_handle : ℕ
taken_handle = 4294967295
