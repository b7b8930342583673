-- ===== src/Runtime.antt =====
-- crates/guest-rust/rt: the runtime that the bindings of Rust guests link.
pub mod Store
pub mod Stream
pub mod Future
pub mod Task
mod Tests
pub mod Allocate
