-- ===== src/Abi.antt =====
-- crates/core/src/abi.rs: the generator of the instructions that pass values between a language
-- and the canonical ABI.
pub mod Bitcast
pub mod Instruction
pub mod Generator
pub mod Lower
pub mod Lift
pub mod PostReturn
pub mod Deallocate
pub mod Call
pub mod Entry
mod Tests
