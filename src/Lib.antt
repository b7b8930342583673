-- ===== src/Lib.antt =====
-- A verification library for wit-bindgen, which generates the bindings of a language for the
-- interfaces of WebAssembly components. Its core is the generator of crates/core/src/abi.rs: given
-- a function's type, it emits the instructions of an abstract stack machine that pass the function's
-- arguments and results between the language and the canonical ABI. The backends (crates/rust,
-- crates/c, crates/csharp and others) implement the trait `Bindgen` and turn each instruction into
-- source text. What they print goes through `Source` and `Ns` of crates/core. Rust code that is
-- generated for asynchronous functions runs on crates/guest-rust/rt, whose tasks wait for the host
-- and whose streams and futures are shared by the ends that a component has.
--
-- Files:
--   * Wit: the data types of the package `wit_parser` that the core matches on, and its methods as
--     the record `Wit`, a parameter. Wit/Laws: what the core relies on of them. Wit/Join: how flat
--     types are joined.
--   * Abi/Instruction and Abi/Bitcast: `Instruction`, `Bitcast` and `cast`. A panic of `cast` is
--     `none`.
--   * Abi/Generator: `Generator`, `Bindgen` and `emit`. A method of `Generator` is a function from
--     the generator's state to the next state or a panic. Generator/Effect has the judgement that
--     the proofs are about: how many operands a method takes and leaves, without a panic.
--   * Abi/Lower and Abi/Lift: `lower`, `write_to_memory`, `lift`, `read_from_memory` and their
--     helpers, one function for each method.
--   * Abi/PostReturn and Abi/Deallocate: `needs_post_return` and `deallocate`.
--   * Abi/Call: `Generator::call`, cut at its closures and branches. Abi/Entry: `lower_to_memory`,
--     `lift_from_memory` and `post_return`.
--   * Types: `TypeInfo` and `Types::type_id_info` of crates/core/src/types.rs, with the map of the
--     recorded infos as an association list. Types/Analyze: `Types::analyze`, with the ids that
--     `LiveTypes` of `wit_parser` yields as a parameter, and `dealias` of crates/core/src/lib.rs.
--   * World: `WorldGenerator::generate` of crates/core/src/lib.rs, with the methods of a backend as
--     a record.
--   * Source: `Source` of crates/core/src/source.rs. A string is the list of its code points, and
--     Source/Str has what `str` gives. Source/Files: `Files`, its map as a list in the order of the
--     names. Ns: crates/core/src/ns.rs; its loop takes fuel, one test for each name in use and two
--     more, and the number of the next suffix does not wrap.
--   * Runtime/Store: `Handle` and `HANDLES` of crates/guest-rust/rt/src/async_support.rs. An
--     operation on them is a function from the map, with a log of what is done outside of it, to
--     the next or a panic (`unreachable!()`, `assert!` and `unwrap`).
--   * Runtime/Stream and Runtime/Future: stream_support.rs and future_support.rs beside it, one
--     function for each method and each `Drop`. What a boxed Rust future captures is data, and a
--     poll of a future of the host, or of a receiver, is answered by an argument. The readers
--     downcast a value that a writer in the same component has boxed to another type than it has,
--     which is a panic. Runtime/Stream/Crossing: streams to and from other components.
--     Runtime/Stream/Session: both ends of one stream in use, as the moves of a relation; a value
--     is sent where no write is pending, as the trait `Sink` asks, and a new read does not start
--     while the value of a pending write is not on offer, since the write would panic.
--   * Runtime/Task: `poll`, `first_poll`, `callback` and what is awaited in async_support.rs. The
--     set of futures of a task, a `FuturesUnordered`, is a parameter. `poll` takes fuel: one turn
--     of its loop for each future in the set, two for each task that is still to be spawned or put
--     in the set, and one.
--   * Runtime/Allocate: `cabi_realloc` of crates/guest-rust/rt/src/lib.rs, with the allocator as a
--     parameter.
--   * Abi/Tests, Types/Tests, World/Tests, Source/Tests, Ns/Tests and Runtime/Tests: the theorems on
--     concrete inputs.
--
-- The recursion over types goes through the table of definitions, so `lower`, `lift` and the others
-- take fuel. A resolution is well-formed if each definition refers to definitions of lower rank
-- only; fuel `2 * r + 2` is enough for types of rank below `r`.
--
-- Numbers: `i32` offsets are numbers below 2 ^ 32, and their sums wrap. Sizes and alignments are
-- those for a 32-bit memory.
--
-- The variants `GuestImportAsync`, `GuestExportAsync` and `GuestExportAsyncStackful`, which no
-- generator of the repository passes, are in the model; the theorems about calls are about the
-- other two.
--
-- Not modelled: the backends, whose work is to print source text; crates/core/src/path.rs and
-- the dispatch of types in crates/core/src/lib.rs; of crates/guest-rust, `block_on`,
-- `run_ctors_once` and the canonical built-ins, which are calls of the host, and the macro; the
-- command line and the tests.
pub mod Prelude
pub mod Wit
pub mod Abi
pub mod Types
pub mod Runtime
pub mod Source
pub mod Ns
pub mod World
