-- ===== src/Runtime/Allocate.antt =====
-- crates/guest-rust/rt/src/lib.rs: `cabi_realloc`, in a build with debug assertions. The allocator
-- is a parameter; a null pointer is 0, and `handle_alloc_error` ends the program as a panic does.
use wai_bindgen.Prelude.{ℕ, ◌==◌, if◌then◌else◌}
use wai_bindgen.Runtime.Store.{Outcome, ok, panic}

module _ (alloc : ℕ → ℕ → ℕ) (realloc : ℕ → ℕ → ℕ → ℕ → ℕ) where
  unless_null : ℕ → Outcome ℕ
  unless_null ptr = if ptr == 0 then panic else ok ptr

  unfoldable pub cabi_realloc : ℕ → ℕ → ℕ → ℕ → Outcome ℕ
  unfolding unless_null
  cabi_realloc old_ptr old_len align new_len =
      if old_len == 0
      then (if new_len == 0 then ok align else unless_null (alloc new_len align))
      else (if new_len == 0 then panic else unless_null (realloc old_ptr old_len align new_len))
