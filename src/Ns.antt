-- ===== src/Ns.antt =====
-- crates/core/src/ns.rs: the names in use in a generated file.
pub mod Names
pub mod Decimal
pub mod Fresh
mod Tests
use wai_bindgen.Prelude.{
  ℕ, zero, suc, ◌+◌, Option, none, some, List, ◌∷◌, ◌++◌, length, if◌then◌else◌,
}
use wai_bindgen.Source.Str.{Text}
use wai_bindgen.Ns.Names.{contains, decimal}

-- `tmp` is the number of the next suffix.
pub record Ns : Type 0 where
  pub defined : List Text
  pub suffix : ℕ

-- `Ns::insert`; an error carries the name.
unfoldable pub insert_name : Text → Ns → Option Text × Ns
insert_name name self =
    if contains name self.defined
    then (some name, self)
    else (none, record self { defined = name ∷ self.defined })

-- The loop of `Ns::tmp` with its last two lines, with at most `fuel` tests of its condition.
unfoldable pub tmp_loop : ℕ → Text → Text → Ns → Option (Text × Ns)
tmp_loop zero name ret self = none
tmp_loop (suc fuel) name ret self =
    let next =
      tmp_loop fuel name (name ++ decimal self.suffix) (record self { suffix = self.suffix + 1 }) in
    if contains ret self.defined
    then next
    else some (ret, record self { defined = ret ∷ self.defined })

-- `Ns::tmp`
unfoldable pub tmp : Text → Ns → Option (Text × Ns)
tmp name self = tmp_loop (suc (suc (length self.defined))) name name self
