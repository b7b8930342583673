-- ===== src/Source/Files.antt =====
-- crates/core/src/source.rs: `Files`. The `BTreeMap` is the list of its entries in the order of
-- their names, which are compared as `str` does; a file's bytes are a list of numbers.
pub mod Names
pub mod Sorted
use wai_bindgen.Prelude.{ℕ, Option, none, some, List, [], ◌∷◌, ◌++◌, length, if◌then◌else◌}
use wai_bindgen.Source.Str.{Text}
use wai_bindgen.Source.Files.Names.{text_lt}
use wai_bindgen.Ns.Names.{text_eq}

abbrev pub Files : Type 0
Files = List (Text × List ℕ)

unfoldable pub push_file : Text → List ℕ → Files → Files
push_file name contents [] = (name, contents) ∷ []
push_file name contents ((k, bytes) ∷ files) =
    let rest = push_file name contents files in
    if text_eq name k
    then (k, bytes ++ contents) ∷ files
    else if text_lt name k
    then (name, contents) ∷ (k, bytes) ∷ files
    else (k, bytes) ∷ rest

-- `self.files.get(name)`
unfoldable pub find_file : Text → Files → Option (List ℕ)
find_file name [] = none
find_file name ((k, bytes) ∷ files) =
    let rest = find_file name files in if text_eq name k then some bytes else rest

unfoldable pub get_size : Text → Files → Option ℕ
unfolding find_file
get_size name files = elim (find_file name files) [ none ↦ none | some bytes ↦ some (length bytes) ]

unfoldable pub without_file : Text → Files → Files
without_file name [] = []
without_file name ((k, bytes) ∷ files) =
    let rest = without_file name files in if text_eq name k then files else (k, bytes) ∷ rest

unfoldable pub remove_file : Text → Files → Option (List ℕ) × Files
unfolding find_file without_file
remove_file name files = (find_file name files, without_file name files)
