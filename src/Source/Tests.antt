-- ===== src/Source/Tests.antt =====
-- The unit tests of crates/core/src/source.rs, and the theorems on concrete texts.
use wai_bindgen.Prelude.{◌≡◌, refl, [], ◌∷◌, ◌++◌}
use wai_bindgen.Source.{empty_source, push_str, is_empty}
use wai_bindgen.Source.Str.{
  Text, is_whitespace, lines, trim, trim_start, ends_with_char, starts_with_char,
  starts_with_comment, ends_with_spaces,
}
use wai_bindgen.Source.Kept.{kept}
use wai_bindgen.Source.Written.{kept-push_str}
use wai_bindgen.Source.Files.{Files, push_file, find_file}
use wai_bindgen.Source.Files.Names.{text_lt}
use wai_bindgen.Source.Files.Sorted.{IsSorted, pushed, push_file-adds}
use wai_bindgen.Source.Layout.{
  Layout, stop, line, block, push_layout, layout_text, IsLayout, IsLine, unbroken, fresh,
  push_layout-text,
}

-- `f {`, `y` and `}`
abbrev opening : Text
opening = 102 ∷ 32 ∷ 123 ∷ []

abbrev inner : Text
inner = 121 ∷ []

abbrev closing : Text
closing = 125 ∷ []

-- `newline_remap`
newline_remap :
    (push_str
      (125 ∷ 10 ∷ [])
      (push_str (121 ∷ 10 ∷ []) (push_str (102 ∷ 32 ∷ 123 ∷ 10 ∷ []) empty_source))).s
    ≡ 102 ∷ 32 ∷ 123 ∷ 10 ∷ 32 ∷ 32 ∷ 121 ∷ 10 ∷ 125 ∷ 10 ∷ []
unfolding push_str lines ends_with_char starts_with_comment trim trim_start is_whitespace
    ends_with_spaces
newline_remap = refl

-- `trim_ws`
trim_ws :
    (push_str (123 ∷ 10 ∷ 32 ∷ 32 ∷ 32 ∷ 120 ∷ 10 ∷ 32 ∷ 125 ∷ []) empty_source).s
    ≡ 123 ∷ 10 ∷ 32 ∷ 32 ∷ 120 ∷ 10 ∷ 125 ∷ []
unfolding push_str lines ends_with_char starts_with_comment trim trim_start is_whitespace
    ends_with_spaces
trim_ws = refl

-- `simple_append`
simple_append :
    (push_str
      (10 ∷ 97 ∷ [])
      (push_str (32 ∷ 97 ∷ 32 ∷ []) (push_str (122 ∷ 32 ∷ []) empty_source))).s
    ≡ 122 ∷ 32 ∷ 32 ∷ 97 ∷ 32 ∷ 10 ∷ 97 ∷ []
unfolding push_str lines ends_with_char starts_with_comment trim trim_start is_whitespace
    ends_with_spaces
simple_append = refl

kept-push_str_example :
    kept (push_str closing (fresh (32 ∷ 32 ∷ []) 1)).s ≡ kept (32 ∷ 32 ∷ []) ++ kept closing
kept-push_str_example = kept-push_str closing (fresh (32 ∷ 32 ∷ []) 1)

abbrev sample : Layout
sample = block opening (line inner stop) closing stop

sample-IsLayout : IsLayout sample
unfolding IsLayout IsLine unbroken trim trim_start is_whitespace is_empty starts_with_comment
    ends_with_char starts_with_char
sample-IsLayout = (
  (refl, (refl, (refl, (refl, refl)))),
  (((refl, (refl, (refl, (refl, refl)))), tt), ((refl, (refl, (refl, (refl, refl)))), tt)),
)

push_layout-text_example : push_layout sample (fresh [] 1) ≡ fresh ([] ++ layout_text 1 sample) 1
push_layout-text_example = push_layout-text sample [] 1 sample-IsLayout

-- Files with the names `a` and `c`.
abbrev two_files : Files
two_files = (97 ∷ [], 1 ∷ []) ∷ (99 ∷ [], []) ∷ []

two_files-IsSorted : IsSorted two_files
unfolding IsSorted text_lt
two_files-IsSorted = ((refl, tt), (tt, tt))

push_file-adds_example :
    IsSorted (push_file (98 ∷ []) (7 ∷ []) two_files)
    × ((n : Text)
        → find_file n (push_file (98 ∷ []) (7 ∷ []) two_files)
          ≡ pushed (98 ∷ []) (7 ∷ []) two_files n)
push_file-adds_example = push_file-adds (98 ∷ []) (7 ∷ []) two_files two_files-IsSorted
