-- ===== src/Source/Str.antt =====
-- What `str` of the standard library gives to crates/core/src/source.rs, on lists of code points.
use wai_bindgen.Prelude.{
  ℕ, zero, suc, Bool, false, ◌&&◌, ◌||◌, List, [], ◌∷◌, reverse, ◌==◌, leb, if◌then◌else◌,
}

abbrev pub Text : Type 0
Text = List ℕ

abbrev pub newline_char : ℕ
newline_char = 10

abbrev pub carriage_return : ℕ
carriage_return = 13

abbrev pub space : ℕ
space = 32

abbrev pub slash : ℕ
slash = 47

abbrev pub open_brace : ℕ
open_brace = 123

abbrev pub close_brace : ℕ
close_brace = 125

-- `char::is_whitespace`, the property White_Space of Unicode.
unfoldable pub is_whitespace : ℕ → Bool
is_whitespace c =
    (leb 9 c && leb c 13)
    || (c == 32)
    || (c == 133)
    || (c == 160)
    || (c == 5760)
    || (leb 8192 c && leb c 8202)
    || (c == 8232)
    || (c == 8233)
    || (c == 8239)
    || (c == 8287)
    || (c == 12288)

unfoldable pub trim_start : Text → Text
trim_start [] = []
trim_start (c ∷ cs) = let rest = trim_start cs in if is_whitespace c then rest else c ∷ cs

unfoldable pub trim : Text → Text
trim s = reverse (trim_start (reverse (trim_start s)))

unfoldable pub starts_with_char : ℕ → Text → Bool
starts_with_char c [] = false
starts_with_char c (d ∷ s) = c == d

-- `starts_with("//")`
unfoldable pub starts_with_comment : Text → Bool
starts_with_comment (c ∷ d ∷ s) = (c == slash) && (d == slash)
starts_with_comment _ = false

unfoldable pub ends_with_char : ℕ → Text → Bool
unfolding starts_with_char
ends_with_char c s = starts_with_char c (reverse s)

unfoldable pub two_spaces : Text → Bool
two_spaces (c ∷ d ∷ s) = (c == space) && (d == space)
two_spaces _ = false

-- `ends_with("  ")`
unfoldable pub ends_with_spaces : Text → Bool
unfolding two_spaces
ends_with_spaces s = two_spaces (reverse s)

abbrev pub replicate : ℕ → ℕ → Text
replicate zero c = []
replicate (suc n) c = c ∷ replicate n c

unfoldable pub cons_first : ℕ → List Text → List Text
cons_first c [] = (c ∷ []) ∷ []
cons_first c (l ∷ ls) = (c ∷ l) ∷ ls

-- A line ends at a newline, with a carriage return before it.
unfoldable pub lines : Text → List Text
unfolding cons_first starts_with_char
lines [] = []
lines (c ∷ cs) =
    let rest = lines cs in
    if c == newline_char
    then [] ∷ rest
    else if (c == carriage_return) && starts_with_char newline_char cs
    then rest
    else cons_first c rest
