-- ===== src/Source/Files/Sorted.antt =====
-- The files stand in the order of their names, and a push adds to one file.
use wai_bindgen.Prelude.{
  ℕ, ◌≡◌, refl, subst, true, false, Option, none, some, List, [], ◌∷◌, ◌++◌, All, All-map,
  if◌then◌else◌, arith, inl, inr, Bool-cases,
}
use wai_bindgen.Source.Str.{Text}
use wai_bindgen.Source.Files.{Files, push_file, find_file}
use wai_bindgen.Source.Files.Names.{text_lt, text_eq_of_lt, text_lt_of_not, text_lt_trans}
use wai_bindgen.Ns.Names.{text_eq, text_eq_sound}

abbrev Above : Text → Files → Type 0
Above k files = All (λ e. text_lt k e.0 ≡ true) files

-- Each name is before all names behind it.
unfoldable pub IsSorted : Files → Type 0
IsSorted [] = Unit
IsSorted ((k, bytes) ∷ files) = Above k files × IsSorted files

module _ (name k : Text) (contents bytes : List ℕ) (files : Files) where
  push_same :
      text_eq name k ≡ true
      → (k, bytes ++ contents) ∷ files ≡ push_file name contents ((k, bytes) ∷ files)
  unfolding push_file
  push_same same = ground (arith, same)

  push_before :
      text_eq name k ≡ false
      → text_lt name k ≡ true
      → (name, contents) ∷ (k, bytes) ∷ files ≡ push_file name contents ((k, bytes) ∷ files)
  unfolding push_file
  push_before other before = ground (arith, other, before)

  push_after :
      text_eq name k ≡ false
      → text_lt name k ≡ false
      → (k, bytes) ∷ push_file name contents files ≡ push_file name contents ((k, bytes) ∷ files)
  unfolding push_file
  push_after other after = ground (arith, other, after)

push_file-Above :
    (k name : Text) (contents : List ℕ) (files : Files)
    → text_lt k name ≡ true
    → Above k files
    → Above k (push_file name contents files)
unfolding push_file
push_file-Above k name contents [] e a = (e, tt)
push_file-Above k name contents ((l, bytes) ∷ files) e a =
    let ih = push_file-Above k name contents files e a.1 in
    elim (Bool-cases (text_eq name l)) [
      | inl same ↦ subst (Above k) (push_same name l contents bytes files same) (a.0, a.1)
      | inr other ↦ elim (Bool-cases (text_lt name l)) [
        | inl before ↦
            subst (Above k) (push_before name l contents bytes files other before) (e, (a.0, a.1))
        | inr after ↦ subst (Above k) (push_after name l contents bytes files other after) (a.0, ih)
      ]
    ]

push_file-IsSorted :
    (name : Text) (contents : List ℕ) (files : Files)
    → IsSorted files
    → IsSorted (push_file name contents files)
unfolding push_file IsSorted
push_file-IsSorted name contents [] s = (tt, tt)
push_file-IsSorted name contents ((k, bytes) ∷ files) s =
    let ih = push_file-IsSorted name contents files s.1 in
    elim (Bool-cases (text_eq name k)) [
      | inl same ↦ subst IsSorted (push_same name k contents bytes files same) (s.0, s.1)
      | inr other ↦ elim (Bool-cases (text_lt name k)) [
        | inl before ↦
            subst IsSorted (push_before name k contents bytes files other before)
              ((before, All-map (λ e l. text_lt_trans name k e.0 before l) files s.0), (s.0, s.1))
        | inr after ↦
            subst IsSorted (push_after name k contents bytes files other after)
              (push_file-Above k name contents files (text_lt_of_not name k other after) s.0, ih)
      ]
    ]

find_file-Above : (name : Text) (files : Files) → Above name files → find_file name files ≡ none
unfolding find_file
find_file-Above name [] a = refl
find_file-Above name ((k, bytes) ∷ files) a =
    ground (arith, text_eq_of_lt name k a.0, find_file-Above name files a.1)

-- What a file has after a push to `name`.
abbrev pub pushed : Text → List ℕ → Files → Text → Option (List ℕ)
pushed name contents files n =
    if text_eq n name
    then some (elim (find_file name files) [ none ↦ [] | some bytes ↦ bytes ] ++ contents)
    else find_file n files

find_file-push_file :
    (name : Text) (contents : List ℕ) (files : Files) (n : Text)
    → IsSorted files
    → find_file n (push_file name contents files) ≡ pushed name contents files n
unfolding find_file push_file IsSorted
find_file-push_file name contents [] n s = ground arith
find_file-push_file name contents ((k, bytes) ∷ files) n s =
    let ih = find_file-push_file name contents files n s.1 in
    elim (Bool-cases (text_eq name k)) [
      | inl same ↦ (let equal = text_eq_sound name k same in ground (arith, same, equal))
      | inr other ↦ elim (Bool-cases (text_lt name k)) [
        | inl before ↦
            (let absent =
                find_file-Above name files
                  (All-map (λ e l. text_lt_trans name k e.0 before l) files s.0) in
              ground (arith, other, before, absent))
        | inr after ↦ elim (Bool-cases (text_eq n name)) [
          | inl own ↦
              (let equal = text_eq_sound n name own in ground (arith, other, after, own, equal, ih))
          | inr foreign ↦ ground (arith, other, after, foreign, ih)
        ]
      ]
    ]

-- A push to files in the order of their names leaves them in that order; the named file has what it
-- had, if anything, and then what is pushed, and all other files are as they were.
pub push_file-adds :
    (name : Text) (contents : List ℕ) (files : Files)
    → IsSorted files
    → IsSorted (push_file name contents files)
      × ((n : Text) → find_file n (push_file name contents files) ≡ pushed name contents files n)
push_file-adds name contents files s =
    (push_file-IsSorted name contents files s, λ n. find_file-push_file name contents files n s)
