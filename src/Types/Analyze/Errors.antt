-- ===== src/Types/Analyze/Errors.antt =====
-- The aliases and the errors of results in crates/core/src/types.rs.
use wai_bindgen.Prelude.{
  ℕ, zero, suc, ◌≡◌, ◌≢◌, ◌<◌, refl, ap, ◌∙◌, Bool, false, ◌||◌, Option, none, some, List, [], ◌∷◌,
  ◌==◌, if◌then◌else◌, All, arith, inl, inr, Option-cases,
}
use wai_bindgen.Wit.{Wit, WitType, TypeId, TypeDef, TypeDefKind, type_def}
use wai_bindgen.Abi.Generator.{Result, ok, panic}
use wai_bindgen.Types.{TypeInfo, Types, get}
use wai_bindgen.Types.Analyze.{
  modify, set_info, set_error, dealias, mark_error, mark_error_kind, mark_errors,
}
use wai_bindgen.Types.Analyze.Marks.{
  change, get-modify, Recorded, Marks, IsDefined, set_info-Recorded, modify-Recorded, both_marks,
}

module _ (w : Wit) where
  -- `j` is the definition behind the aliases from `i`.
  pub data DefinedBy : TypeId → TypeId → Type 0 where
    here :
        {i : TypeId} (d : TypeDef)
        → type_def w i ≡ some d
        → ((j : TypeId) → d.kind ≢ TypeDefKind.type (WitType.id j))
        → DefinedBy i i
    there :
        {i j k : TypeId} (d : TypeDef)
        → type_def w i ≡ some d
        → d.kind ≡ TypeDefKind.type (WitType.id j)
        → DefinedBy j k
        → DefinedBy i k

  pub DefinedBy-defined : {i j : TypeId} → DefinedBy i j → type_def w j ≢ none
  DefinedBy-defined (here d e n) q = ground arith
  DefinedBy-defined (there d e k r) q = DefinedBy-defined r q

  dealias_at :
      (n : ℕ) (i : TypeId) (d : TypeDef) (k : TypeDefKind)
      → type_def w i ≡ some d
      → d.kind ≡ k
      → ((j : TypeId)
          → k ≡ TypeDefKind.type (WitType.id j)
          → (l : TypeId) × ((dealias w n j ≡ ok l) × DefinedBy j l))
      → (l : TypeId) × ((dealias w (suc n) i ≡ ok l) × DefinedBy i l)
  unfolding dealias
  dealias_at n i d (TypeDefKind.type (WitType.id j)) e same rest =
      let q = rest j refl in (q.0, (ground (arith, e, same, q.1.0), there d e same q.1.1))
  dealias_at n i d (TypeDefKind.type _) e same rest =
      (i, (ground (arith, e, same), here d e (λ j q. ground (arith, same, q))))
  dealias_at n i d _ e same rest =
      (i, (ground (arith, e, same), here d e (λ j q. ground (arith, same, q))))

  -- Where each alias is of a type of lower rank, `dealias` finds the definition behind the aliases,
  -- with more fuel than the type's rank.
  pub dealias-DefinedBy :
      (rank : TypeId → ℕ)
      → ((i j : TypeId) (d : TypeDef)
          → type_def w i ≡ some d
          → d.kind ≡ TypeDefKind.type (WitType.id j)
          → (type_def w j ≢ none) × (rank j < rank i))
      → (n : ℕ) (i : TypeId) → type_def w i ≢ none
      → rank i < n
      → (l : TypeId) × ((dealias w n i ≡ ok l) × DefinedBy i l)
  dealias-DefinedBy rank aliases zero i e lt = absurd (omega arith)
  dealias-DefinedBy rank aliases (suc n) i e lt = elim (Option-cases (type_def w i)) [
    | inl q ↦ absurd (e q)
    | inr q ↦ dealias_at n i q.0 q.0.kind q.1 refl (λ j k.
        let a = aliases i j q.0 q.1 k in
        dealias-DefinedBy rank aliases n j a.0 (omega (arith, a.1, lt)))
  ]

  error_of_kind : TypeDefKind → Option TypeId
  error_of_kind (TypeDefKind.result a (some (WitType.id e))) = some e
  error_of_kind _ = none

  -- The id of the error of a result.
  unfoldable pub error_of : WitType → Option TypeId
  unfolding error_of_kind
  error_of (WitType.id i) = elim (type_def w i) [ none ↦ none | some d ↦ error_of_kind d.kind ]
  error_of _ = none

  -- Whether `j` is the definition of the error of one of some types.
  unfoldable pub hits_error : ℕ → List WitType → TypeId → Bool
  hits_error n [] j = false
  hits_error n (t ∷ ts) j =
      elim (error_of t) [
        | none ↦ false
        | some e ↦ elim (dealias w n e) [ ok i ↦ j == i | panic p ↦ false ]
      ]
      || hits_error n ts j

  set_error_at : ℕ → Option TypeId → Types → Result Types
  set_error_at n none m = ok m
  set_error_at n (some e) m = elim (dealias w n e) [
    | panic p ↦ panic p
    | ok i ↦ set_info set_error i m
  ]

  kind_shape :
      (n : ℕ) (k : TypeDefKind) (m : Types)
      → mark_error_kind w n k m ≡ set_error_at n (error_of_kind k) m
  unfolding mark_error_kind set_error_at error_of_kind
  kind_shape n (TypeDefKind.result a (some (WitType.id e))) m = refl
  kind_shape n (TypeDefKind.result a none) m = refl
  kind_shape n (TypeDefKind.result a (some _)) m = refl
  kind_shape n _ m = refl

  shape :
      (n : ℕ) (t : WitType) (m : Types)
      → IsDefined w t
      → mark_error w n t m ≡ set_error_at n (error_of t) m
  unfolding mark_error error_of IsDefined set_error_at
  shape n (WitType.id i) m d = elim (Option-cases (type_def w i)) [
    | inl q ↦ absurd (d q)
    | inr q ↦ ground (arith, q.1, kind_shape n q.0.kind m)
  ]
  shape n _ m d = refl

  -- The errors of results are types that there are, and `dealias` finds their definitions.
  unfoldable pub FindsErrors : ℕ → WitType → Type 0
  FindsErrors n t =
      (e : TypeId)
      → error_of t ≡ some e
      → (l : TypeId) × ((dealias w n e ≡ ok l) × (type_def w l ≢ none))

  set_error_idem : (x : TypeInfo) → set_error (set_error x) ≡ set_error x
  unfolding set_error
  set_error_idem x = refl

  -- The definitions of the errors are marked.
  pub mark_errors-Marks :
      (n : ℕ) (ts : List WitType) (m : Types)
      → All (IsDefined w) ts
      → All (FindsErrors n) ts
      → Recorded w m
      → Marks w set_error (hits_error n ts) m (mark_errors w n ts m)
  unfolding mark_errors hits_error FindsErrors set_error_at
  mark_errors-Marks n [] m a b r = record { after = m; runs = refl; marks = λ j. refl }
  mark_errors-Marks n (t ∷ ts) m a b r = elim (Option-cases (error_of t)) [
    | inl q ↦
        let ih = mark_errors-Marks n ts m a.1 b.1 r in
        record {
          after = ih.after;
          runs = ground (arith, q, shape n t m a.0) ∙ ih.runs;
          marks = λ j. ground (arith, ih.marks j, q);
        }
    | inr q ↦
        let found = b.0 q.0 q.1 in
        let i = found.0 in
        let ih =
          mark_errors-Marks n ts (modify set_error i m) a.1 b.1
            (modify-Recorded w set_error i m r) in
        record {
          after = ih.after;
          runs =
              ground (
                arith,
                q.1,
                shape n t m a.0,
                found.1.0,
                set_info-Recorded w set_error i m r found.1.1,
              )
              ∙ ih.runs;
          marks = λ j.
              ih.marks j
              ∙ ap (λ o. if hits_error n ts j then change set_error o else o)
                  (get-modify set_error i m j)
              ∙ both_marks w set_error set_error_idem (get m j) (j == i) (hits_error n ts j)
              ∙ ap (λ b. if b || hits_error n ts j then change set_error (get m j) else get m j)
                  (ground (arith, q.1, found.1.0));
        }
  ]
