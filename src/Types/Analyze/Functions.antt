-- ===== src/Types/Analyze/Functions.antt =====
-- What `type_info_func` of crates/core/src/types.rs marks.
use wai_bindgen.Prelude.{
  ℕ, suc, ◌≡◌, ◌≢◌, ◌<◌, refl, ap, ◌∙◌, Bool, true, false, not, ◌&&◌, ◌||◌, Option, none, some,
  List, if◌then◌else◌, All, All-map, map, arith,
}
use wai_bindgen.Wit.{Wit, WitType, TypeId, TypeDef, TypeDefKind, Function, type_def}
use wai_bindgen.Abi.Generator.{ok}
use wai_bindgen.Types.{TypeInfo, Types, get}
use wai_bindgen.Types.Analyze.{set_borrowed, set_owned, set_error, type_info_func}
use wai_bindgen.Types.Analyze.Marks.{
  change, Recorded, marked, IsDefined, Recorded-Marks, mark_live-Marks, infer_all-Recorded,
}
use wai_bindgen.Types.Analyze.Errors.{
  error_of, hits_error, FindsErrors, mark_errors-Marks, DefinedBy-defined, dealias-DefinedBy,
}

-- How the parameters of a function are used.
abbrev use_params : Bool → TypeInfo → TypeInfo
use_params import = if import then set_borrowed else set_owned

abbrev pub param_types : Function → List WitType
param_types func = map (λ p. p.1) func.params

-- The info of a type after a function that uses it in some ways.
unfoldable pub used_info : Bool → Bool → Bool → Bool → TypeInfo → TypeInfo
used_info import in_params in_results in_errors x = record x {
  borrowed = x.borrowed || (import && in_params);
  owned = x.owned || (not import && in_params) || in_results;
  error = x.error || in_errors;
}

use_params_idem :
    (import : Bool) (x : TypeInfo) → use_params import (use_params import x) ≡ use_params import x
unfolding set_borrowed set_owned
use_params_idem true x = refl
use_params_idem false x = refl

set_owned_idem : (x : TypeInfo) → set_owned (set_owned x) ≡ set_owned x
unfolding set_owned
set_owned_idem x = refl

all_marks :
    (import a b c : Bool) (x : TypeInfo)
    → (if c
        then change set_error (
            if b
            then change set_owned (if a then change (use_params import) (some x) else some x)
            else (if a then change (use_params import) (some x) else some x))
        else (if b
            then change set_owned (if a then change (use_params import) (some x) else some x)
            else (if a then change (use_params import) (some x) else some x)))
      ≡ some (used_info import a b c x)
unfolding used_info set_borrowed set_owned set_error
all_marks import a b c x = ground arith

module _ (w : Wit) (live : List WitType → List TypeId) where
  -- Each type whose info is recorded, after the loops.
  after_marks :
      (import : Bool) (a b c : TypeId → Bool) (m m2 m4 m5 : Types) (j : TypeId) (x : TypeInfo)
      → get m2 j ≡ (if a j then change (use_params import) (get m j) else get m j)
      → get m4 j ≡ (if b j then change set_owned (get m2 j) else get m2 j)
      → get m5 j ≡ (if c j then change set_error (get m4 j) else get m4 j)
      → get m j ≡ some x
      → get m5 j ≡ some (used_info import (a j) (b j) (c j) x)
  after_marks import a b c m m2 m4 m5 j x e2 e4 e5 e =
      let f2 : Option TypeInfo → Option TypeInfo =
        λ o. if a j then change (use_params import) o else o in
      let f4 : Option TypeInfo → Option TypeInfo = λ o. if b j then change set_owned o else o in
      let f5 : Option TypeInfo → Option TypeInfo = λ o. if c j then change set_error o else o in
      e5 ∙ ap f5 (e4 ∙ ap f4 (e2 ∙ ap f2 e)) ∙ all_marks import (a j) (b j) (c j) x

  -- Where every type has an info, `type_info_func` gives each type the marks of its uses and changes
  -- nothing else: a named type among the live types of the parameters is borrowed by an import and
  -- owned by an export, one among those of the results is owned, and the definition behind the
  -- aliases of a result's error is an error. It needs types that there are, aliases of types of
  -- lower rank, and more fuel than ranks.
  pub type_info_func-marks :
      (rank : TypeId → ℕ) (n : ℕ) (func : Function) (import : Bool) (m : Types)
      → ((i j : TypeId) (d : TypeDef)
          → type_def w i ≡ some d
          → d.kind ≡ TypeDefKind.type (WitType.id j)
          → (type_def w j ≢ none) × (rank j < rank i))
      → ((i : TypeId) → rank i < suc n)
      → All (IsDefined w) (param_types func)
      → All (IsDefined w) func.results
      → All (λ t. (e : TypeId) → error_of w t ≡ some e → type_def w e ≢ none) func.results
      → All (λ i. type_def w i ≢ none) (live (param_types func))
      → All (λ i. type_def w i ≢ none) (live func.results)
      → Recorded w m
      → (m' : Types) × ((type_info_func w live (suc n) func import m ≡ ok m')
          × (Recorded w m'
              × ((j : TypeId) (x : TypeInfo)
                  → get m j ≡ some x
                  → get m' j
                    ≡ some (
                        used_info import
                          (marked w (live (param_types func)) j)
                          (marked w (live func.results) j)
                          (hits_error w (suc n) func.results j)
                          x))))
  unfolding type_info_func FindsErrors
  type_info_func-marks rank n func import m aliases fuel ps rs es lps lrs r =
      let finds =
        All-map
          (λ t d e q.
            let l = dealias-DefinedBy w rank aliases (suc n) e (d e q) (fuel e) in
            (l.0, (l.1.0, DefinedBy-defined w l.1.1)))
          func.results es in
      let s2 =
        mark_live-Marks w (use_params import) (use_params_idem import) (live (param_types func)) m
          lps r in
      let r2 = Recorded-Marks w r s2 in
      let s4 = mark_live-Marks w set_owned set_owned_idem (live func.results) s2.after lrs r2 in
      let r4 = Recorded-Marks w r2 s4 in
      let s5 = mark_errors-Marks w (suc n) func.results s4.after rs finds r4 in
      (
        s5.after,
        (
          ground (
            arith,
            infer_all-Recorded w n (param_types func) m ps r,
            s2.runs,
            infer_all-Recorded w n func.results s2.after rs r2,
            s4.runs,
            s5.runs,
          ),
          (
            Recorded-Marks w r4 s5,
            λ j x e.
                after_marks import (marked w (live (param_types func)))
                  (marked w (live func.results)) (hits_error w (suc n) func.results) m s2.after
                  s4.after s5.after j x (s2.marks j) (s4.marks j) (s5.marks j) e,
          ),
        ),
      )
