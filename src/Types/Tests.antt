-- ===== src/Types/Tests.antt =====
-- The theorems about `analyze` of crates/core/src/types.rs on a concrete resolution.
use wai_bindgen.Prelude.{
  ℕ, zero, suc, ◌≡◌, ◌≢◌, ◌<◌, refl, subst, true, false, none, some, List, [], ◌∷◌, ◌++◌, arith,
}
use wai_bindgen.Wit.{
  Wit, WitType, TypeId, TypeDef, TypeDefKind, FlagsRepr, WitInt, Function, type_def,
}
use wai_bindgen.Abi.Generator.{ok}
use wai_bindgen.Types.{TypeInfo, Types, default, get}
use wai_bindgen.Types.Analyze.{dealias, type_info_func}
use wai_bindgen.Types.Analyze.Marks.{Recorded, marked, IsDefined}
use wai_bindgen.Types.Analyze.Errors.{DefinedBy, dealias-DefinedBy, error_of, hits_error}
use wai_bindgen.Types.Analyze.Functions.{used_info, type_info_func-marks}

-- An enum, an alias of it, a result with the alias as its error, and a record.
abbrev resolution : Wit
resolution = record {
  types =
      record { name = some "failure"; kind = TypeDefKind.enum ("lost" ∷ []) }
      ∷ record { name = some "error"; kind = TypeDefKind.type (WitType.id 0) }
      ∷ record { name = none; kind = TypeDefKind.result none (some (WitType.id 1)) }
      ∷ record { name = some "input"; kind = TypeDefKind.record_ [] }
      ∷ [];
  push_flat = λ t. [];
  wasm_signature =
      λ v f. record { params = []; results = []; indirect_params = false; retptr = false };
  flags_repr = λ f. FlagsRepr.u8;
  flags_count = λ f. 0;
  variant_tag = λ c. WitInt.u8;
  enum_tag = λ c. WitInt.u8;
  size = λ t. 1;
  align = λ t. 1;
  record_info = λ t. record { size = 0; align = 1 };
  params_info = λ t. record { size = 0; align = 1 };
  field_offsets = λ t. [];
  payload_offset = λ i t. 1;
}

abbrev alias_rank : TypeId → ℕ
alias_rank (suc zero) = 1
alias_rank i = 0

-- The ids below a type, and its own.
abbrev live_type : WitType → List TypeId
live_type (WitType.id zero) = 0 ∷ []
live_type (WitType.id (suc zero)) = 0 ∷ 1 ∷ []
live_type (WitType.id (suc (suc zero))) = 0 ∷ 1 ∷ 2 ∷ []
live_type (WitType.id i) = i ∷ []
live_type t = []

abbrev live_types : List WitType → List TypeId
live_types [] = []
live_types (t ∷ ts) = live_type t ++ live_types ts

abbrev parse : Function
parse = record {
  name = "parse";
  params = ("input", WitType.id 3) ∷ [];
  results = WitType.id 2 ∷ [];
}

abbrev recorded : Types
recorded = (0, default) ∷ (1, default) ∷ (2, default) ∷ (3, default) ∷ []

recorded-Recorded : Recorded resolution recorded
unfolding Recorded
recorded-Recorded zero e q = ground arith
recorded-Recorded (suc zero) e q = ground arith
recorded-Recorded (suc (suc zero)) e q = ground arith
recorded-Recorded (suc (suc (suc zero))) e q = ground arith
recorded-Recorded (suc (suc (suc (suc i)))) e q = e refl

aliases :
    (i j : TypeId) (d : TypeDef)
    → type_def resolution i ≡ some d
    → d.kind ≡ TypeDefKind.type (WitType.id j)
    → (type_def resolution j ≢ none) × (alias_rank j < alias_rank i)
aliases zero j d e k = absurd (ground arith)
aliases (suc zero) j d e k =
    let same : 0 ≡ j = ground arith in
    subst (λ j. (type_def resolution j ≢ none) × (alias_rank j < 1)) same
      ((λ q. ground arith), omega arith)
aliases (suc (suc zero)) j d e k = absurd (ground arith)
aliases (suc (suc (suc zero))) j d e k = absurd (ground arith)
aliases (suc (suc (suc (suc i)))) j d e k = absurd (ground arith)

alias_rank_bound : (i : TypeId) → alias_rank i < 2
alias_rank_bound zero = omega arith
alias_rank_bound (suc zero) = omega arith
alias_rank_bound (suc (suc i)) = omega arith

error_defined :
    (e : TypeId) → error_of resolution (WitType.id 2) ≡ some e → type_def resolution e ≢ none
unfolding error_of
error_defined e p =
    let same : 1 ≡ e = ground (arith, p) in
    subst (λ i. type_def resolution i ≢ none) same (λ q. ground arith)

dealias-DefinedBy_example :
    (l : TypeId) × ((dealias resolution 2 1 ≡ ok l) × DefinedBy resolution 1 l)
dealias-DefinedBy_example =
    dealias-DefinedBy resolution alias_rank aliases 2 1 (λ q. ground arith) (omega arith)

type_info_func-marks_example :
    (m : Types) × ((type_info_func resolution live_types 2 parse true recorded ≡ ok m)
      × (Recorded resolution m
          × ((j : TypeId) (x : TypeInfo)
              → get recorded j ≡ some x
              → get m j
                ≡ some (
                    used_info true
                      (marked resolution (3 ∷ []) j)
                      (marked resolution (0 ∷ 1 ∷ 2 ∷ []) j)
                      (hits_error resolution 2 (WitType.id 2 ∷ []) j)
                      x))))
unfolding IsDefined error_of
type_info_func-marks_example =
    type_info_func-marks resolution live_types alias_rank 1 parse true recorded aliases
      alias_rank_bound ((λ q. ground arith), tt) ((λ q. ground arith), tt) (error_defined, tt)
      ((λ q. ground arith), tt)
      ((λ q. ground arith), ((λ q. ground arith), ((λ q. ground arith), tt))) recorded-Recorded
