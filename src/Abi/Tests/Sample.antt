-- ===== src/Abi/Tests/Sample.antt =====
-- A resolution with a record, a list of it and a `result` of that list, with the layout and the
-- signatures of the canonical ABI for them, and a language backend that numbers its operands and
-- records its instructions. They meet the laws that the theorems rely on.
use wai_bindgen.Prelude.{
  ℕ, zero, suc, ◌+◌, ◌≡◌, refl, sym, ap, ◌∙◌, subst, Bool, true, false, Option, none, some, List,
  [], ◌∷◌, ◌++◌, length, map, ltb, ◌&&◌, if◌then◌else◌, arith, length-append, not,
}
use mathlib.Core.Option.{some-injective}
use wai_bindgen.Wit.{
  Wit, WasmType, i32, i64, f32, f64, pointer, length as flat_length, WitType, TypeId, TypeDef,
  TypeDefKind, FlagsRepr, WitInt, Function, WasmSignature, AbiVariant, guest_import, guest_export,
  type_def,
}
use wai_bindgen.Wit.Join.{same, f32_in_pointer}
use wai_bindgen.Wit.Laws.{IsFlattening, IsWellFormed, FlatType, FlatKind, WfKind, flat_all}
use wai_bindgen.Abi.Instruction.{Instruction, results_len}
use wai_bindgen.Abi.Generator.{Bindgen, Context, lower_args_lift_results, lift_args_lower_results}
use wai_bindgen.Abi.Generator.Rules.{IsBindgen}
use wai_bindgen.Abi.Call.{param_types, is_import}
use wai_bindgen.Types.{TypeInfo}
use wai_bindgen.Abi.Call.Laws.{IsSignature, IsCallable, ret_params}

abbrev types : List TypeDef
types =
    record {
      name = some "pair";
      kind = TypeDefKind.record_ (
          record { name = "count"; ty = WitType.u32 }
          ∷ record { name = "label"; ty = WitType.string }
          ∷ []);
    }
    ∷ record { name = none; kind = TypeDefKind.list (WitType.id 0) }
    ∷ record { name = none; kind = TypeDefKind.result (some (WitType.id 1)) (some WitType.f32) }
    ∷ []

abbrev flat_at : TypeId → List WasmType
flat_at zero = i32 ∷ pointer ∷ flat_length ∷ []
flat_at (suc zero) = pointer ∷ flat_length ∷ []
flat_at (suc (suc zero)) = i32 ∷ pointer ∷ flat_length ∷ []
flat_at _ = []

abbrev push_flat : WitType → List WasmType
push_flat WitType.u64 = i64 ∷ []
push_flat WitType.s64 = i64 ∷ []
push_flat WitType.f32 = f32 ∷ []
push_flat WitType.f64 = f64 ∷ []
push_flat WitType.string = pointer ∷ flat_length ∷ []
push_flat (WitType.id i) = flat_at i
push_flat _ = i32 ∷ []

abbrev flatten : List WitType → List WasmType
flatten [] = []
flatten (t ∷ ts) = push_flat t ++ flatten ts

abbrev one_pointer : Bool → List WasmType
one_pointer b = if b then pointer ∷ [] else []

abbrev signature : AbiVariant → Function → WasmSignature
signature v f =
    let params = flatten (param_types f) in
    let results = flatten f.results in
    let indirect = ltb 16 (length params) in
    let behind = ltb 1 (length results) in
    record {
      params = (if indirect then pointer ∷ [] else params) ++ one_pointer (is_import v && behind);
      results = if behind then one_pointer (not (is_import v)) else results;
      indirect_params = indirect;
      retptr = behind;
    }

-- Every field takes 8 bytes.
abbrev offsets : ℕ → List WitType → List (ℕ × WitType)
offsets n [] = []
offsets n (t ∷ ts) = (n, t) ∷ offsets (n + 8) ts

abbrev pub sample : Wit
sample = record {
  types = types;
  push_flat = push_flat;
  wasm_signature = signature;
  flags_repr = λ _. FlagsRepr.u8;
  flags_count = λ _. 1;
  variant_tag = λ _. WitInt.u8;
  enum_tag = λ _. WitInt.u8;
  size = λ _. 8;
  align = λ _. 8;
  record_info = λ _. record { size = 8; align = 8 };
  params_info = λ _. record { size = 8; align = 8 };
  field_offsets = offsets 0;
  payload_offset = λ _ _. 4;
}

abbrev copies : ℕ → ℕ → List ℕ
copies zero x = []
copies (suc n) x = x ∷ copies n (x + 1)

length-copies : (n x : ℕ) → length (copies n x) ≡ n
length-copies zero x = refl
length-copies (suc n) x = ap suc (length-copies n (x + 1))

-- Operands are numbers, and the state is the instructions emitted, last first.
abbrev pub tracer : Bindgen ℕ (List Instruction)
tracer = record {
  emit_inst = λ s inst operands. (copies (results_len sample inst) (length s), inst ∷ s);
  return_area = λ s size align. (1000, s);
  enter_block = λ s. s;
  leave_block = λ s operands. s;
  is_list_canonical = λ s t. false;
}

pub tracer-IsBindgen : IsBindgen sample tracer
tracer-IsBindgen = record { emit_len = λ s inst operands e. length-copies _ _ }

abbrev pub rank : TypeId → ℕ
rank i = i

abbrev IfSome : Type 0 → Option TypeDef → Type 0
IfSome P none = Unit
IfSome P (some d) = P

abbrev pub IfInfo : Type 0 → Option TypeInfo → Type 0
IfInfo P none = Unit
IfInfo P (some x) = P

no_type : {P : Type 0} {d : TypeDef} → ◌≡◌ {A = Option TypeDef} none (some d) → P
no_type {P} e = subst (IfSome P) e tt

at_def :
    (F : TypeDef → Type 0) {a d : TypeDef} → ◌≡◌ {A = Option TypeDef} (some a) (some d) → F a → F d
at_def F e h = subst F (some-injective _ _ e) h

flat_sample : (t : WitType) → FlatType sample t
flat_sample (WitType.id zero) = λ d e. at_def (λ d. FlatKind sample (flat_at 0) d.kind) e refl
flat_sample (WitType.id (suc zero)) = λ d e. at_def (λ d. FlatKind sample (flat_at 1) d.kind) e refl
flat_sample (WitType.id (suc (suc zero))) = λ d e.
    at_def (λ d. FlatKind sample (flat_at 2) d.kind) e
      record {
        discriminant = i32;
        slots = pointer ∷ flat_length ∷ [];
        flat_eq = refl;
        cases_fit = ((same, (same, tt)), ((f32_in_pointer, tt), tt));
      }
flat_sample (WitType.id (suc (suc (suc i)))) = λ d e. no_type e
flat_sample WitType.string = refl
flat_sample WitType.bool = refl
flat_sample WitType.u8 = refl
flat_sample WitType.u16 = refl
flat_sample WitType.u32 = refl
flat_sample WitType.u64 = refl
flat_sample WitType.s8 = refl
flat_sample WitType.s16 = refl
flat_sample WitType.s32 = refl
flat_sample WitType.s64 = refl
flat_sample WitType.f32 = refl
flat_sample WitType.f64 = refl
flat_sample WitType.char = refl

fields_sample : (n : ℕ) (ts : List WitType) → map (λ (p : ℕ × WitType). p.1) (offsets n ts) ≡ ts
fields_sample n [] = refl
fields_sample n (t ∷ ts) = ap (λ l. t ∷ l) (fields_sample (n + 8) ts)

pub sample-IsFlattening : IsFlattening sample
sample-IsFlattening = record {
  flat_type = flat_sample;
  count_eq = λ f. refl;
  field_types_eq = fields_sample 0;
}

wf_sample :
    (i : TypeId) (d : TypeDef) → type_def sample i ≡ some d → WfKind sample rank (rank i) d d.kind
wf_sample zero d e = at_def (λ d. WfKind sample rank 0 d d.kind) e (("pair", refl), (tt, (tt, tt)))
wf_sample (suc zero) d e = at_def (λ d. WfKind sample rank 1 d d.kind) e (_, refl, tt, omega arith)
wf_sample (suc (suc zero)) d e =
    at_def (λ d. WfKind sample rank 2 d d.kind) e ((_, refl, tt, omega arith), tt)
wf_sample (suc (suc (suc i))) d e = no_type e

pub sample-IsWellFormed : IsWellFormed sample rank
sample-IsWellFormed = record { defined = wf_sample }

flat_all_eq : (ts : List WitType) → length (flat_all sample ts) ≡ length (flatten ts)
flat_all_eq [] = refl
flat_all_eq (t ∷ ts) = omega (
  arith,
  flat_all_eq ts,
  length-append (push_flat t) (flat_all sample ts),
  length-append (push_flat t) (flatten ts),
)

length-one_pointer : (b : Bool) → length (one_pointer b) ≡ (if b then 1 else 0)
length-one_pointer true = refl
length-one_pointer false = refl

only_export : (b : Bool) → length (one_pointer (not b)) ≡ (if b then 0 else 1)
only_export true = refl
only_export false = refl

last_param :
    (v : AbiVariant) (f : Function)
    → length (one_pointer (is_import v && ltb 1 (length (flatten f.results))))
      ≡ ret_params v (signature v f)
last_param v f = length-one_pointer (is_import v && ltb 1 (length (flatten f.results)))

pub sample-IsSignature : IsSignature sample
sample-IsSignature = record {
  direct_params = λ v f plain e. rw e (
      length-append (flatten (param_types f)) _
      ∙ omega (arith, flat_all_eq (param_types f), last_param v f));
  indirect_params = λ v f plain e. rw e (ap suc (last_param v f) ∙ omega arith);
  direct_results = λ v f plain e. rw e (sym (flat_all_eq f.results));
  pointed_results = λ v f plain e. rw e (only_export (is_import v));
  pointed = λ v f plain two. let eq = flat_all_eq f.results in ground (arith, two, eq);
}

-- `f: func(a: u32, b: result<list<pair>, f32>) -> pair`
abbrev pub sample_function : Function
sample_function = record {
  name = "f";
  params = ("a", WitType.u32) ∷ ("b", WitType.id 2) ∷ [];
  results = WitType.id 0 ∷ [];
}

pub sample-IsCallable : IsCallable sample rank 3 sample_function
sample-IsCallable = record {
  params_below = (tt, ((_, refl, tt, omega arith), tt));
  results_below = ((_, refl, tt, omega arith), tt);
}

-- A caller in a guest, and the implementation of an asynchronous export.
abbrev pub caller : Context ℕ (List Instruction)
caller = record {
  resolve = sample;
  bindgen = tracer;
  variant = guest_import;
  lift_lower = lower_args_lift_results;
  is_async = false;
}

abbrev pub async_callee : Context ℕ (List Instruction)
async_callee = record {
  resolve = sample;
  bindgen = tracer;
  variant = guest_export;
  lift_lower = lift_args_lower_results;
  is_async = true;
}
