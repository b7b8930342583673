-- ===== src/Wit.antt =====
-- The part of the `wit_parser` package that crates/core calls. The package is not part of the
-- repository: its data types are those whose constructors crates/core/src/abi.rs and
-- crates/core/src/types.rs match exhaustively, and its methods are the fields of a parameter, the
-- record `Wit`. What the code relies on of those methods is in `Laws`.
pub mod Join
pub mod Laws
use wai_bindgen.Prelude.{ℕ, String, Bool, Option, List, get_elem?, map}

-- `wit_parser::abi::WasmType`
pub data WasmType : Type 0 where
  i32 i64 f32 f64 pointer pointer_or_i64 length : WasmType

pub data AbiVariant : Type 0 where
  guest_import guest_export guest_import_async guest_export_async : AbiVariant
  guest_export_async_stackful : AbiVariant

-- `wit_parser::Int`
pub data WitInt : Type 0 where
  u8 u16 u32 u64 : WitInt

pub data FlagsRepr : Type 0 where
  u8 u16 : FlagsRepr
  u32 : ℕ → FlagsRepr

abbrev pub TypeId : Type 0
TypeId = ℕ

-- `wit_parser::Type`
pub data WitType : Type 0 where
  bool u8 u16 u32 u64 s8 s16 s32 s64 f32 f64 char string : WitType
  id : TypeId → WitType

pub data Handle : Type 0 where
  own borrow : TypeId → Handle

pub record Field : Type 0 where
  pub name : String
  pub ty : WitType

pub record Case : Type 0 where
  pub name : String
  pub ty : Option WitType

pub data TypeDefKind : Type 0 where
  record_ : List Field → TypeDefKind
  resource : TypeDefKind
  handle : Handle → TypeDefKind
  flags : List String → TypeDefKind
  tuple : List WitType → TypeDefKind
  variant : List Case → TypeDefKind
  enum : List String → TypeDefKind
  option : WitType → TypeDefKind
  result : Option WitType → Option WitType → TypeDefKind
  list : WitType → TypeDefKind
  future : Option WitType → TypeDefKind
  stream : Option WitType → TypeDefKind
  error_context : TypeDefKind
  type : WitType → TypeDefKind
  unknown : TypeDefKind

pub record TypeDef : Type 0 where
  pub name : Option String
  pub kind : TypeDefKind

-- `results` is what `Results::iter_types` yields.
pub record Function : Type 0 where
  pub name : String
  pub params : List (String × WitType)
  pub results : List WitType

pub record WasmSignature : Type 0 where
  pub params : List WasmType
  pub results : List WasmType
  pub indirect_params : Bool
  pub retptr : Bool

-- Sizes and alignments are those for a 32-bit memory (`size_wasm32`, `align_wasm32`).
pub record ElementInfo : Type 0 where
  pub size : ℕ
  pub align : ℕ

-- `Resolve`, `SizeAlign` and the methods of `Flags`, `Variant` and `Enum`.
pub record Wit : Type 0 where
  pub types : List TypeDef
  pub push_flat : WitType → List WasmType
  pub wasm_signature : AbiVariant → Function → WasmSignature
  pub flags_repr : List String → FlagsRepr
  pub flags_count : List String → ℕ
  pub variant_tag : List Case → WitInt
  pub enum_tag : List String → WitInt
  pub size : WitType → ℕ
  pub align : WitType → ℕ
  pub record_info : List WitType → ElementInfo
  pub params_info : List WitType → ElementInfo
  pub field_offsets : List WitType → List (ℕ × WitType)
  pub payload_offset : WitInt → List (Option WitType) → ℕ

-- `resolve.types.get(id)`
abbrev pub type_def : Wit → TypeId → Option TypeDef
type_def w i = get_elem? w.types i

abbrev pub field_types : List Field → List WitType
field_types = map (λ (f : Field). f.ty)

abbrev pub case_types : List Case → List (Option WitType)
case_types = map (λ (c : Case). c.ty)
