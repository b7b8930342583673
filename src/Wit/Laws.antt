-- ===== src/Wit/Laws.antt =====
-- What crates/core relies on of the package `wit_parser`: type definitions are not recursive, what
-- must be named is named, and flattening, layout and signatures follow the canonical ABI. These are
-- hypotheses of the theorems; `wai_bindgen.Abi.Tests.Sample` gives values that meet them.
use wai_bindgen.Prelude.{
  ℕ, ◌<◌, ◌≡◌, String, Option, none, some, List, [], ◌∷◌, ◌++◌, length, All, map,
}
use wai_bindgen.Wit.{
  Wit, WasmType, WitType, TypeId, TypeDef, TypeDefKind, Handle, own, borrow, FlagsRepr, type_def,
  field_types, case_types,
}
use wai_bindgen.Wit.Join.{Widens}

abbrev pub Named : TypeDef → Type 0
Named d = (n : String) × (d.name ≡ some n)

-- A resource is no type of values: only handles to it are.
abbrev pub IsValue : TypeDefKind → Type 0
IsValue TypeDefKind.resource = ⊥
IsValue TypeDefKind.unknown = ⊥
IsValue _ = Unit

abbrev pub handle_type : Handle → TypeId
handle_type (own i) = i
handle_type (borrow i) = i

-- The number of 32-bit words of a set of flags.
abbrev pub words : FlagsRepr → ℕ
words FlagsRepr.u8 = 1
words FlagsRepr.u16 = 1
words (FlagsRepr.u32 n) = n

module _ (w : Wit) where
  module _ (rank : TypeId → ℕ) where
    -- A type of values whose definition has a rank below `n`.
    abbrev pub Below : ℕ → WitType → Type 0
    Below n (WitType.id i) = (d : TypeDef) × (type_def w i ≡ some d) × IsValue d.kind × (rank i < n)
    Below n _ = Unit

    abbrev pub BelowOption : ℕ → Option WitType → Type 0
    BelowOption n none = Unit
    BelowOption n (some t) = Below n t

    abbrev pub WfKind : ℕ → TypeDef → TypeDefKind → Type 0
    WfKind n d (TypeDefKind.record_ fields) = Named d × All (Below n) (field_types fields)
    WfKind n d (TypeDefKind.handle h) =
        (r : TypeDef) × (type_def w (handle_type h) ≡ some r) × Named r
    WfKind n d (TypeDefKind.flags _) = Named d
    WfKind n d (TypeDefKind.tuple types) = All (Below n) types
    WfKind n d (TypeDefKind.variant cases) = Named d × All (BelowOption n) (case_types cases)
    WfKind n d (TypeDefKind.enum _) = Named d
    WfKind n d (TypeDefKind.option t) = Below n t
    WfKind n d (TypeDefKind.result a b) = BelowOption n a × BelowOption n b
    WfKind n d (TypeDefKind.list t) = Below n t
    WfKind n d (TypeDefKind.type t) = Below n t
    WfKind n d _ = Unit

    -- Each definition refers to types of values of lower rank only, so none is recursive, and the
    -- kinds that the generators ask the name of have one.
    pub record IsWellFormed : Type 0 where
      pub defined : (i : TypeId) (d : TypeDef) → type_def w i ≡ some d → WfKind (rank i) d d.kind

  -- The flat types of a list of types, one after the other.
  abbrev pub flat_all : List WitType → List WasmType
  flat_all [] = []
  flat_all (t ∷ ts) = w.push_flat t ++ flat_all ts

  -- A payload's flat types fit into a prefix of the variant's slots.
  abbrev pub Fits : List WasmType → List WasmType → Type 0
  Fits [] _ = Unit
  Fits (x ∷ xs) [] = ⊥
  Fits (x ∷ xs) (y ∷ ys) = Widens x y × Fits xs ys

  abbrev pub CaseFits : List WasmType → Option WitType → Type 0
  CaseFits slots none = Unit
  CaseFits slots (some t) = Fits (w.push_flat t) slots

  -- The flat types of a variant: its discriminant, and slots that each case's payload fits.
  pub record IsJoined (flat : List WasmType) (cases : List (Option WitType)) : Type 0 where
    pub discriminant : WasmType
    pub slots : List WasmType
    pub flat_eq : flat ≡ discriminant ∷ slots
    pub cases_fit : All (CaseFits slots) cases

  abbrev pub FlatKind : List WasmType → TypeDefKind → Type 0
  FlatKind flat (TypeDefKind.record_ fields) = flat ≡ flat_all (field_types fields)
  FlatKind flat (TypeDefKind.flags f) = length flat ≡ w.flags_count f
  FlatKind flat (TypeDefKind.tuple types) = flat ≡ flat_all types
  FlatKind flat (TypeDefKind.variant cases) = IsJoined flat (case_types cases)
  FlatKind flat (TypeDefKind.option t) = IsJoined flat (none ∷ some t ∷ [])
  FlatKind flat (TypeDefKind.result a b) = IsJoined flat (a ∷ b ∷ [])
  FlatKind flat (TypeDefKind.list _) = length flat ≡ 2
  FlatKind flat (TypeDefKind.type t) = flat ≡ w.push_flat t
  FlatKind flat TypeDefKind.resource = Unit
  FlatKind flat TypeDefKind.unknown = Unit
  FlatKind flat _ = length flat ≡ 1

  abbrev pub FlatType : WitType → Type 0
  FlatType (WitType.id i) =
      (d : TypeDef) → type_def w i ≡ some d → FlatKind (w.push_flat (WitType.id i)) d.kind
  FlatType WitType.string = length (w.push_flat WitType.string) ≡ 2
  FlatType t = length (w.push_flat t) ≡ 1

  pub record IsFlattening : Type 0 where
    pub flat_type : (t : WitType) → FlatType t
    pub count_eq : (f : List String) → w.flags_count f ≡ words (w.flags_repr f)
    pub field_types_eq :
        (ts : List WitType) → map (λ (p : ℕ × WitType). p.1) (w.field_offsets ts) ≡ ts
