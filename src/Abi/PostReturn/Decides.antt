-- ===== src/Abi/PostReturn/Decides.antt =====
-- Which types `needs_post_return` of crates/core/src/abi.rs accepts.
use mathlib.Core.List.{Memᴰ}
use mathlib.Core.Option.{some-injective}
use wai_bindgen.Prelude.{
  ℕ, zero, suc, ◌+◌, ◌≤◌, ◌≡◌, refl, sym, ◌∙◌, subst, Bool, true, false, Option, none, some, List,
  [], ◌∷◌, length, All, All-map, arith, length-append, ap,
}
use wai_bindgen.Wit.{
  Wit, WasmType, WitType, TypeId, TypeDef, TypeDefKind, Field, Case, type_def, field_types,
  case_types, Function,
}
use wai_bindgen.Wit.Laws.{
  IsWellFormed, IsFlattening, WfKind, FlatKind, Below, BelowOption, IsValue, IsJoined, CaseFits,
  flat_all,
}
use wai_bindgen.Abi.Generator.{Result, ok, panic}
use wai_bindgen.Abi.Lower.ArmsEffect.{Fits-le}
use wai_bindgen.Abi.PostReturn.{
  present, any_type, needs_kind, needs_def, needs_body, needs_post_return,
  guest_export_needs_post_return,
}

-- A value of the type can hold a list or a string that is reached without passing a handle.
module _ (w : Wit) where
  mutual
    pub data HoldsList : WitType → Type 0 where
      string : HoldsList WitType.string
      defined :
          {i : TypeId} (d : TypeDef)
          → type_def w i ≡ some d
          → HoldsListKind d.kind
          → HoldsList (WitType.id i)

    pub data HoldsListKind : TypeDefKind → Type 0 where
      list : {t : WitType} → HoldsListKind (TypeDefKind.list t)
      alias : {t : WitType} → HoldsList t → HoldsListKind (TypeDefKind.type t)
      field :
          {fields : List Field}
          → HoldsListAny (field_types fields)
          → HoldsListKind (TypeDefKind.record_ fields)
      element :
          {types : List WitType} → HoldsListAny types → HoldsListKind (TypeDefKind.tuple types)
      case_ :
          {cases : List Case}
          → HoldsListAny (present (case_types cases))
          → HoldsListKind (TypeDefKind.variant cases)
      payload : {t : WitType} → HoldsList t → HoldsListKind (TypeDefKind.option t)
      either :
          {a b : Option WitType}
          → HoldsListAny (present (a ∷ b ∷ []))
          → HoldsListKind (TypeDefKind.result a b)

    pub data HoldsListAny : List WitType → Type 0 where
      here : {t : WitType} {ts : List WitType} → HoldsList t → HoldsListAny (t ∷ ts)
      there : {t : WitType} {ts : List WitType} → HoldsListAny ts → HoldsListAny (t ∷ ts)

-- The result of a test that decides `P` and does not panic.
pub data Decides (P : Type 0) : Result Bool → Type 0 where
  holds : P → Decides P (ok true)
  fails : ¬ P → Decides P (ok false)

pub Decides-iff : {P Q : Type 0} {r : Result Bool} → (P → Q) → (Q → P) → Decides P r → Decides Q r
Decides-iff f g (holds p) = holds (f p)
Decides-iff f g (fails n) = fails (λ q. n (g q))

module _ (w : Wit) where
  -- A defined type has one definition.
  pub HoldsList-def :
      (i : TypeId) (d : TypeDef)
      → type_def w i ≡ some d
      → HoldsList w (WitType.id i)
      → HoldsListKind w d.kind
  HoldsList-def i d found (defined d' e k) =
      subst (λ x. HoldsListKind w x.kind) (some-injective _ _ (sym e ∙ found)) k

  any_cons :
      {t : WitType} {ts : List WitType} {r s : Result Bool}
      → Decides (HoldsList w t) r
      → Decides (HoldsListAny w ts) s
      → Decides
          (HoldsListAny w (t ∷ ts))
          (elim r [ ok true ↦ ok true | ok false ↦ s | panic p ↦ panic p ])
  any_cons (holds p) d = holds (here p)
  any_cons (fails n) d = Decides-iff there (elim [ here h ↦ absurd (n h) | there h ↦ h ]) d

  any_type-Decides :
      (needs : WitType → Result Bool) (ts : List WitType)
      → All (λ t. Decides (HoldsList w t) (needs t)) ts
      → Decides (HoldsListAny w ts) (any_type needs ts)
  unfolding any_type
  any_type-Decides needs [] h = fails (λ x. elim x [ ])
  any_type-Decides needs (t ∷ ts) h = any_cons h.0 (any_type-Decides needs ts h.1)

  Below-present :
      (rank : TypeId → ℕ) (n : ℕ) (os : List (Option WitType))
      → All (BelowOption w rank n) os
      → All (Below w rank n) (present os)
  Below-present rank n [] h = tt
  Below-present rank n (none ∷ os) h = Below-present rank n os h.1
  Below-present rank n (some t ∷ os) h = (h.0, Below-present rank n os h.1)

  module _ (rank : TypeId → ℕ) (n : ℕ) (needs : WitType → Result Bool)
      (decide : (t : WitType) → Below w rank n t → Decides (HoldsList w t) (needs t)) where
    needs_kind-Decides :
        (d : TypeDef) (kind : TypeDefKind)
        → WfKind w rank n d kind
        → IsValue kind
        → Decides (HoldsListKind w kind) (needs_kind w needs kind)
    unfolding needs_kind
    needs_kind-Decides d (TypeDefKind.list t) wf v = holds list
    needs_kind-Decides d (TypeDefKind.type t) wf v =
        Decides-iff alias (elim [ alias h ↦ h ]) (decide t wf)
    needs_kind-Decides d (TypeDefKind.record_ fields) wf v =
        Decides-iff field (elim [ field h ↦ h ])
          (any_type-Decides needs (field_types fields) (All-map decide (field_types fields) wf.1))
    needs_kind-Decides d (TypeDefKind.tuple types) wf v =
        Decides-iff element (elim [ element h ↦ h ])
          (any_type-Decides needs types (All-map decide types wf))
    needs_kind-Decides d (TypeDefKind.variant cases) wf v =
        Decides-iff case_ (elim [ case_ h ↦ h ])
          (any_type-Decides needs (present (case_types cases))
            (All-map decide _ (Below-present rank n (case_types cases) wf.1)))
    needs_kind-Decides d (TypeDefKind.option t) wf v =
        Decides-iff payload (elim [ payload h ↦ h ]) (decide t wf)
    needs_kind-Decides d (TypeDefKind.result a b) wf v =
        Decides-iff either (elim [ either h ↦ h ])
          (any_type-Decides needs (present (a ∷ b ∷ []))
            (All-map decide _ (Below-present rank n (a ∷ b ∷ []) (wf.0, (wf.1, tt)))))
    needs_kind-Decides d TypeDefKind.unknown wf v = absurd v
    needs_kind-Decides d _ wf v = fails (λ h. elim h [ ])

  module _ (rank : TypeId → ℕ) (wf : IsWellFormed w rank) where
    -- For a type of rank below `r` in a well-formed resolution, and fuel `r + 1`,
    -- `needs_post_return` decides whether a value of the type can hold a list or a string. It does
    -- not panic.
    pub needs_post_return-Decides :
        (n r : ℕ) (t : WitType)
        → Below w rank r t
        → r + 1 ≤ n
        → Decides (HoldsList w t) (needs_post_return w n t)
    unfolding needs_post_return needs_body needs_def
    needs_post_return-Decides zero r t b h = absurd (omega arith)
    needs_post_return-Decides (suc n) r WitType.string b h = holds string
    needs_post_return-Decides (suc n) r (WitType.id i) (d, found, v, lt) h = rw found (
        Decides-iff (λ k. defined d found k) (HoldsList-def i d found)
          (needs_kind-Decides rank (rank i) (needs_post_return w n)
            (λ t b. needs_post_return-Decides n (rank i) t b (omega arith)) d d.kind
            (wf.defined i d found) v))
    needs_post_return-Decides (suc n) r _ b h = fails (λ h. elim h [ ])

    -- `guest_export_needs_post_return` decides whether a result of the function can hold a list or a
    -- string, for a function whose results have rank below `r` in a well-formed resolution, and
    -- fuel `r + 1`. It does not panic.
    pub guest_export_needs_post_return-Decides :
        (n r : ℕ) (f : Function)
        → All (Below w rank r) f.results
        → r + 1 ≤ n
        → Decides (HoldsListAny w f.results) (guest_export_needs_post_return w n f)
    unfolding guest_export_needs_post_return
    guest_export_needs_post_return-Decides n r f h fuel =
        any_type-Decides (needs_post_return w n) f.results
          (All-map (λ t b. needs_post_return-Decides n r t b fuel) f.results h)

-- Lists and strings are passed as a pointer and a length, so they take two flat values.
module _ (w : Wit) (flat : IsFlattening w) where
  flat_all-mem :
      {t : WitType} (ts : List WitType)
      → Memᴰ t ts
      → length (w.push_flat t) ≤ length (flat_all w ts)
  flat_all-mem [] m = elim m [ ]
  flat_all-mem (u ∷ ts) (Memᴰ.head e) =
      omega
        (arith, ap (λ x. length (w.push_flat x)) e, length-append (w.push_flat u) (flat_all w ts))
  flat_all-mem (u ∷ ts) (Memᴰ.tail m) =
      omega (arith, flat_all-mem ts m, length-append (w.push_flat u) (flat_all w ts))

  slots-mem :
      {t : WitType} (slots : List WasmType) (os : List (Option WitType))
      → All (CaseFits w slots) os
      → Memᴰ t (present os)
      → length (w.push_flat t) ≤ length slots
  slots-mem slots [] h m = elim m [ ]
  slots-mem slots (none ∷ os) h m = slots-mem slots os h.1 m
  slots-mem slots (some u ∷ os) h (Memᴰ.head e) =
      omega (arith, ap (λ x. length (w.push_flat x)) e, Fits-le w (w.push_flat u) slots h.0)
  slots-mem slots (some u ∷ os) h (Memᴰ.tail m) = slots-mem slots os h.1 m

  joined-mem :
      {t : WitType} (f : List WasmType) (os : List (Option WitType))
      → IsJoined w f os
      → Memᴰ t (present os)
      → length (w.push_flat t) ≤ length f
  joined-mem f os j m = omega (arith, slots-mem j.slots os j.cases_fit m, ap length j.flat_eq)

  mutual
    takes_two : {t : WitType} → HoldsList w t → 2 ≤ length (w.push_flat t)
    takes_two string = omega (arith, flat.flat_type WitType.string)
    takes_two (defined {i = i} d e k) = two_in d.kind _ (flat.flat_type (WitType.id i) d e) k

    two_in :
        (kind : TypeDefKind) (f : List WasmType)
        → FlatKind w f kind
        → HoldsListKind w kind
        → 2 ≤ length f
    two_in _ f h list = omega (arith, h)
    two_in _ f h (alias k) = omega (arith, takes_two k, ap length h)
    two_in _ f h (field {fields = fields} k) =
        let (t, m, two) = two_in_any k in
        omega (arith, two, flat_all-mem (field_types fields) m, ap length h)
    two_in _ f h (element {types = types} k) =
        let (t, m, two) = two_in_any k in omega (arith, two, flat_all-mem types m, ap length h)
    two_in _ f h (case_ {cases = cases} k) =
        let (t, m, two) = two_in_any k in omega (arith, two, joined-mem f (case_types cases) h m)
    two_in _ f h (payload {t = t} k) =
        omega (arith, takes_two k, joined-mem f (none ∷ some t ∷ []) h (Memᴰ.head refl))
    two_in _ f h (either {a = a} {b = b} k) =
        let (t, m, two) = two_in_any k in omega (arith, two, joined-mem f (a ∷ b ∷ []) h m)

    two_in_any :
        {ts : List WitType}
        → HoldsListAny w ts
        → (t : WitType) × Memᴰ t ts × (2 ≤ length (w.push_flat t))
    two_in_any (here {t = t} k) = (t, Memᴰ.head refl, takes_two k)
    two_in_any (there k) = let (t, m, two) = two_in_any k in (t, Memᴰ.tail m, two)

  -- A type whose values can hold a list or a string takes at least two flat values.
  pub HoldsList-two_flat : (t : WitType) → HoldsList w t → 2 ≤ length (w.push_flat t)
  HoldsList-two_flat t h = takes_two h

  -- Results one of which can hold a list or a string take at least two flat values.
  pub HoldsListAny-two_flat : (ts : List WitType) → HoldsListAny w ts → 2 ≤ length (flat_all w ts)
  HoldsListAny-two_flat ts h =
      let (t, m, two) = two_in_any h in omega (arith, two, flat_all-mem ts m)
