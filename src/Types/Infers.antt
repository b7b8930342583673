-- ===== src/Types/Infers.antt =====
-- What the loops and the `match` of `type_id_info` of crates/core/src/types.rs find, from what the
-- recursive calls find.
use wai_bindgen.Prelude.{
  ℕ, ◌≤◌, ◌≡◌, refl, sym, ◌∙◌, subst, ap, Bool, false, ◌||◌, ◌⊎◌, inl, inr, Option, none, some,
  List, [], ◌∷◌, All,
}
use wai_bindgen.Wit.{
  Wit, WitType, TypeId, TypeDef, TypeDefKind, field_types, case_types, own, borrow,
}
use wai_bindgen.Wit.Laws.{WfKind, Below, BelowOption, IsValue}
use wai_bindgen.Abi.Generator.{Result, ok, panic}
use wai_bindgen.Abi.PostReturn.{present}
use wai_bindgen.Abi.PostReturn.Decides.{
  HoldsList, HoldsListKind, list, alias, field, element, case_, payload, either, HoldsListAny, here,
  there, Decides, holds, fails, Decides-iff,
}
use wai_bindgen.Types.{
  TypeInfo, default, bitor_assign, Types, get, Infos, adjust, optional_type_info, somes, all_infos,
  kind_info, def_info,
}

Decides-or :
    {A B : Type 0} {a b : Bool}
    → Decides A (ok a)
    → Decides B (ok b)
    → Decides (A ⊎ B) (ok (a || b))
Decides-or (holds p) d = holds (inl p)
Decides-or (fails n) (holds q) = holds (inr q)
Decides-or (fails n) (fails k) = fails (elim [ inl p ↦ n p | inr q ↦ k q ])

Decides-or_false : {A : Type 0} {a : Bool} → Decides A (ok a) → Decides A (ok (a || false))
Decides-or_false (holds p) = holds p
Decides-or_false (fails n) = fails n

present-somes : (ts : List WitType) → present (somes ts) ≡ ts
present-somes [] = refl
present-somes (t ∷ ts) = ap (λ l. t ∷ l) (present-somes ts)

-- Nothing is held yet.
nothing : Decides ⊥ (ok false)
nothing = fails (λ x. x)

module _ (w : Wit) (rank : TypeId → ℕ) where
  -- What is recorded of a type is right.
  abbrev pub IsSound : Types → Type 0
  IsSound m =
      (i : TypeId) (x : TypeInfo)
      → get m i ≡ some x
      → Decides (HoldsList w (WitType.id i)) (ok x.has_list)

  -- The run decides `P`, keeps the records right, and records only types of rank below `k`.
  pub data Gives (k : ℕ) (P : Type 0) (m : Types) : Result (TypeInfo × Types) → Type 0 where
    gives :
        {x : TypeInfo} {m' : Types}
        → Decides P (ok x.has_list)
        → IsSound m'
        → ((i : TypeId) → k ≤ rank i → get m' i ≡ get m i)
        → Gives k P m (ok (x, m'))

  abbrev pub Infers : ℕ → Type 0 → Infos → Type 0
  Infers k P run = (m : Types) → IsSound m → Gives k P m (run m)

  Gives-iff :
      {k : ℕ} {P Q : Type 0} {m : Types} {r : Result (TypeInfo × Types)}
      → (P → Q)
      → (Q → P)
      → Gives k P m r
      → Gives k Q m r
  Gives-iff f g (gives d s u) = gives (Decides-iff f g d) s u

  pub same_records :
      {k : ℕ} {P : Type 0} {m : Types} (x : TypeInfo)
      → Decides P (ok x.has_list)
      → IsSound m
      → Gives k P m (ok (x, m))
  same_records x d s = gives d s (λ i h. refl)

  -- The flag of the info of a run that returned.
  abbrev pub flag : Result (TypeInfo × Types) → Result Bool
  flag (ok (x, m)) = ok x.has_list
  flag (panic p) = panic p

  pub Gives-flag :
      {k : ℕ} {P : Type 0} {m : Types} {r : Result (TypeInfo × Types)}
      → Gives k P m r
      → Decides P (flag r)
  Gives-flag (gives d s u) = d

  after_records :
      {k : ℕ} {P : Type 0} {m m' : Types} {r : Result (TypeInfo × Types)}
      → ((i : TypeId) → k ≤ rank i → get m' i ≡ get m i)
      → Gives k P m' r
      → Gives k P m r
  after_records u (gives d s v) = gives d s (λ i h. v i h ∙ u i h)

  module _ (k : ℕ) (info : WitType → Infos)
      (infer : (t : WitType) → Below w rank k t → Infers k (HoldsList w t) (info t)) where
    then_all :
        {A : Type 0} {m : Types} {r : Result (TypeInfo × Types)} (acc : TypeInfo) (t : WitType)
        (os : List (Option WitType))
        → Decides A (ok acc.has_list)
        → Gives k (HoldsList w t) m r
        → ((a : TypeInfo) (B : Type 0)
            → Decides B (ok a.has_list)
            → Infers k (B ⊎ HoldsListAny w (present os)) (all_infos w info a os))
        → Gives k (A ⊎ HoldsListAny w (t ∷ present os)) m (elim r [
          | ok (x, m') ↦ all_infos w info (bitor_assign acc x) os m'
          | panic p ↦ panic p
        ])
    then_all acc t os d (gives e s u) rest = after_records u (
        Gives-iff
          (elim [ inl (inl a) ↦ inl a | inl (inr h) ↦ inr (here h) | inr h ↦ inr (there h) ])
          (elim [ inl a ↦ inl (inl a) | inr (here h) ↦ inl (inr h) | inr (there h) ↦ inr h ])
          (rest _ _ (Decides-or d e) _ s))

    all_infos-Infers :
        (os : List (Option WitType)) (acc : TypeInfo) (A : Type 0)
        → All (BelowOption w rank k) os
        → Decides A (ok acc.has_list)
        → Infers k (A ⊎ HoldsListAny w (present os)) (all_infos w info acc os)
    unfolding all_infos optional_type_info
    all_infos-Infers [] acc A b d m s =
        same_records acc (Decides-iff inl (elim [ inl a ↦ a | inr h ↦ elim h [ ] ]) d) s
    all_infos-Infers (none ∷ os) acc A b d m s =
        all_infos-Infers os (bitor_assign acc default) A b.1 (Decides-or_false d) m s
    all_infos-Infers (some t ∷ os) acc A b d m s =
        then_all acc t os d (infer t b.0 m s) λ a B e. all_infos-Infers os a B b.1 e

    held_types :
        (os : List (Option WitType)) (P : Type 0)
        → (HoldsListAny w (present os) → P)
        → (P → HoldsListAny w (present os))
        → All (BelowOption w rank k) os
        → Infers k P (all_infos w info default os)
    held_types os P f g b m s =
        Gives-iff (elim [ inl x ↦ absurd x | inr h ↦ f h ]) (λ p. inr (g p))
          (all_infos-Infers os default ⊥ b nothing m s)

    Below-somes :
        (ts : List WitType) → All (Below w rank k) ts → All (BelowOption w rank k) (somes ts)
    Below-somes [] b = tt
    Below-somes (t ∷ ts) b = (b.0, Below-somes ts b.1)

    held_fields :
        (ts : List WitType) (P : Type 0)
        → (HoldsListAny w ts → P)
        → (P → HoldsListAny w ts)
        → All (Below w rank k) ts
        → Infers k P (all_infos w info default (somes ts))
    held_fields ts P f g b =
        held_types (somes ts) P (λ h. f (subst (λ l. HoldsListAny w l) (present-somes ts) h))
          (λ p. subst (λ l. HoldsListAny w l) (sym (present-somes ts)) (g p)) (Below-somes ts b)

    adjust-Gives :
        {P Q : Type 0} {m : Types} (run : Infos) (f : TypeInfo → TypeInfo)
        → ((x : TypeInfo) → Decides P (ok x.has_list) → Decides Q (ok (f x).has_list))
        → Gives k P m (run m)
        → Gives k Q m (adjust f run m)
    unfolding adjust
    adjust-Gives run f h g = adjusted f h g
      where
        adjusted :
            {P Q : Type 0} {m : Types} {r : Result (TypeInfo × Types)} (f : TypeInfo → TypeInfo)
            → ((x : TypeInfo) → Decides P (ok x.has_list) → Decides Q (ok (f x).has_list))
            → Gives k P m r
            → Gives k Q m (elim r [ ok (info, m') ↦ ok (f info, m') | panic p ↦ panic p ])
        adjusted f h (gives d s u) = gives (h _ d) s u

    kind_info-Infers :
        (d : TypeDef) (kind : TypeDefKind)
        → WfKind w rank k d kind
        → IsValue kind
        → Infers k (HoldsListKind w kind) (kind_info w info kind)
    unfolding kind_info
    kind_info-Infers d (TypeDefKind.record_ fields) wf v m s =
        held_fields (field_types fields) _ field (elim [ field h ↦ h ]) wf.1 m s
    kind_info-Infers d (TypeDefKind.handle (own i)) wf v m s =
        same_records _ (fails (λ h. elim h [ ])) s
    kind_info-Infers d (TypeDefKind.handle (borrow i)) wf v m s =
        same_records _ (fails (λ h. elim h [ ])) s
    kind_info-Infers d (TypeDefKind.tuple types) wf v m s =
        adjust-Gives _ _ (λ x d. d) (held_fields types _ element (elim [ element h ↦ h ]) wf m s)
    kind_info-Infers d (TypeDefKind.flags f) wf v m s = same_records _ (fails (λ h. elim h [ ])) s
    kind_info-Infers d (TypeDefKind.enum e) wf v m s = same_records _ (fails (λ h. elim h [ ])) s
    kind_info-Infers d (TypeDefKind.variant cases) wf v m s =
        held_types (case_types cases) _ case_ (elim [ case_ h ↦ h ]) wf.1 m s
    kind_info-Infers d (TypeDefKind.list t) wf v m s =
        adjust-Gives _ _ (λ x d. holds list) (infer t wf m s)
    kind_info-Infers d (TypeDefKind.type t) wf v m s =
        Gives-iff alias (elim [ alias h ↦ h ]) (infer t wf m s)
    kind_info-Infers d (TypeDefKind.option t) wf v m s =
        Gives-iff payload (elim [ payload h ↦ h ]) (infer t wf m s)
    kind_info-Infers d (TypeDefKind.result a b) wf v m s =
        held_types (a ∷ b ∷ []) _ either (elim [ either h ↦ h ]) (wf.0, (wf.1, tt)) m s
    kind_info-Infers d (TypeDefKind.future t) wf v m s = same_records _ (fails (λ h. elim h [ ])) s
    kind_info-Infers d (TypeDefKind.stream t) wf v m s = same_records _ (fails (λ h. elim h [ ])) s
    kind_info-Infers d TypeDefKind.error_context wf v m s =
        same_records _ (fails (λ h. elim h [ ])) s
    kind_info-Infers d TypeDefKind.resource wf v m s = absurd v
    kind_info-Infers d TypeDefKind.unknown wf v m s = absurd v

    pub def_info-Infers :
        (o : Option TypeDef) (d : TypeDef)
        → o ≡ some d
        → WfKind w rank k d d.kind
        → IsValue d.kind
        → Infers k (HoldsListKind w d.kind) (def_info w info o)
    unfolding def_info
    def_info-Infers o d e wf v m s = rw e (kind_info-Infers d d.kind wf v m s)
