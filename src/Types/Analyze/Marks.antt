-- ===== src/Types/Analyze/Marks.antt =====
-- What the loops of `type_info_func` of crates/core/src/types.rs mark, where all types are recorded.
use wai_bindgen.Prelude.{
  ℕ, suc, ◌≡◌, ◌≢◌, refl, sym, ap, ◌∙◌, Bool, true, false, ◌&&◌, ◌||◌, Option, none, some, List, [],
  ◌∷◌, ◌==◌, if◌then◌else◌, All, arith, inl, inr, Bool-cases, Option-cases,
}
use wai_bindgen.Wit.{Wit, WitType, TypeId, type_def}
use wai_bindgen.Abi.Generator.{Result, ok, panic}
use wai_bindgen.Types.{TypeInfo, default, Types, get, type_info, type_body, type_id_body}
use wai_bindgen.Types.Analyze.{modify, set_info, is_named, mark_live, infer_all}

abbrev pub change : (TypeInfo → TypeInfo) → Option TypeInfo → Option TypeInfo
change f none = none
change f (some x) = some (f x)

pub get-modify :
    (f : TypeInfo → TypeInfo) (i : TypeId) (m : Types) (j : TypeId)
    → get (modify f i m) j ≡ (if j == i then change f (get m j) else get m j)
unfolding modify
get-modify f i [] j = ground arith
get-modify f i ((k, x) ∷ m) j = ground (arith, get-modify f i m j)

module _ (w : Wit) where
  -- Every type that there is has an info.
  unfoldable pub Recorded : Types → Type 0
  Recorded m = (i : TypeId) → type_def w i ≢ none → get m i ≢ none

  unfoldable pub named : TypeId → Bool
  named i = elim (is_named w i) [ ok b ↦ b | panic p ↦ false ]

  unfoldable pub marked : List TypeId → TypeId → Bool
  marked [] j = false
  marked (i ∷ is) j = (named i && (j == i)) || marked is j

  -- An id of a type that there is.
  unfoldable pub IsDefined : WitType → Type 0
  IsDefined (WitType.id i) = type_def w i ≢ none
  IsDefined _ = Unit

  pub record Marks (f : TypeInfo → TypeInfo) (hit : TypeId → Bool) (m : Types) (res : Result Types)
      : Type 0 where
    pub after : Types
    pub runs : res ≡ ok after
    pub marks : (j : TypeId) → get after j ≡ (if hit j then change f (get m j) else get m j)

  pub Recorded-Marks :
      {f : TypeInfo → TypeInfo} {hit : TypeId → Bool} {m : Types} {res : Result Types}
      → Recorded m
      → (r : Marks f hit m res) → Recorded r.after
  unfolding Recorded
  Recorded-Marks {f} {hit} {m} r s i e q = r i e (ground (arith, s.marks i, q))

  pub modify-Recorded :
      (f : TypeInfo → TypeInfo) (i : TypeId) (m : Types) → Recorded m → Recorded (modify f i m)
  unfolding Recorded
  modify-Recorded f i m r j e q = r j e (ground (arith, get-modify f i m j, q))

  is_named-named : (i : TypeId) → type_def w i ≢ none → is_named w i ≡ ok (named i)
  unfolding named is_named
  is_named-named i e = elim (Option-cases (type_def w i)) [
    | inl q ↦ absurd (e q)
    | inr q ↦ ground (arith, q.1)
  ]

  pub set_info-Recorded :
      (f : TypeInfo → TypeInfo) (i : TypeId) (m : Types)
      → Recorded m
      → type_def w i ≢ none
      → set_info f i m ≡ ok (modify f i m)
  unfolding set_info Recorded
  set_info-Recorded f i m r e = elim (Option-cases (get m i)) [
    | inl q ↦ absurd (r i e q)
    | inr q ↦ ground (arith, q.1)
  ]

  change-change :
      (f : TypeInfo → TypeInfo)
      → ((x : TypeInfo) → f (f x) ≡ f x)
      → (o : Option TypeInfo) → change f (change f o) ≡ change f o
  change-change f idem none = refl
  change-change f idem (some x) = ap some (idem x)

  pub both_marks :
      (f : TypeInfo → TypeInfo)
      → ((x : TypeInfo) → f (f x) ≡ f x)
      → (o : Option TypeInfo) (a b : Bool)
      → (if b then change f (if a then change f o else o) else (if a then change f o else o))
        ≡ (if a || b then change f o else o)
  both_marks f idem o true true = change-change f idem o
  both_marks f idem o true false = refl
  both_marks f idem o false true = refl
  both_marks f idem o false false = refl

  -- The types that are named are marked.
  pub mark_live-Marks :
      (f : TypeInfo → TypeInfo)
      → ((x : TypeInfo) → f (f x) ≡ f x)
      → (is : List TypeId) (m : Types) → All (λ i. type_def w i ≢ none) is
      → Recorded m
      → Marks f (marked is) m (mark_live w f is m)
  unfolding mark_live marked
  mark_live-Marks f idem [] m a r = record { after = m; runs = refl; marks = λ j. refl }
  mark_live-Marks f idem (i ∷ is) m a r =
      let asked = is_named-named i a.0 in
      elim (Bool-cases (named i)) [
        | inr is_clear ↦
            let ih = mark_live-Marks f idem is m a.1 r in
            record {
              after = ih.after;
              runs = ground (arith, asked, is_clear) ∙ ih.runs;
              marks = λ j. ground (arith, ih.marks j, is_clear);
            }
        | inl is_set ↦
            let ih = mark_live-Marks f idem is (modify f i m) a.1 (modify-Recorded f i m r) in
            record {
              after = ih.after;
              runs = ground (arith, asked, is_set, set_info-Recorded f i m r a.0) ∙ ih.runs;
              marks = λ j.
                  ih.marks j
                  ∙ ap (λ o. if marked is j then change f o else o) (get-modify f i m j)
                  ∙ both_marks f idem (get m j) (j == i) (marked is j)
                  ∙ ap (λ b. if (b && (j == i)) || marked is j then change f (get m j) else get m j)
                      (sym is_set);
            }
      ]

  known :
      (n : ℕ) (t : WitType) (m : Types)
      → IsDefined t
      → Recorded m
      → (x : TypeInfo) × (type_info w (suc n) t m ≡ ok (x, m))
  unfolding type_info type_body type_id_body Recorded IsDefined
  known n (WitType.id i) m d r = elim (Option-cases (get m i)) [
    | inl e ↦ absurd (r i d e)
    | inr q ↦ (q.0, ground (arith, q.1))
  ]
  known n WitType.string m d r = (record default { has_list = true }, refl)
  known n _ m d r = (default, refl)

  -- Where all types are recorded, `type_info` records nothing.
  pub infer_all-Recorded :
      (n : ℕ) (ts : List WitType) (m : Types)
      → All (λ t. IsDefined t) ts
      → Recorded m
      → infer_all w (suc n) ts m ≡ ok m
  unfolding infer_all
  infer_all-Recorded n [] m a r = refl
  infer_all-Recorded n (t ∷ ts) m a r =
      let q = known n t m a.0 r in
      let ih = infer_all-Recorded n ts m a.1 r in
      ap (λ x. elim x [ panic p ↦ panic p | ok y ↦ infer_all w (suc n) ts y.1 ]) q.1 ∙ ih
