-- ===== src/Types/HasList.antt =====
-- `type_info` of crates/core/src/types.rs finds the types that can hold a list or a string, and what
-- it records of a type is what it computes for it.
use wai_bindgen.Prelude.{
  ℕ, zero, suc, ◌+◌, ◌≤◌, ◌≡◌, refl, sym, ◌∙◌, subst, ap, Bool, true, false, inl, inr, none, some,
  arith, ◌==◌, Bool-cases, Option-cases, if◌then◌else◌,
}
use mathlib.Core.Option.{some-injective}
use wai_bindgen.Wit.{Wit, WitType, TypeId, TypeDef, type_def}
use wai_bindgen.Wit.Laws.{IsWellFormed, Below}
use wai_bindgen.Abi.Generator.{Result, ok}
use wai_bindgen.Abi.PostReturn.{needs_post_return}
use wai_bindgen.Abi.PostReturn.Decides.{
  HoldsList, string, defined, HoldsListKind, Decides, holds, fails, Decides-iff, HoldsList-def,
  needs_post_return-Decides,
}
use wai_bindgen.Types.{
  TypeInfo, Types, get, insert_info, def_info, type_id_body, type_body, type_info,
}
use wai_bindgen.Types.Infers.{
  IsSound, Gives, gives, same_records, flag, Gives-flag, def_info-Infers,
}

Decides-unique : {P : Type 0} {r s : Result Bool} → Decides P r → Decides P s → r ≡ s
Decides-unique (holds p) (holds q) = refl
Decides-unique (holds p) (fails n) = absurd (n p)
Decides-unique (fails n) (holds p) = absurd (n p)
Decides-unique (fails n) (fails k) = refl

eq_of_eqb : (a b : ℕ) → (a == b) ≡ true → a ≡ b
eq_of_eqb a b h = ground arith

module _ (w : Wit) (rank : TypeId → ℕ) where
  sound_record :
      (m : Types) (i j : TypeId) (x y : TypeInfo) (b : Bool)
      → Decides (HoldsList w (WitType.id i)) (ok x.has_list)
      → IsSound w rank m
      → (j == i) ≡ b
      → (if b then some x else get m j) ≡ some y
      → Decides (HoldsList w (WitType.id j)) (ok y.has_list)
  sound_record m i j x y true d s e h =
      subst (λ j. Decides (HoldsList w (WitType.id j)) (ok y.has_list)) (sym (eq_of_eqb j i e))
        (subst (λ (x : TypeInfo). Decides (HoldsList w (WitType.id i)) (ok x.has_list))
          (some-injective _ _ h) d)
  sound_record m i j x y false d s e h = s j y h

  other_record : {r : ℕ} (i j : TypeId) → suc (rank i) ≤ r → r ≤ rank j → (j == i) ≡ false
  other_record i j lt le = elim (Bool-cases (j == i)) [
    | inl e ↦ absurd (omega (arith, lt, le, ap rank (eq_of_eqb j i e)))
    | inr e ↦ e
  ]

  recorded :
      {m : Types} {res : Result (TypeInfo × Types)} (r : ℕ) (i : TypeId) (d : TypeDef)
      → type_def w i ≡ some d
      → suc (rank i) ≤ r
      → get m i ≡ none
      → Gives w rank (rank i) (HoldsListKind w d.kind) m res
      → Gives w rank r (HoldsList w (WitType.id i)) m (insert_info i res)
  unfolding insert_info
  recorded r i d found lt new (gives {x} {m'} dd s u) =
      let held = Decides-iff (defined d found) (HoldsList-def w i d found) dd in
      rw (u i (omega arith) ∙ new, insert_info)
        (gives held (λ j y h. sound_record m' i j x y (j == i) held s refl h)
          (λ j le. rw (other_record i j lt le) (u j (omega (arith, lt, le)))))

  module _ (wf : IsWellFormed w rank) where
    -- From sound records, `type_info` decides whether a value of the type can hold a list or a
    -- string, and its records are sound again, for a type of rank below `r` in a well-formed
    -- resolution and fuel `r + 1`. It does not panic: no type is recorded twice.
    pub type_info-Gives :
        (n r : ℕ) (t : WitType)
        → Below w rank r t
        → r + 1 ≤ n
        → (m : Types) → IsSound w rank m
        → Gives w rank r (HoldsList w t) m (type_info w n t m)
    unfolding type_info type_body type_id_body def_info
    type_info-Gives zero r t b fuel m s = absurd (omega arith)
    type_info-Gives (suc n) r WitType.string b fuel m s = same_records w rank _ (holds string) s
    type_info-Gives (suc n) r (WitType.id i) (d, found, v, lt) fuel m s =
        elim (Option-cases (get m i)) [
          | inl e ↦
              rw (e, type_id_body)
                (recorded r i d found lt e (
                  def_info-Infers w rank (rank i) (type_info w n)
                    (λ t b. type_info-Gives n (rank i) t b (omega (arith, fuel, lt))) (type_def w i)
                    d found (wf.defined i d found) v m s))
          | inr e ↦ rw (e.1, type_id_body) (same_records w rank e.0 (s i e.0 e.1) s)
        ]
    type_info-Gives (suc n) r _ b fuel m s = same_records w rank _ (fails (λ h. elim h [ ])) s

    -- The info of a type says that it has a list exactly when `needs_post_return` accepts the type:
    -- for a type of rank below `r` in a well-formed resolution, fuel `r + 1` and sound records,
    -- whatever `type_info` returns, and it returns by `type_info-Gives`.
    pub needs_post_return-type_info :
        (n r : ℕ) (t : WitType)
        → Below w rank r t
        → r + 1 ≤ n
        → (m m' : Types) (x : TypeInfo) → IsSound w rank m
        → type_info w n t m ≡ ok (x, m')
        → needs_post_return w n t ≡ ok x.has_list
    needs_post_return-type_info n r t b fuel m m' x s e =
        Decides-unique (needs_post_return-Decides w rank wf n r t b fuel) (
          subst (λ y. Decides (HoldsList w t) (flag w rank y)) e
            (Gives-flag w rank (type_info-Gives n r t b fuel m s)))
