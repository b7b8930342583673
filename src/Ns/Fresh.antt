-- ===== src/Ns/Fresh.antt =====
-- `Ns::tmp` finds a name that is not in use.
use mathlib.Core.List.{append_cancel_left}
use wai_bindgen.Prelude.{
  ℕ, zero, suc, ◌+◌, ◌≡◌, ◌≢◌, ◌≤◌, ◌<◌, refl, sym, ◌∙◌, true, false, none, some, List, [], ◌∷◌,
  ◌++◌, if◌then◌else◌, length, Bool-cases, Option-cases, ◌⊎◌, inl, inr, arith,
}
use wai_bindgen.Source.Str.{Text}
use wai_bindgen.Ns.{Ns, tmp_loop, tmp}
use wai_bindgen.Ns.Names.{text_eq, contains, decimal, text_eq_sound}
use wai_bindgen.Ns.Decimal.{decimal-injective}

-- A name with a number behind it.
abbrev pub numbered : Text → ℕ → Text
numbered name k = name ++ decimal k

-- How many of the first `n` numbers from `c` give a name that is in use.
unfoldable hits : Text → List Text → ℕ → ℕ → ℕ
hits name l c zero = 0
hits name l c (suc n) = (if contains (numbered name c) l then 1 else 0) + hits name l (c + 1) n

hits_nil : (name : Text) (c n : ℕ) → hits name [] c n ≡ 0
unfolding hits contains
hits_nil name c zero = refl
hits_nil name c (suc n) = omega (arith, hits_nil name (c + 1) n)

hits_cons :
    (name x : Text) (l : List Text) (c n : ℕ)
    → hits name (x ∷ l) c n ≤ hits name (x ∷ []) c n + hits name l c n
unfolding hits contains
hits_cons name x l c zero = omega arith
hits_cons name x l c (suc n) = ground (arith, hits_cons name x l (c + 1) n)

-- None of the numbers above one that gives `x` gives `x` again.
hits_above :
    (name x : Text) (k c n : ℕ)
    → text_eq (numbered name k) x ≡ true
    → k < c
    → hits name (x ∷ []) c n ≡ 0
unfolding hits contains
hits_above name x k c zero e lt = refl
hits_above name x k c (suc n) e lt =
    let ih = hits_above name x k (c + 1) n e (omega arith) in
    elim (Bool-cases (text_eq (numbered name c) x)) [
      | inr q ↦ ground (arith, q, ih)
      | inl q ↦
          let same : numbered name k ≡ numbered name c =
            text_eq_sound (numbered name k) x e ∙ sym (text_eq_sound (numbered name c) x q) in
          let equal =
            decimal-injective k c (append_cancel_left name (decimal k) (decimal c) same) in
          absurd (omega (arith, equal))
    ]

hits_one : (name x : Text) (c n : ℕ) → hits name (x ∷ []) c n ≤ 1
unfolding hits contains
hits_one name x c zero = omega arith
hits_one name x c (suc n) = elim (Bool-cases (text_eq (numbered name c) x)) [
  | inl q ↦ ground (arith, q, hits_above name x c (c + 1) n q (omega arith))
  | inr q ↦ ground (arith, q, hits_one name x (c + 1) n)
]

hits_bound : (name : Text) (l : List Text) (c n : ℕ) → hits name l c n ≤ length l
hits_bound name [] c n = omega (arith, hits_nil name c n)
hits_bound name (x ∷ l) c n =
    omega (arith, hits_cons name x l c n, hits_one name x c n, hits_bound name l c n)

-- A loop that runs out of tests has met names in use only.
loop_hits :
    (fuel : ℕ) (name : Text) (self : Ns)
    → tmp_loop fuel name (numbered name self.suffix) (record self { suffix = self.suffix + 1 })
      ≡ none
    → hits name self.defined self.suffix fuel ≡ fuel
unfolding tmp_loop hits
loop_hits zero name self e = refl
loop_hits (suc fuel) name self e =
    let ih = loop_hits fuel name (record self { suffix = self.suffix + 1 }) in ground (arith, e, ih)

after_first :
    (fuel : ℕ) (name ret : Text) (self : Ns)
    → tmp_loop (suc fuel) name ret self ≡ none
    → tmp_loop fuel name (numbered name self.suffix) (record self { suffix = self.suffix + 1 })
      ≡ none
unfolding tmp_loop
after_first fuel name ret self e = ground arith

tmp-returns : (name : Text) (self : Ns) → tmp name self ≢ none
unfolding tmp
tmp-returns name self e =
    let bound = hits_bound name self.defined self.suffix (suc (length self.defined)) in
    let all =
      loop_hits (suc (length self.defined)) name self
        (after_first (suc (length self.defined)) name name self e) in
    absurd (omega (arith, bound, all))

-- What the loop gives.
Found : Text → Text → Ns → Text → Ns → Type 0
Found name ret self r after =
    (contains r self.defined ≡ false)
    × ((after.defined ≡ r ∷ self.defined)
        × ((self.suffix ≤ after.suffix)
            × ((r ≡ ret)
                ⊎ ((k : ℕ) × ((r ≡ numbered name k) × ((self.suffix ≤ k) × (k < after.suffix)))))))

loop-Found :
    (fuel : ℕ) (name ret : Text) (self : Ns) (r : Text) (after : Ns)
    → tmp_loop fuel name ret self ≡ some (r, after)
    → Found name ret self r after
unfolding tmp_loop Found
loop-Found zero name ret self r after e = absurd (ground arith)
loop-Found (suc fuel) name ret self r after e = elim (Bool-cases (contains ret self.defined)) [
  | inl used ↦
      let ih =
        loop-Found fuel name (numbered name self.suffix) (record self { suffix = self.suffix + 1 })
          r after (ground (arith, e, used)) in
      (
        ih.0,
        (
          ih.1.0,
          (
            omega (arith, ih.1.1.0),
            elim ih.1.1.1 [
              | inl q ↦ inr (self.suffix, (q, (omega arith, omega (arith, ih.1.1.0))))
              | inr q ↦ inr (q.0, (q.1.0, (omega (arith, q.1.1.0), q.1.1.1)))
            ],
          ),
        ),
      )
  | inr free ↦ (
    ground (arith, free, e),
    (ground (arith, free, e), (ground (arith, free, e), inl (ground (arith, free, e)))),
  )
]

-- A name that is asked for is found, whatever is in use: it was not in use, and then is; all that
-- was in use still is; it is the name itself, or the name with a number that is not used again.
pub tmp-fresh :
    (name : Text) (self : Ns)
    → (r : Text) × ((after : Ns) × ((tmp name self ≡ some (r, after))
          × ((contains r self.defined ≡ false)
              × ((after.defined ≡ r ∷ self.defined)
                  × ((self.suffix ≤ after.suffix)
                      × ((r ≡ name)
                          ⊎ ((k : ℕ) × ((r ≡ numbered name k)
                                × ((self.suffix ≤ k) × (k < after.suffix))))))))))
unfolding Found tmp
tmp-fresh name self = elim (Option-cases (tmp name self)) [
  | inl e ↦ absurd (tmp-returns name self e)
  | inr q ↦ (
    q.0.0,
    (q.0.1, (q.1, loop-Found (suc (suc (length self.defined))) name name self q.0.0 q.0.1 q.1)),
  )
]
