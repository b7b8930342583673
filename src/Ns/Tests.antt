-- ===== src/Ns/Tests.antt =====
-- The theorem about crates/core/src/ns.rs on names that are in use.
use wai_bindgen.Prelude.{ℕ, ◌≡◌, ◌≤◌, ◌<◌, ◌⊎◌, false, some, [], ◌∷◌}
use wai_bindgen.Source.Str.{Text}
use wai_bindgen.Ns.{Ns, tmp}
use wai_bindgen.Ns.Names.{contains}
use wai_bindgen.Ns.Fresh.{numbered, tmp-fresh}

-- `a` and `a0` are in use.
abbrev used : Ns
used = record { defined = (97 ∷ []) ∷ (97 ∷ 48 ∷ []) ∷ []; suffix = 0 }

tmp-fresh_example :
    (r : Text) × ((after : Ns) × ((tmp (97 ∷ []) used ≡ some (r, after))
        × ((contains r used.defined ≡ false)
            × ((after.defined ≡ r ∷ used.defined)
                × ((used.suffix ≤ after.suffix)
                    × ((r ≡ 97 ∷ [])
                        ⊎ ((k : ℕ) × ((r ≡ numbered (97 ∷ []) k)
                              × ((used.suffix ≤ k) × (k < after.suffix))))))))))
tmp-fresh_example = tmp-fresh (97 ∷ []) used
