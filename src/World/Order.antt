-- ===== src/World/Order.antt =====
-- The order in which `generate` calls the methods of a backend.
use mathlib.Core.List.{append-nil, append_assoc}
use wai_bindgen.Prelude.{◌≡◌, refl, sym, ap, ◌∙◌, List, [], ◌∷◌, ◌++◌, All}
use wai_bindgen.World.{
  WorldKey, WorldItem, Items, Run, done, error, panic, Functions, TypeNames, Interfaces,
  WorldGenerator, ◌>>=◌, import_items, export_items, export_interfaces, types_if_any, funcs_if_any,
  exports_if_any, generate,
}
use wai_bindgen.World.Calls.{
  Call, finish_imports, pre_export_interface, finish, import_types, import_funcs, export_funcs,
  functions_of, types_of, interfaces_of, unless_empty, imported, exported, export_calls, calls,
  IsImport, IsExport, perform, perform_all,
}

module _ {S E : Type 0} (g : WorldGenerator S E) where
  bind_assoc :
      {A B C : Type 0} (r : Run E A) (f : A → Run E B) (k : B → Run E C)
      → ((r >>= f) >>= k) ≡ (r >>= λ a. f a >>= k)
  bind_assoc (done a) f k = refl
  bind_assoc (error e) f k = refl
  bind_assoc panic f k = refl

  bind_congr :
      {A B : Type 0} (r : Run E A) (f k : A → Run E B)
      → ((a : A) → f a ≡ k a)
      → (r >>= f) ≡ (r >>= k)
  bind_congr (done a) f k e = e a
  bind_congr (error x) f k e = refl
  bind_congr panic f k e = refl

  perform_all-append :
      (a b : List Call) (s : S) → perform_all g (a ++ b) s ≡ (perform_all g a s >>= perform_all g b)
  unfolding perform_all
  perform_all-append [] b s = refl
  perform_all-append (c ∷ a) b s =
      bind_congr (perform g c s) (perform_all g (a ++ b))
        (λ t. perform_all g a t >>= perform_all g b) (perform_all-append a b)
      ∙ sym (bind_assoc (perform g c s) (perform_all g a) (perform_all g b))

  import_items-calls :
      (items : Items) (fs : Functions) (ts : TypeNames) (s : S)
      → All IsImport items
      → import_items g items fs ts s ≡ (
          perform_all g (imported (interfaces_of items)) s >>= λ t.
          done ((fs ++ functions_of items, ts ++ types_of items), t))
  unfolding import_items perform_all perform functions_of types_of interfaces_of IsImport
  import_items-calls [] fs ts s a =
      ap (λ l. done ((l, ts), s)) (sym (append-nil fs))
      ∙ ap (λ l. done ((fs ++ [], l), s)) (sym (append-nil ts))
  import_items-calls ((WorldKey.name n, WorldItem.function f) ∷ items) fs ts s a =
      import_items-calls items (fs ++ (n, f) ∷ []) ts s a.1
      ∙ ap
          (λ l. perform_all g (imported (interfaces_of items)) s >>= λ t.
            done ((l, ts ++ types_of items), t))
          (append_assoc fs ((n, f) ∷ []) (functions_of items))
  import_items-calls ((WorldKey.interface k, WorldItem.function f) ∷ items) fs ts s a = absurd a.0
  import_items-calls ((WorldKey.interface k, WorldItem.interface i) ∷ items) fs ts s a =
      bind_congr (g.import_interface (WorldKey.interface k) i s) _ _
        (λ t. import_items-calls items fs ts t a.1)
      ∙ sym (bind_assoc (g.import_interface (WorldKey.interface k) i s) _ _)
  import_items-calls ((WorldKey.name k, WorldItem.interface i) ∷ items) fs ts s a =
      bind_congr (g.import_interface (WorldKey.name k) i s) _ _
        (λ t. import_items-calls items fs ts t a.1)
      ∙ sym (bind_assoc (g.import_interface (WorldKey.name k) i s) _ _)
  import_items-calls ((WorldKey.name n, WorldItem.type t) ∷ items) fs ts s a =
      import_items-calls items fs (ts ++ (n, t) ∷ []) s a.1
      ∙ ap
          (λ l. perform_all g (imported (interfaces_of items)) s >>= λ u.
            done ((fs ++ functions_of items, l), u))
          (append_assoc ts ((n, t) ∷ []) (types_of items))
  import_items-calls ((WorldKey.interface k, WorldItem.type t) ∷ items) fs ts s a = absurd a.0

  export_items-found :
      (items : Items) (fs : Functions) (is : Interfaces)
      → All IsExport items
      → export_items g items fs is ≡ done (fs ++ functions_of items, is ++ interfaces_of items)
  unfolding export_items functions_of interfaces_of IsExport
  export_items-found [] fs is a =
      ap (λ l. done (l, is)) (sym (append-nil fs))
      ∙ ap (λ l. done (fs ++ [], l)) (sym (append-nil is))
  export_items-found ((WorldKey.name n, WorldItem.function f) ∷ items) fs is a =
      export_items-found items (fs ++ (n, f) ∷ []) is a.1
      ∙ ap (λ l. done (l, is ++ interfaces_of items))
          (append_assoc fs ((n, f) ∷ []) (functions_of items))
  export_items-found ((WorldKey.interface k, WorldItem.function f) ∷ items) fs is a = absurd a.0
  export_items-found ((WorldKey.interface k, WorldItem.interface i) ∷ items) fs is a =
      export_items-found items fs (is ++ (WorldKey.interface k, i) ∷ []) a.1
      ∙ ap (λ l. done (fs ++ functions_of items, l))
          (append_assoc is ((WorldKey.interface k, i) ∷ []) (interfaces_of items))
  export_items-found ((WorldKey.name k, WorldItem.interface i) ∷ items) fs is a =
      export_items-found items fs (is ++ (WorldKey.name k, i) ∷ []) a.1
      ∙ ap (λ l. done (fs ++ functions_of items, l))
          (append_assoc is ((WorldKey.name k, i) ∷ []) (interfaces_of items))
  export_items-found ((WorldKey.name k, WorldItem.type t) ∷ items) fs is a = absurd a.0
  export_items-found ((WorldKey.interface k, WorldItem.type t) ∷ items) fs is a = absurd a.0

  export_interfaces-calls :
      (is : Interfaces) (s : S) → export_interfaces g is s ≡ perform_all g (exported is) s
  unfolding export_interfaces perform_all perform
  export_interfaces-calls [] s = refl
  export_interfaces-calls ((key, i) ∷ is) s =
      bind_congr (g.export_interface key i s) _ _ (export_interfaces-calls is)

  types_if_any-calls :
      (ts : TypeNames) (s : S)
      → perform_all g (unless_empty import_types ts) s ≡ done (types_if_any g ts s)
  unfolding types_if_any unless_empty perform_all perform
  types_if_any-calls [] s = refl
  types_if_any-calls (t ∷ ts) s = refl

  funcs_if_any-calls :
      (fs : Functions) (s : S)
      → perform_all g (unless_empty import_funcs fs) s ≡ done (funcs_if_any g fs s)
  unfolding funcs_if_any unless_empty perform_all perform
  funcs_if_any-calls [] s = refl
  funcs_if_any-calls (t ∷ ts) s = refl

  bind_done : (r : Run E S) → (r >>= λ s. done s) ≡ r
  bind_done (done a) = refl
  bind_done (error e) = refl
  bind_done panic = refl

  exports_if_any-calls :
      (fs : Functions) (s : S)
      → perform_all g (unless_empty export_funcs fs) s ≡ exports_if_any g fs s
  unfolding exports_if_any unless_empty perform_all perform
  exports_if_any-calls [] s = refl
  exports_if_any-calls (t ∷ ts) s = bind_done (g.export_funcs (t ∷ ts) s)

  perform_all-done :
      (a b : List Call) (s s' : S)
      → perform_all g a s ≡ done s'
      → perform_all g (a ++ b) s ≡ perform_all g b s'
  perform_all-done a b s s' e = perform_all-append a b s ∙ ap (λ r. r >>= perform_all g b) e

  finish_at : Interfaces → S → Run E S
  finish_at is r = g.pre_export_interface r >>= λ u. export_interfaces g is u >>= g.finish

  finish_at-calls :
      (is : Interfaces) (s : S)
      → perform_all g (pre_export_interface ∷ (exported is ++ (finish ∷ []))) s ≡ finish_at is s
  unfolding finish_at perform_all perform
  finish_at-calls is s = bind_congr (g.pre_export_interface s) _ _ (λ u.
      perform_all-append (exported is) (finish ∷ []) u
      ∙ ap (λ r. r >>= perform_all g (finish ∷ [])) (sym (export_interfaces-calls is u))
      ∙ bind_congr (export_interfaces g is u) _ _ (λ v. bind_done (g.finish v)))

  export_calls-run :
      (exports : Items) (s : S)
      → perform_all g (export_calls exports) s
        ≡ (exports_if_any g (functions_of exports) s >>= finish_at (interfaces_of exports))
  export_calls-run exports s =
      let rest = pre_export_interface ∷ (exported (interfaces_of exports) ++ (finish ∷ [])) in
      perform_all-append (unless_empty export_funcs (functions_of exports)) rest s
      ∙ ap (λ r. r >>= perform_all g rest) (exports_if_any-calls (functions_of exports) s)
      ∙ bind_congr (exports_if_any g (functions_of exports) s) _ _
          (finish_at-calls (interfaces_of exports))

  -- Whatever the backend's methods do and return, `generate` performs the calls for the world one
  -- after the other, up to the first that fails: the interfaces that are imported, then the types
  -- and the functions, the end of the imports, the functions that are exported and then the
  -- interfaces. Functions and types have a name as their key, and no type is exported.
  pub generate-calls :
      (imports exports : Items) (s : S)
      → All IsImport imports
      → All IsExport exports
      → generate g imports exports s ≡ perform_all g (calls imports exports) s
  unfolding generate perform_all perform finish_at
  generate-calls imports exports s a b =
      let s1 = g.preprocess s in
      let fs = functions_of imports in
      let ts = types_of imports in
      let after : (Functions × TypeNames) × S → Run E S = λ i.
        (export_items g exports [] [] >>= λ x.
        exports_if_any g x.0 (g.finish_imports (funcs_if_any g i.0.0 (types_if_any g i.0.1 i.1)))
        >>= finish_at x.1) in
      ap (λ r. r >>= after) (import_items-calls imports [] [] s1 a)
      ∙ bind_assoc (perform_all g (imported (interfaces_of imports)) s1) _ after
      ∙ bind_congr (perform_all g (imported (interfaces_of imports)) s1) _ _ (λ t.
        let t1 = types_if_any g ts t in
        let t2 = funcs_if_any g fs t1 in
        ap (λ r. r >>= λ x. exports_if_any g x.0 (g.finish_imports t2) >>= finish_at x.1)
          (export_items-found exports [] [] b)
        ∙ sym (export_calls-run exports (g.finish_imports t2))
        ∙ sym (
            perform_all-done (unless_empty import_funcs fs) (finish_imports ∷ export_calls exports)
              t1 t2 (funcs_if_any-calls fs t1))
        ∙ sym (perform_all-done (unless_empty import_types ts) _ t t1 (types_if_any-calls ts t)))
      ∙ sym (perform_all-append (imported (interfaces_of imports)) _ s1)
