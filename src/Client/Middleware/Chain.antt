-- ===== src/Client/Middleware/Chain.antt =====
-- The pipeline runs its middleware in order, up to the first error.
use joe_cli_http.Prelude.{
  List, [], ◌∷◌, ◌++◌, Option, none, some, suc, get_elem?, length, ◌≡◌, refl, ap, ◌∙◌, arith,
  Option-cases, inl, inr, subst, length-append, append_assoc,
}
use mathlib.Core.Path.{fun_ext}
use joe_cli_http.Client.Middleware.{
  Handler, Middleware, func_handle, compose_middleware, yielder, composite_handle,
}

-- An argument of `ComposeMiddleware`: the nil interface, or a `MiddlewareFunc`, which may be nil and
-- is not the nil interface then.
abbrev pub Func : Type 0 → Type 0 → Type 0
Func R E = Option (Option (Handler R E))

module _ {R E : Type 0} where
  -- Each is handed the rest of the list, and the last an empty function.
  abbrev pub chain : List (Middleware R E) → Handler R E
  chain [] r = (r, none)
  chain (m ∷ ms) r = m r (some (chain ms))

  -- One function after another, up to the first error.
  abbrev pub run_in_order : List (Handler R E) → Handler R E
  run_in_order [] r = (r, none)
  run_in_order (f ∷ fs) r =
      let (q, e) = f r in elim e [ some x ↦ (q, some x) | none ↦ run_in_order fs q ]

  -- The functions that are not nil
  abbrev pub present : List (Func R E) → List (Handler R E)
  present [] = []
  present (none ∷ fs) = present fs
  present (some none ∷ fs) = present fs
  present (some (some f) ∷ fs) = f ∷ present fs

  abbrev pub handles : E → List (Func R E) → List (Option (Middleware R E))
  handles panic [] = []
  handles panic (none ∷ fs) = none ∷ handles panic fs
  handles panic (some f ∷ fs) = some (func_handle panic f) ∷ handles panic fs

  get_elem?-drop :
      (before : List (Middleware R E)) (m : Middleware R E) (ms : List (Middleware R E))
      → get_elem? (before ++ m ∷ ms) (length before) ≡ some m
  get_elem?-drop [] m ms = refl
  get_elem?-drop (b ∷ before) m ms = get_elem?-drop before m ms

  yielder-chain :
      (ms before : List (Middleware R E))
      → yielder (before ++ ms) (length ms) (length before) ≡ chain ms
  unfolding yielder
  yielder-chain [] before = refl
  yielder-chain (m ∷ ms) before =
      let later : yielder (before ++ m ∷ ms) (length ms) (suc (length before)) ≡ chain ms =
        subst (λ n. yielder (before ++ m ∷ ms) (length ms) n ≡ chain ms)
          (length-append before (m ∷ []) ∙ omega arith)
          (subst (λ l. yielder l (length ms) (length (before ++ m ∷ [])) ≡ chain ms)
            (append_assoc before (m ∷ []) ms) (yielder-chain ms (before ++ m ∷ []))) in
      rw (get_elem?-drop before m ms, yielder) (fun_ext (λ r. ap (λ k. m r (some k)) later))

  -- A composite hands each piece of middleware the rest of the list, by index, and the last an empty
  -- function; the `next` of the composite itself is not called.
  pub composite_handle-chain :
      (ms : List (Middleware R E)) (r : R) (next : Option (Handler R E))
      → composite_handle ms r next ≡ chain ms r
  unfolding composite_handle
  composite_handle-chain ms r next = ap (λ (k : Handler R E). k r) (yielder-chain ms [])

  chain-run_in_order :
      (panic : E) (fs : List (Func R E)) (r : R)
      → chain (compose_middleware (handles panic fs)) r ≡ run_in_order (present fs) r
  unfolding compose_middleware func_handle
  chain-run_in_order panic [] r = refl
  chain-run_in_order panic (none ∷ fs) r = chain-run_in_order panic fs r
  chain-run_in_order panic (some none ∷ fs) r = chain-run_in_order panic fs r
  chain-run_in_order panic (some (some f) ∷ fs) r = elim (Option-cases (f r).1) [
    | inl e ↦ rw (e, func_handle) (chain-run_in_order panic fs (f r).0)
    | inr (x, e) ↦ rw (e, func_handle)
  ]

  -- A composite of functions, some of them nil and some the nil interface, runs those that are not in
  -- their order, each on the request that the one before it left, and does not panic by itself; the
  -- first error ends it, and is its error.
  pub composite_handle-run_in_order :
      (panic : E) (fs : List (Func R E)) (r : R) (next : Option (Handler R E))
      → composite_handle (compose_middleware (handles panic fs)) r next
        ≡ run_in_order (present fs) r
  composite_handle-run_in_order panic fs r next =
      composite_handle-chain (compose_middleware (handles panic fs)) r next
      ∙ chain-run_in_order panic fs r
