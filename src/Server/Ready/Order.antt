-- ===== src/Server/Ready/Order.antt =====
-- The order in which the ready functions run.
use joe_cli_http.Prelude.{
  List, [], ◌∷◌, ◌++◌, Option, none, some, ◌≡◌, refl, ◌∙◌, append-nil, append_assoc,
}
use joe_cli_http.Server.Mux.{Server}
use joe_cli_http.Server.Ready.{
  ReadyFunc, Hooks, compose_ready_funcs, add_ready, actual_ready, or_idle,
}

module _ {H : Type 0} where
  abbrev pub add_all_ready : Hooks H → List (Option (ReadyFunc H)) → Hooks H
  add_all_ready h [] = h
  add_all_ready h (f ∷ fs) = add_all_ready (add_ready h f) fs

  -- The functions one after another, none of which is nil
  abbrev pub run_each : List (ReadyFunc H) → ReadyFunc H
  run_each [] s = (s, [])
  run_each (f ∷ fs) s = ((run_each fs (f s).0).0, (f s).1 ++ (run_each fs (f s).0).1)

  abbrev pub present_funcs : List (Option (ReadyFunc H)) → List (ReadyFunc H)
  present_funcs [] = []
  present_funcs (none ∷ fs) = present_funcs fs
  present_funcs (some f ∷ fs) = f ∷ present_funcs fs

  compose_ready_funcs-run_each :
      (fs : List (Option (ReadyFunc H))) (s : Server H)
      → compose_ready_funcs fs s ≡ run_each (present_funcs fs) s
  unfolding compose_ready_funcs
  compose_ready_funcs-run_each [] s = refl
  compose_ready_funcs-run_each (none ∷ fs) s = compose_ready_funcs-run_each fs s
  compose_ready_funcs-run_each (some f ∷ fs) s = rw (compose_ready_funcs-run_each fs (f s).0) refl

  run_each-composed :
      (r f : Option (ReadyFunc H)) (fs : List (Option (ReadyFunc H))) (s : Server H)
      → run_each (compose_ready_funcs (r ∷ f ∷ []) ∷ present_funcs fs) s
        ≡ run_each (present_funcs (r ∷ f ∷ fs)) s
  unfolding compose_ready_funcs
  run_each-composed none none fs s = refl
  run_each-composed none (some f) fs s = simp (append-nil)
  run_each-composed (some r) none fs s = simp (append-nil)
  run_each-composed (some r) (some f) fs s = simp (append-nil, append_assoc)

  -- The ready functions that are added to a server run one after another, each at the server that the
  -- one before it leaves, behind the function that was set first; nil functions are passed over.
  pub actual_ready-run_each :
      (h : Hooks H) (fs : List (Option (ReadyFunc H))) (s : Server H)
      → actual_ready (add_all_ready h fs) s ≡ run_each (present_funcs (h.ready ∷ fs)) s
  unfolding actual_ready add_ready
  actual_ready-run_each h [] s =
      elim h.ready as (λ o. or_idle o s ≡ run_each (present_funcs (o ∷ [])) s) [
        | none ↦ refl
        | some f ↦ simp (append-nil)
      ]
  actual_ready-run_each h (f ∷ fs) s =
      actual_ready-run_each (add_ready h f) fs s ∙ run_each-composed h.ready f fs s
