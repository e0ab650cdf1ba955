-- ===== src/Server/Mux/Listening.antt =====
-- What `ReloadAll` reaches, before the server listens and after.
use joe_cli_http.Prelude.{
  ℕ, Bool, false, ◌||◌, List, [], ◌∷◌, Option, none, some, zero, suc, if◌then◌else◌, Bytes,
  get_elem?, ◌≡◌, ◌≢◌, refl, sym, ap, ◌∙◌, arith, All, inl, inr, Option-cases, subst, ◌==◌, ==_iff,
  Bool-cases,
}
use joe_cli_http.Server.Reload.{Reloadable, invalidate}
use joe_cli_http.Server.Mux.{
  Node, mux, logger, with_header, Middleware, access_logger, server_header, custom, Server,
  ensure_mux, invalidate_at, invalidate_targets, reload_all, wrap, wrap_all, Made, Error,
  make_handler, apply_middleware, listen,
}

-- A handler inside a logger or a header handler.
abbrev IsWrapped : Node → Type 0
IsWrapped (logger f h) = Unit
IsWrapped (with_header n h) = Unit
IsWrapped _ = ⊥

abbrev pub IsStandard : Middleware → Type 0
IsStandard (custom f) = ⊥
IsStandard _ = Unit

wrap-IsWrapped :
    (log : Bytes) (m : Middleware) (h : Node)
    → IsStandard m
    → IsWrapped h
    → IsWrapped (wrap log m h)
unfolding wrap
wrap-IsWrapped [] access_logger h s w = w
wrap-IsWrapped (c ∷ log) access_logger h s w = tt
wrap-IsWrapped log (server_header n) h s w = tt
wrap-IsWrapped log (custom f) h s w = absurd s

wrap_all-IsWrapped :
    (log : Bytes) (ms : List Middleware) (h : Node)
    → All IsStandard ms
    → IsWrapped h
    → IsWrapped (wrap_all log ms h)
unfolding wrap_all
wrap_all-IsWrapped log [] h s w = w
wrap_all-IsWrapped log (m ∷ ms) h (sm, s) w =
    wrap_all-IsWrapped log ms (wrap log m h) s (wrap-IsWrapped log m h sm w)

wrap_logger : (log : Bytes) (h : Node) → log ≢ [] → IsWrapped (wrap log access_logger h)
unfolding wrap
wrap_logger [] h n = absurd (n refl)
wrap_logger (c ∷ log) h n = tt

abbrev pub has_target : List ℕ → ℕ → Bool
has_target [] i = false
has_target (j ∷ js) i = j == i || has_target js i

module _ {H : Type 0} where
  reload_all-IsWrapped : (s : Server H) → IsWrapped s.handler → reload_all s ≡ s
  unfolding reload_all ensure_mux
  reload_all-IsWrapped s w = ground arith

  listen_handler :
      (s t : Server H) (factory : Option Made) (bound : Option Bytes)
      → listen s factory bound ≡ (t, none)
      → (h : Node) × (t.handler ≡ wrap_all s.access_log s.middleware h)
  unfolding listen apply_middleware
  listen_handler s t factory bound e = elim (Option-cases (make_handler factory s.handler)) [
    | inl m ↦ cc (rw (m, listen) at e)
    | inr (h, m) ↦ elim (Option-cases bound) [
      | inl b ↦ cc (rw (m, b, listen) at e)
      | inr (addr, b) ↦
          (h, sym (ap (λ (r : Server H × Option Error). r.0.handler) (rw (m, b, listen) at e)))
    ]
  ]

  -- Once a server with the default access logger and an access log format listens, `ReloadAll`
  -- changes nothing, whatever handlers are registered, if the other middleware is the program's own.
  pub listen-reload_all :
      (s t : Server H) (factory : Option Made) (bound : Option Bytes) (ms : List Middleware)
      → s.middleware ≡ access_logger ∷ ms
      → All IsStandard ms
      → s.access_log ≢ []
      → listen s factory bound ≡ (t, none)
      → reload_all t ≡ t
  unfolding wrap_all
  listen-reload_all s t factory bound ms m st l e =
      let (h, eh) = listen_handler s t factory bound e in
      reload_all-IsWrapped t (
        subst IsWrapped (sym (eh ∙ ap (λ v. wrap_all s.access_log v h) m))
          (wrap_all-IsWrapped s.access_log ms _ st (wrap_logger s.access_log h l)))

  -- `invalidate` at exactly the listed places.
  invalidate_at-get_elem? :
      (rs : List (Reloadable H)) (i : ℕ) (r : Reloadable H)
      → get_elem? rs i ≡ some r
      → get_elem? (invalidate_at rs i) i ≡ some (invalidate r)
  unfolding invalidate_at
  invalidate_at-get_elem? [] i r e = cc
  invalidate_at-get_elem? (x ∷ rs) zero r e = ground arith
  invalidate_at-get_elem? (x ∷ rs) (suc i) r e = invalidate_at-get_elem? rs i r e

  invalidate_at-ne :
      (rs : List (Reloadable H)) (i j : ℕ)
      → i ≢ j
      → get_elem? (invalidate_at rs i) j ≡ get_elem? rs j
  unfolding invalidate_at
  invalidate_at-ne [] i j n = refl
  invalidate_at-ne (x ∷ rs) zero zero n = absurd (n refl)
  invalidate_at-ne (x ∷ rs) zero (suc j) n = refl
  invalidate_at-ne (x ∷ rs) (suc i) zero n = refl
  invalidate_at-ne (x ∷ rs) (suc i) (suc j) n = invalidate_at-ne rs i j (λ e. n (ap suc e))

  invalidate_targets-invalid :
      (heap : List (Reloadable H)) (js : List ℕ) (i : ℕ) (r : Reloadable H)
      → get_elem? heap i ≡ some (invalidate r)
      → get_elem? (invalidate_targets heap js) i ≡ some (invalidate r)
  unfolding invalidate_targets
  invalidate_targets-invalid heap [] i r e = e
  invalidate_targets-invalid heap (j ∷ js) i r e = elim (Bool-cases (j == i)) [
    | inl same ↦ invalidate_targets-invalid (invalidate_at heap j) js i r (
        rw ((==_iff j i).0 same)
          (invalidate_at-get_elem? heap i (invalidate r) e ∙ unfold invalidate in refl))
    | inr different ↦
        invalidate_targets-invalid (invalidate_at heap j) js i r
          (invalidate_at-ne heap j i (λ s. ground (arith, (==_iff j i).1 s)) ∙ e)
  ]

  invalidate_targets-get_elem? :
      (heap : List (Reloadable H)) (js : List ℕ) (i : ℕ) (r : Reloadable H)
      → get_elem? heap i ≡ some r
      → get_elem? (invalidate_targets heap js) i
        ≡ some (if has_target js i then invalidate r else r)
  unfolding invalidate_targets
  invalidate_targets-get_elem? heap [] i r e = e
  invalidate_targets-get_elem? heap (j ∷ js) i r e = elim (Bool-cases (j == i)) [
    | inl same ↦ rw same (
        invalidate_targets-invalid (invalidate_at heap j) js i r
          (rw ((==_iff j i).0 same) (invalidate_at-get_elem? heap i r e)))
    | inr different ↦ rw different (
        invalidate_targets-get_elem? (invalidate_at heap j) js i r
          (invalidate_at-ne heap j i (λ s. ground (arith, (==_iff j i).1 s)) ∙ e))
  ]

  -- While the server's handler is its own mux, `ReloadAll` invalidates exactly the registered
  -- reloadable handlers, and leaves every other as it was.
  pub reload_all-mux :
      (s : Server H) (i : ℕ) (r : Reloadable H)
      → s.handler ≡ mux
      → get_elem? s.heap i ≡ some r
      → get_elem? (reload_all s).heap i ≡ some (if has_target s.targets i then invalidate r else r)
  unfolding reload_all ensure_mux
  reload_all-mux s i r m e = ground (arith, invalidate_targets-get_elem? s.heap s.targets i r e)
