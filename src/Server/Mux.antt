-- ===== src/Server/Mux.antt =====
-- httpserver/server.go and httpserver/reloadable_handler.go: the server's handler, the mux that
-- handlers are registered with, the middleware, and `ReloadAll`. Reloadable handlers are shared by
-- pointer: a handler names one by its place in the server's `heap`.
pub mod Listening
use joe_cli_http.Prelude.{
  ℕ, Bool, true, false, not, List, [], ◌∷◌, ◌++◌, Option, none, some, zero, suc, if◌then◌else◌,
  Bytes,
}
use joe_cli_http.Prelude.Decimal.{ℤ}
use joe_cli_http.Server.Reload.{Reloadable, invalidate}

-- An `http.Handler` that the server is given or makes; `absent` is the nil one. `mux` is its own
-- `reloadSupport`; `own_mux` is a handler of the caller's with a `Handle` method, as `http.ServeMux`
-- has, and no `ReloadAll`.
pub data Node : Type 0 where
  absent mux own_mux : Node
  plain : ℕ → Node
  reloadable : ℕ → Node
  logger : Bytes → Node → Node
  with_header : Bytes → Node → Node

-- A `MiddlewareFunc`: the default one, one of `SetServerHeader`, or the caller's.
pub data Middleware : Type 0 where
  access_logger : Middleware
  server_header : Bytes → Middleware
  custom : (Node → Node) → Middleware

pub data Error : Type 0 where
  no_mux bad_pattern listen_failed factory_failed : Error

-- `Server`, with the fields of `http.Server` that its setters reach, and those of its mux: the
-- patterns in it, and the reloadable targets. A duration counts nanoseconds.
pub record Server (H : Type 0) : Type 0 where
  pub handler : Node
  pub middleware : List Middleware
  pub access_log : Bytes
  pub tls_cert_file : Bytes
  pub tls_key_file : Bytes
  pub addr : Bytes
  pub static_dir : Bytes
  pub hide_dir_listings : Bool
  pub shutdown_timeout : ℤ
  pub read_timeout : ℤ
  pub read_header_timeout : ℤ
  pub write_timeout : ℤ
  pub idle_timeout : ℤ
  pub max_header_bytes : ℤ
  pub bind_addr : Bytes
  pub bind_tls : Bool
  pub patterns : List (Bytes × Node)
  pub targets : List ℕ
  pub heap : List (Reloadable H)

abbrev pub is_empty : Bytes → Bool
is_empty [] = true
is_empty (c ∷ s) = false

-- The middleware of `defaultOptions`, `NewHeaderMiddleware`, or the caller's.
unfoldable pub wrap : Bytes → Middleware → Node → Node
wrap access_log access_logger h = if not (is_empty access_log) then logger access_log h else h
wrap access_log (server_header name) h = with_header name h
wrap access_log (custom f) h = f h

unfoldable pub wrap_all : Bytes → List Middleware → Node → Node
wrap_all access_log [] h = h
wrap_all access_log (m ∷ ms) h = wrap_all access_log ms (wrap access_log m h)

-- What the handler factory returns.
pub data Made : Type 0 where
  made : Node → Made
  refused : Made

-- `if s.Server.Handler == nil && s.handlerFactory != nil`
unfoldable pub make_handler : Option Made → Node → Option Node
make_handler (some (made h)) absent = some h
make_handler (some refused) absent = none
make_handler _ h = some h

module _ {H : Type 0} where
  -- The handler with a `Handle` method, or an error; the mux is made if there is no handler.
  unfoldable pub ensure_mux : Server H → Server H × Option Node
  ensure_mux s = elim s.handler [
    | absent ↦ (record s { handler = mux; patterns = []; targets = [] }, some mux)
    | mux ↦ (s, some mux)
    | own_mux ↦ (s, some own_mux)
    | _ ↦ (s, none)
  ]

  -- `Invalidate` at one place of the heap.
  unfoldable pub invalidate_at : List (Reloadable H) → ℕ → List (Reloadable H)
  invalidate_at [] i = []
  invalidate_at (r ∷ rs) zero = invalidate r ∷ rs
  invalidate_at (r ∷ rs) (suc i) = r ∷ invalidate_at rs i

  unfoldable pub invalidate_targets : List (Reloadable H) → List ℕ → List (Reloadable H)
  invalidate_targets heap [] = heap
  invalidate_targets heap (i ∷ is) = invalidate_targets (invalidate_at heap i) is

  -- `ReloadAll`: only the server's own mux has a `ReloadAll` method.
  unfoldable pub reload_all : Server H → Server H
  reload_all s =
      let (t, m) = ensure_mux s in
      elim m [
        | none ↦ t
        | some n ↦ elim n [ mux ↦ record t { heap = invalidate_targets t.heap t.targets } | _ ↦ t ]
      ]

  -- `reloadSupport.Handle`, behind the mux's own `Handle`.
  unfoldable pub add_target : Server H → Node → Server H
  add_target s (reloadable i) = record s { targets = s.targets ++ i ∷ [] }
  add_target s _ = s

  -- `Handle`. `accepts` is the pattern check of `http.ServeMux`, which panics if it fails; the panic
  -- is recovered. A handler of the caller's with a `Handle` method keeps its own patterns, and
  -- `accepts_own` says whether it takes one.
  unfoldable pub handle_path :
      (List (Bytes × Node) → Bytes → Bool)
      → (Bytes → Node → Bool)
      → Server H
      → Bytes
      → Node
      → Server H × Option Error
  handle_path accepts accepts_own s path h =
      let (t, m) = ensure_mux s in
      elim m [
        | none ↦ (t, some no_mux)
        | some n ↦ elim n [
          | mux ↦
              if accepts t.patterns path
              then (add_target (record t { patterns = t.patterns ++ (path, h) ∷ [] }) h, none)
              else (t, some bad_pattern)
          | _ ↦ (t, none)
        ]
      ]

  -- `applyMiddleware`
  unfoldable pub apply_middleware : Server H → Server H
  apply_middleware s = record s { handler = wrap_all s.access_log s.middleware s.handler }

  -- `ListenAndServe` up to the call that serves: the factory's result, and the address that the
  -- listener is bound to, if it is.
  unfoldable pub listen : Server H → Option Made → Option Bytes → Server H × Option Error
  listen s factory bound = elim (make_handler factory s.handler) [
    | none ↦ (s, some factory_failed)
    | some h ↦
        let t = record s { handler = h } in
        elim bound [
          | none ↦ (t, some listen_failed)
          | some addr ↦ (
            apply_middleware
                (record t { bind_addr = addr; bind_tls = not (is_empty t.tls_cert_file) }),
            none,
          )
        ]
  ]
