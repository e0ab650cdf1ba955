-- ===== src/Server/Ready.antt =====
-- httpserver/ready_func.go and httpserver/server.go: the functions that run when the server has
-- started or stopped, and its reports. A function is given the server of its context. `url.Parse`,
-- `JoinPath` and the browser are parameters.
pub mod Order
mod Tests
use joe_cli_http.Prelude.{
  Bool, true, false, List, [], ◌∷◌, ◌++◌, Option, none, some, if◌then◌else◌, Bytes,
}
use joe_cli_http.Prelude.Text.{codes}
use joe_cli_http.Server.Mux.{Server, is_empty, reload_all}

-- What the functions do outside of the server: lines on the error output, and pages opened.
pub data Effect : Type 0 where
  printed : Bytes → Effect
  opened : Bytes → Effect

pub data Error : Type 0 where
  not_listening no_browser : Error

-- `JoinPath` of a URL, and whether the browser opens one.
pub record Browser : Type 0 where
  pub join_path : Bytes → List Bytes → Bytes
  pub opens : Bytes → Bool

-- `ReadyFunc`
abbrev pub ReadyFunc : Type 0 → Type 0
ReadyFunc H = Server H → Server H × List Effect

-- The text that `url` parses, of a server that listens
unfoldable pub url_text : {H : Type 0} → Server H → Bytes
url_text s = (if s.bind_tls then codes "https://" else codes "http://") ++ s.bind_addr

-- `url`; nil if the server does not listen.
unfoldable pub server_url : {H : Type 0} → Server H → Option Bytes
unfolding url_text
server_url s = if is_empty s.bind_addr then none else some (url_text s)

-- `checkIfListening`
unfoldable pub check_if_listening : {H : Type 0} → Server H → Option Error
check_if_listening s = if is_empty s.bind_addr then some not_listening else none

module _ {H : Type 0} where
  -- `Server.ReportListening`
  unfoldable pub report_server : Server H → List Effect × Option Error
  unfolding check_if_listening url_text
  report_server s = elim (check_if_listening s) [
    | some e ↦ ([], some e)
    | none ↦ (
      printed (codes "Listening on " ++ (url_text s ++ codes "... (Press ^C to exit)\n")) ∷ [],
      none,
    )
  ]

  -- `Server.OpenInBrowser`
  unfoldable pub open_server : Browser → Server H → List Bytes → List Effect × Option Error
  unfolding check_if_listening url_text
  open_server b s path = elim (check_if_listening s) [
    | some e ↦ ([], some e)
    | none ↦
        let bind = b.join_path (url_text s) path in
        let line = printed (codes "Opening default web browser " ++ (bind ++ codes "...\n")) in
        if b.opens bind then (line ∷ opened bind ∷ [], none) else (line ∷ [], some no_browser)
  ]

  -- `ComposeReadyFuncs`
  unfoldable pub compose_ready_funcs : List (Option (ReadyFunc H)) → ReadyFunc H
  compose_ready_funcs [] s = (s, [])
  compose_ready_funcs (none ∷ fs) s = compose_ready_funcs fs s
  compose_ready_funcs (some f ∷ fs) s =
      let (t, effects) = f s in let (u, more) = compose_ready_funcs fs t in (u, effects ++ more)

  -- `OpenInBrowser`; an error is printed.
  unfoldable pub open_in_browser : (Error → Bytes) → Browser → List Bytes → ReadyFunc H
  unfolding open_server
  open_in_browser show b path s =
      let (effects, e) = open_server b s path in
      elim e [ none ↦ (s, effects) | some x ↦ (s, effects ++ printed (show x) ∷ []) ]

  -- `ReloadServer`
  unfoldable pub reload_server : ReadyFunc H
  reload_server s = (reload_all s, [])

  -- `ReportListening`, which drops the error
  unfoldable pub report_listening : ReadyFunc H
  unfolding report_server
  report_listening s = (s, (report_server s).0)

  -- `ReportShutdown`
  unfoldable pub report_shutdown : ReadyFunc H
  report_shutdown s = (s, printed (codes "Goodbye!\n") ∷ [])

  -- `DefaultReadyFunc`
  abbrev pub default_ready_func : ReadyFunc H
  default_ready_func = compose_ready_funcs (some report_listening ∷ some reload_server ∷ [])

  -- `DefaultShutdownFunc`
  abbrev pub default_shutdown_func : ReadyFunc H
  default_shutdown_func = compose_ready_funcs (some report_shutdown ∷ [])

-- The fields `ready` and `shutdown` of a server
pub record Hooks (H : Type 0) : Type 0 where
  pub ready : Option (ReadyFunc H)
  pub shutdown : Option (ReadyFunc H)

module _ {H : Type 0} where
  -- `Server.WithReadyFunc`
  unfoldable pub set_ready : Hooks H → Option (ReadyFunc H) → Hooks H
  set_ready s ready = record s { ready = ready }

  -- `Server.AddReadyFunc`
  unfoldable pub add_ready : Hooks H → Option (ReadyFunc H) → Hooks H
  add_ready s ready = record s { ready = some (compose_ready_funcs (s.ready ∷ ready ∷ [])) }

  -- `Server.WithShutdownFunc`
  unfoldable pub set_shutdown : Hooks H → Option (ReadyFunc H) → Hooks H
  set_shutdown s shutdown = record s { shutdown = shutdown }

  -- `Server.AddShutdownFunc`
  unfoldable pub add_shutdown : Hooks H → Option (ReadyFunc H) → Hooks H
  add_shutdown s shutdown = record s {
    shutdown = some (compose_ready_funcs (s.shutdown ∷ shutdown ∷ []));
  }

  abbrev pub or_idle : Option (ReadyFunc H) → ReadyFunc H
  or_idle none s = (s, [])
  or_idle (some f) s = f s

  -- `actualReady`
  unfoldable pub actual_ready : Hooks H → ReadyFunc H
  actual_ready s = or_idle s.ready

  -- `actualShutdown`
  unfoldable pub actual_shutdown : Hooks H → ReadyFunc H
  actual_shutdown s = or_idle s.shutdown
