-- ===== src/Server/Run/Tests.antt =====
-- httpserver/server_commands.go: the theorems at concrete runs.
use joe_cli_http.Prelude.{List, [], ◌∷◌, none, some, Bytes, ◌≡◌, ◌≤◌, ◌+◌, ◌⊎◌, refl, length}
use joe_cli_http.Prelude.Text.{codes}
use joe_cli_http.Server.Mux
use joe_cli_http.Server.Mux.{Server, listen, make_handler, apply_middleware}
use joe_cli_http.Server.Options.{zero_server}
use joe_cli_http.Server.Ready.{ReadyFunc, report_listening, reload_server}
use joe_cli_http.Server.Run.{
  Failure, unlistened, served, server_failed, not_started, running, Run, Answers, Step, listens,
  serves, sends, expires, cancels, starts_ready, receives, readies, wakes, Reach, start, later,
}
use joe_cli_http.Server.Run.Bounded.{IsReturned, IsOver, Reach-IsReturned}
use joe_cli_http.Server.Run.Outcomes.{Reach-exit}
use joe_cli_http.Server.Run.Phases.{fate}

abbrev show : Failure → Bytes
show (unlistened e) = codes "address already in use"
show (served e) = e

-- The functions of `DefaultReadyFunc`
abbrev default_funcs : List (ReadyFunc Unit)
default_funcs = report_listening ∷ reload_server ∷ []

-- The address is in use.
abbrev in_use : Answers
in_use = record { factory = none; bound = none; serve = none }

-- The server listens, and fails later.
abbrev closing : Answers
closing = record {
  factory = none;
  bound = some (codes "127.0.0.1:80");
  serve = some (some (codes "closed"));
}

-- The failure is received before the timer expires.
unfoldable failing : (s : Run Unit) × Reach show default_funcs in_use zero_server 3 s
unfolding listen make_handler
failing = (
  _,
  later (later (later start (listens refl)) (sends (unlistened Mux.Error.listen_failed) refl refl))
      (receives (unlistened Mux.Error.listen_failed) refl refl),
)

-- The server fails while the ready functions run: its failure stays in the channel.
unfoldable late_failure : (s : Run Unit) × Reach show default_funcs closing zero_server 9 s
unfolding listen make_handler apply_middleware
late_failure = (
  _,
  later
      (later
        (later
          (later
            (later
              (later
                (later (later (later start (listens refl)) (expires refl)) (starts_ready refl refl))
                (serves (some (codes "closed")) refl refl))
              (readies report_listening (reload_server ∷ []) refl))
            (sends (served (codes "closed")) refl refl))
          (cancels refl))
        (wakes refl refl))
      (readies reload_server [] refl),
)

late_errors : late_failure.0.errors ≡ some (served (codes "closed"))
unfolding late_failure
late_errors = refl

Reach-IsReturned_example :
    (9 ≤ 7 + length default_funcs)
    × (((t : Run Unit) × Step show default_funcs closing late_failure.0 t)
        ⊎ (IsReturned late_failure.0.main
            × (IsOver closing late_failure.0.thunk
                × ((late_failure.0.readying ≡ not_started)
                    ⊎ (late_failure.0.readying ≡ running [])))))
Reach-IsReturned_example =
    Reach-IsReturned show default_funcs closing zero_server 9 late_failure.0 late_failure.1

Reach-exit_example :
    (e : Failure) × (fate {H = Unit} in_use zero_server ≡ some e)
    × (server_failed show (unlistened Mux.Error.listen_failed) ≡ server_failed show e)
    × (failing.0.readying ≡ not_started)
    × (failing.0.log ≡ [])
unfolding failing listen make_handler
Reach-exit_example = Reach-exit show default_funcs in_use zero_server 3 failing.0 _ failing.1 refl
