-- ===== src/Server/Ready/Tests.antt =====
-- httpserver/ready_func.go: the theorem at a concrete server.
use joe_cli_http.Prelude.{List, [], ◌∷◌, Option, none, some, ◌≡◌}
use joe_cli_http.Server.Options.{zero_server}
use joe_cli_http.Server.Ready.{
  ReadyFunc, Hooks, actual_ready, report_listening, report_shutdown, reload_server,
}
use joe_cli_http.Server.Ready.Order.{add_all_ready, run_each, present_funcs, actual_ready-run_each}

abbrev later_funcs : List (Option (ReadyFunc Unit))
later_funcs = none ∷ some reload_server ∷ some report_shutdown ∷ []

abbrev some_hooks : Hooks Unit
some_hooks = record { ready = some report_listening; shutdown = none }

actual_ready-run_each_example :
    actual_ready (add_all_ready some_hooks later_funcs) zero_server
    ≡ run_each (present_funcs (some report_listening ∷ later_funcs)) zero_server
actual_ready-run_each_example = actual_ready-run_each some_hooks later_funcs zero_server
