-- ===== src/Server/Tests.antt =====
-- httpserver: runs at concrete states, and the theorems at them.
use joe_cli_http.Prelude.{
  ℕ, true, false, List, [], ◌∷◌, Option, none, some, ◌≡◌, ◌≢◌, refl, suc, ◌≤◌, ◌+◌, ◌*◌,
  if◌then◌else◌,
}
use joe_cli_http.Prelude.Text.{codes}
use joe_cli_http.Prelude.Decimal.{pos}
use joe_cli_http.Server.Writer.{
  Writer, Answer, new_writer, status, bytes_written, flush_writer, write_body, read_from_reader,
  send_header, maybe_send_header,
}
use joe_cli_http.Server.Writer.Counts.{
  Op, header, body, flushing, run, run_op, sent, SentOnce, run-SentOnce,
}
use joe_cli_http.Server.Writer.Tee.{read_from_reader-bytes}
use joe_cli_http.Server.Writer.Flush.{flush_seals}
use joe_cli_http.Server.Reload.{
  Handler, built, ready, failed, Reloadable, new_reloadable, ensure_locked, invalidate,
}
use joe_cli_http.Server.Reload.Once.{Event, test, lock, reload, reloads, handle, handle-new-calls}
use joe_cli_http.Server.Reload.Interleaved.{
  begin, served, test_nil, locked, Run, here, step, calm-served, invalidated-served,
}
use joe_cli_http.Server.Mux.{
  mux, access_logger, server_header, Server, reload_all, listen, make_handler,
}
use joe_cli_http.Server.Mux.Listening.{listen-reload_all}

abbrev taken : ℕ → Answer
taken n = record { count = n; failure = none; tee_failure = none }

abbrev some_calls : List Op
some_calls = body (codes "hi") (taken 2) ∷ header 404 ∷ flushing ∷ []

some_calls-status : status (run new_writer some_calls) ≡ 200
unfolding run run_op status new_writer write_body maybe_send_header send_header
some_calls-status = refl

run-SentOnce_example :
    SentOnce (status (run new_writer some_calls)) (sent (run new_writer some_calls).calls)
run-SentOnce_example = run-SentOnce some_calls

abbrev teed : Writer
teed = record { wrote_header = false; code = 0; bytes = 0; tee = true; calls = []; copied = [] }

read_from_reader-bytes_example :
    let r = read_from_reader teed ((codes "abc", taken 3) ∷ []) (codes "abc") 3 none in
    bytes_written r.0 ≡ bytes_written teed + (if true then 2 * r.1 else r.1)
read_from_reader-bytes_example =
    read_from_reader-bytes teed ((codes "abc", taken 3) ∷ []) (codes "abc") 3 none

flush_seals_example :
    (status (run (flush_writer new_writer) some_calls) ≡ 0)
    × (sent (run (flush_writer new_writer) some_calls).calls ≡ [])
flush_seals_example = flush_seals some_calls

-- Two requests find no handler, and take the lock one after the other.
abbrev some_events : List (Event ℕ)
some_events = test ∷ test ∷ lock (ready 1) ∷ lock (failed 2) ∷ reload ∷ test ∷ lock (failed 3) ∷ []

handle-new-calls_example :
    (handle (new_reloadable ℕ) 0 some_events).calls ≤ suc (reloads some_events)
handle-new-calls_example = handle-new-calls some_events

abbrev built_state : Reloadable ℕ
built_state = record { handler = some (built 5); done = true; last_error = none; calls = 1 }

abbrev empty_state : Reloadable ℕ
empty_state = record { handler = none; done = false; last_error = none; calls = 0 }

first_request : Run true empty_state begin built_state (served (some (built 5)))
unfolding ensure_locked
first_request = step (step here (test_nil refl)) (locked (ready 5) refl)

abbrev five : Option (Handler ℕ)
five = some (built 5)

calm-served_example : five ≢ none
calm-served_example = calm-served first_request

invalidated-served_example : Run false built_state begin (invalidate built_state) (served none)
invalidated-served_example = invalidated-served built_state (λ e. cc)

-- A server with the default middleware and one reloadable handler.
abbrev some_server : Server ℕ
some_server = record {
  handler = mux;
  middleware = access_logger ∷ server_header (codes "joe") ∷ [];
  access_log = codes "%(method)";
  tls_cert_file = [];
  tls_key_file = [];
  addr = codes "localhost:8000";
  static_dir = [];
  hide_dir_listings = false;
  shutdown_timeout = pos 3_000_000_000;
  read_timeout = pos 0;
  read_header_timeout = pos 0;
  write_timeout = pos 0;
  idle_timeout = pos 0;
  max_header_bytes = pos 0;
  bind_addr = [];
  bind_tls = false;
  patterns = [];
  targets = 0 ∷ [];
  heap = built_state ∷ built_state ∷ [];
}

abbrev listening : Server ℕ
listening = (listen some_server none (some (codes "127.0.0.1:8000"))).0

listens : listen some_server none (some (codes "127.0.0.1:8000")) ≡ (listening, none)
unfolding listen make_handler
listens = refl

log_ne_nil : some_server.access_log ≢ []
log_ne_nil e = cc

listen-reload_all_example : reload_all listening ≡ listening
listen-reload_all_example =
    listen-reload_all some_server listening none (some (codes "127.0.0.1:8000"))
      (server_header (codes "joe") ∷ []) refl (tt, tt) log_ne_nil listens
