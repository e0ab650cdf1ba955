-- ===== src/Commands/Flags/Tracing.antt =====
-- httpclient/http_trace.go: the flag of the trace level.
use joe_cli_http.Prelude.{[], ◌∷◌}
use joe_cli_http.Prelude.Text.{codes}
use joe_cli_http.Commands.Flags.{Flag, plain_flag, setter}

-- `SetTraceLevel`
abbrev pub trace_level_flag : Flag
trace_level_flag = record plain_flag {
  name = codes "trace";
  usage_text = codes "LEVEL";
  help_text = codes "Set which client operations are traced";
  env_vars = codes "HTTP_CLIENT_TRACE_LEVEL" ∷ [];
  calls = setter (codes "SetTraceLevel");
}
