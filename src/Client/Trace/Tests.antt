-- ===== src/Client/Trace/Tests.antt =====
-- httpclient/http_trace.go: runs at concrete levels, and the theorems at them.
use joe_cli_http.Prelude.{
  List, [], ◌∷◌, none, some, ◌≡◌, refl, arith, true, false, ◌==◌, if◌then◌else◌,
}
use joe_cli_http.Prelude.Text.{codes, has_prefix}
use joe_cli_http.Client.Trace.{set_level, show_level, trace_off, trace_on}
use joe_cli_http.Client.Trace.Levels.{set_level-show_level}
use joe_cli_http.Client.Trace.Log.{
  Shown, Call, Request, Response, setup_trace_level, round_trip, status_code, ord_suffix,
}
use joe_cli_http.Client.Trace.Shows.{shown_at, exchange_parts, round_trip-parts}

shows_on : show_level 194 ≡ codes "on"
unfolding show_level
shows_on = refl

shows_rest : show_level 1536 ≡ codes "1536"
unfolding show_level
shows_rest = refl

eleventh : ord_suffix 111 ≡ codes "th"
unfolding ord_suffix
eleventh = refl

set_level-show_level_example : set_level 7 (show_level 195) ≡ (195, none)
set_level-show_level_example = set_level-show_level 7 195 (omega arith)

abbrev get : Request
get = record { method = codes "GET"; uri = codes "/a"; proto = [] }

abbrev found : Response
found = record {
  code = 200;
  status = codes "200 OK";
  header = (codes "Server", codes "x" ∷ []) ∷ [];
}

abbrev some_calls : List Call
some_calls =
    Call.dns_start (codes "a.test")
    ∷ Call.wrote_header_field (codes ":path") (codes "/a" ∷ [])
    ∷ Call.wrote_header_field (codes "Accept") (codes "*/*" ∷ [])
    ∷ []

traced :
    round_trip (setup_trace_level trace_on) get some_calls (some found) none
    ≡ Shown.start_request (codes "GET") (codes "/a") (codes "HTTP/1.1")
      ∷ Shown.wrote_header_field (codes "Accept") (codes "*/*" ∷ []) false
      ∷ status_code 200 (codes "200 OK")
      ∷ Shown.wrote_header_field (codes "Server") (codes "x" ∷ []) true
      ∷ []
unfolding round_trip setup_trace_level has_prefix
traced = refl

round_trip-parts_example :
    round_trip (setup_trace_level trace_on) get some_calls (some found) none ≡ (
      if trace_on == trace_off
      then []
      else shown_at trace_on (exchange_parts get some_calls (some found) none))
round_trip-parts_example = round_trip-parts trace_on get some_calls (some found) none
