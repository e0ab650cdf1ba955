-- ===== src/Client/Trace/Log.antt =====
-- httpclient/http_trace.go and httpclient/transport.go: what the loggers show of an exchange. What the
-- text templates make of it is not the program's: `Shown` is the template and its data. A write to the
-- terminal is taken not to fail.
use joe_cli_http.Prelude.{
  ℕ, Bool, true, false, ◌||◌, List, [], ◌∷◌, ◌++◌, Option, none, some, ◌%◌, ◌==◌, ltb,
  if◌then◌else◌, Bytes, get_elem?,
}
use joe_cli_http.Prelude.Text.{codes, has_prefix}
use joe_cli_http.Prelude.Decimal.{show_nat}
use joe_cli_http.Client.Trace.{
  has_level, trace_off, trace_connections, trace_request_headers, trace_dns, trace_tls,
  trace_http1xx, trace_request_body, trace_response_headers, trace_redirects,
}

abbrev pub Header : Type 0
Header = List (Bytes × List Bytes)

-- An `x509.Certificate`, as far as it is printed: the texts of `fmt.Sprint`.
pub record Certificate : Type 0 where
  pub subject : Bytes
  pub not_before : Bytes
  pub not_after : Bytes
  pub issuer : Bytes

-- A template that is rendered, with its data; `printed` is a line on the standard output.
pub data Shown : Type 0 where
  dns_done : List Bytes → Shown
  dns_start get_conn printed : Bytes → Shown
  got_1xx : ℕ → Header → Shown
  got_conn : Bytes → Bytes → Bool → Shown
  tls_handshake_done : Bytes → Bytes → List (Bytes × Bytes) → Shown
  tls_handshake_start : Shown
  wrote_header_field : Bytes → List Bytes → Bool → Shown
  generic_error : Option Bytes → Shown
  start_request : Bytes → Bytes → Bytes → Shown
  redirected : Bytes → ℕ → Bytes → Shown
  status_code : ℕ → Bytes → Shown

-- The calls that `httptrace` makes of a logger. An error is its text; the versions and suites of a
-- handshake are the texts of `crypto/tls`.
pub data Call : Type 0 where
  connect_done : Bytes → Bytes → Option Bytes → Call
  connect_start : Bytes → Bytes → Call
  dns_done : List Bytes → Option Bytes → Call
  dns_start get_conn : Bytes → Call
  got_1xx_response : ℕ → Header → Call
  got_conn : Bytes → Bytes → Bool → Call
  tls_handshake_done : Bytes → Bytes → List Certificate → Call
  tls_handshake_start wait_100_continue : Call
  wrote_header_field : Bytes → List Bytes → Call
  wrote_request : Call

-- The methods of `TraceLevel` on its bits.
abbrev pub connections : ℕ → Bool
connections l = has_level l trace_connections

abbrev pub request_headers : ℕ → Bool
request_headers l = has_level l trace_request_headers

abbrev pub response_headers : ℕ → Bool
response_headers l = has_level l trace_response_headers

abbrev pub redirects : ℕ → Bool
redirects l = has_level l trace_redirects

abbrev pub dns : ℕ → Bool
dns l = has_level l trace_dns

abbrev pub tls : ℕ → Bool
tls l = has_level l trace_tls

abbrev pub http1xx : ℕ → Bool
http1xx l = has_level l trace_http1xx

abbrev pub request_body : ℕ → Bool
request_body l = has_level l trace_request_body

-- `formatCert`, of the first certificate if there is one.
unfoldable pub format_cert : List Certificate → List (Bytes × Bytes)
format_cert [] = []
format_cert (c ∷ cs) =
    (codes "Subject", c.subject)
    ∷ (codes "Not Before", c.not_before)
    ∷ (codes "Not After", c.not_after)
    ∷ (codes "Issuer", c.issuer)
    ∷ []

-- The methods of `defaultTraceLogger`, each at its flags.
unfoldable pub log_dns_done : ℕ → List Bytes → Option Bytes → List Shown
log_dns_done flags addrs (some e) = if dns flags then printed e ∷ [] else []
log_dns_done flags addrs none = if dns flags then Shown.dns_done addrs ∷ [] else []

unfoldable pub log_dns_start : ℕ → Bytes → List Shown
log_dns_start flags host = if dns flags then Shown.dns_start host ∷ [] else []

unfoldable pub log_get_conn : ℕ → Bytes → List Shown
log_get_conn flags host_port = if connections flags then Shown.get_conn host_port ∷ [] else []

unfoldable pub log_got_1xx : ℕ → ℕ → Header → List Shown
log_got_1xx flags code header = if http1xx flags then got_1xx code header ∷ [] else []

unfoldable pub log_got_conn : ℕ → Bytes → Bytes → Bool → List Shown
log_got_conn flags remote local_addr reused =
    if connections flags then Shown.got_conn remote local_addr reused ∷ [] else []

unfoldable pub log_tls_done : ℕ → Bytes → Bytes → List Certificate → List Shown
unfolding format_cert
log_tls_done flags proto suite certs =
    if tls flags then Shown.tls_handshake_done proto suite (format_cert certs) ∷ [] else []

unfoldable pub log_tls_start : ℕ → List Shown
log_tls_start flags = if tls flags then Shown.tls_handshake_start ∷ [] else []

unfoldable pub log_header_field : ℕ → Bytes → List Bytes → List Shown
log_header_field flags key value =
    if request_headers flags then Shown.wrote_header_field key value false ∷ [] else []

-- A `Logger`: `nopTraceLogger`, or `defaultTraceLogger` at its flags.
pub data Logger : Type 0 where
  nop : Logger
  default : ℕ → Logger

unfoldable pub log_default : ℕ → Call → List Shown
unfolding log_dns_done log_dns_start log_get_conn log_got_1xx log_got_conn log_tls_done
    log_tls_start log_header_field
log_default l (connect_done network addr e) = []
log_default l (connect_start network addr) = []
log_default l (Call.dns_done addrs e) = log_dns_done l addrs e
log_default l (Call.dns_start host) = log_dns_start l host
log_default l (Call.get_conn host_port) = log_get_conn l host_port
log_default l (got_1xx_response code header) = log_got_1xx l code header
log_default l (Call.got_conn remote local_addr reused) = log_got_conn l remote local_addr reused
log_default l (Call.tls_handshake_done proto suite certs) = log_tls_done l proto suite certs
log_default l Call.tls_handshake_start = log_tls_start l
log_default l wait_100_continue = []
log_default l (Call.wrote_header_field key value) = log_header_field l key value
log_default l wrote_request = []

unfoldable pub log_call : Logger → Call → List Shown
unfolding log_default
log_call nop c = []
log_call (default l) c = log_default l c

-- `newClientTrace`: the pseudo-headers are left out.
unfoldable pub client_trace : Logger → Call → List Shown
unfolding log_call
client_trace logger (Call.wrote_header_field key value) =
    if has_prefix key (codes ":") then [] else log_call logger (Call.wrote_header_field key value)
client_trace logger c = log_call logger c

unfoldable pub client_traces : Logger → List Call → List Shown
unfolding client_trace
client_traces logger [] = []
client_traces logger (c ∷ cs) = client_trace logger c ++ client_traces logger cs

abbrev pub or_text : Bytes → Bytes → Bytes
or_text [] d = d
or_text (c ∷ s) d = c ∷ s

-- A request, as far as its line is shown; `uri` is its `RequestURI`.
pub record Request : Type 0 where
  pub method : Bytes
  pub uri : Bytes
  pub proto : Bytes

-- `StartRequest`
unfoldable pub log_start : Logger → Request → List Shown
log_start nop r = []
log_start (default l) r =
    Shown.start_request r.method (or_text r.uri (codes "/")) (or_text r.proto (codes "HTTP/1.1"))
    ∷ []

-- `ordSuffix`; the digits 0 to 3 have a suffix of their own, but for 11, 12 and 13.
unfoldable pub ord_suffix : ℕ → Bytes
ord_suffix i =
    if i % 100 == 11 || (i % 100 == 12 || i % 100 == 13)
    then codes "th"
    else if ltb (i % 10) 4
    then elim (get_elem? (codes "th" ∷ codes "st" ∷ codes "nd" ∷ codes "rd" ∷ []) (i % 10)) [
      | some s ↦ s
      | none ↦ []
    ]
    else codes "th"

-- `Redirected`, of the new location and the number of requests before it.
unfoldable pub log_redirected : Logger → Bytes → ℕ → Option Bytes → List Shown
unfolding ord_suffix show_nat
log_redirected nop location times e = []
log_redirected (default l) location times e =
    let line = Shown.redirected location times (show_nat times ++ ord_suffix times) ∷ [] in
    if redirects l then elim e [ some x ↦ generic_error (some x) ∷ line | none ↦ line ] else []

-- `http.Response`, as far as it is shown.
pub record Response : Type 0 where
  pub code : ℕ
  pub status : Bytes
  pub header : Header

-- The loop of `ResponseDone` over the header, in the order in which `range` visits it.
unfoldable pub header_fields : Header → List Shown
header_fields [] = []
header_fields ((k, v) ∷ rest) = Shown.wrote_header_field k v true ∷ header_fields rest

unfoldable pub log_response : ℕ → Response → List Shown
unfolding header_fields
log_response l r =
    status_code r.code r.status ∷ (if response_headers l then header_fields r.header else [])

-- `ResponseDone`
unfoldable pub log_done : Logger → Option Response → Option Bytes → List Shown
unfolding log_response
log_done nop rsp e = []
log_done (default l) none e = generic_error e ∷ []
log_done (default l) (some r) (some e) = generic_error (some e) ∷ []
log_done (default l) (some r) none = log_response l r

-- `setupTraceLevelTransport`
unfoldable pub setup_trace_level : ℕ → Logger
setup_trace_level level = if level == trace_off then nop else default level

-- `RoundTrip` of `traceableTransport`: the calls that the transport makes stand between the request
-- and the response.
unfoldable pub round_trip :
    Logger → Request → List Call → Option Response → Option Bytes → List Shown
unfolding log_start client_traces log_done
round_trip logger req calls rsp e =
    log_start logger req ++ (client_traces logger calls ++ log_done logger rsp e)
