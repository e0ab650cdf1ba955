-- ===== src/Client/Trace.antt =====
-- httpclient/http_trace.go: the levels of a trace. A level is a set of bits, and is not negative here.
pub mod Levels
pub mod Log
pub mod Shows
mod Tests
use Prim.Native.Nat.{bit_and, bit_or}
use joe_cli_http.Prelude.{
  ℕ, zero, suc, Bool, List, [], ◌∷◌, ◌++◌, Option, none, some, ◌-◌, ◌==◌, if◌then◌else◌, Bytes,
  get_elem?,
}
use joe_cli_http.Prelude.Text.{codes, equal, split, join, trim_space}
use joe_cli_http.Prelude.Decimal.{show_nat}

-- The constants: `1 << iota`, and their sums.
abbrev pub trace_connections : ℕ
trace_connections = 1

abbrev pub trace_request_headers : ℕ
trace_request_headers = 2

abbrev pub trace_dns : ℕ
trace_dns = 4

abbrev pub trace_tls : ℕ
trace_tls = 8

abbrev pub trace_http1xx : ℕ
trace_http1xx = 16

abbrev pub trace_request_body : ℕ
trace_request_body = 32

abbrev pub trace_response_status : ℕ
trace_response_status = 64

abbrev pub trace_response_headers : ℕ
trace_response_headers = 128

abbrev pub trace_redirects : ℕ
trace_redirects = 256

abbrev pub trace_off : ℕ
trace_off = 0

abbrev pub trace_on : ℕ
trace_on = bit_or (bit_or trace_request_headers trace_response_status) trace_response_headers

abbrev pub trace_verbose : ℕ
trace_verbose =
    bit_or
      (bit_or (bit_or (bit_or (bit_or trace_on trace_connections) trace_dns) trace_tls)
        trace_http1xx)
      trace_redirects

abbrev pub trace_debug : ℕ
trace_debug = bit_or trace_verbose trace_request_body

-- `traceString`
abbrev pub trace_string : List Bytes
trace_string =
    codes "debug"
    ∷ codes "verbose"
    ∷ codes "on"
    ∷ codes "connections"
    ∷ codes "requestHeaders"
    ∷ codes "dns"
    ∷ codes "tls"
    ∷ codes "http1xx"
    ∷ codes "requestBody"
    ∷ codes "responseStatus"
    ∷ codes "responseHeaders"
    ∷ codes "redirects"
    ∷ codes "off"
    ∷ []

-- `traceEnum`
abbrev pub trace_enum : List ℕ
trace_enum =
    trace_debug ∷ trace_verbose ∷ trace_on ∷ trace_connections ∷ trace_request_headers ∷ trace_dns
    ∷ trace_tls ∷ trace_http1xx ∷ trace_request_body ∷ trace_response_status
    ∷ trace_response_headers ∷ trace_redirects ∷ trace_off ∷ []

-- The loop of `indexTraceString` from `i`; `none` is -1.
unfoldable pub index_from : ℕ → List Bytes → Bytes → Option ℕ
unfolding equal
index_from i [] j = none
index_from i (s ∷ ss) j = if equal s j then some i else index_from (suc i) ss j

-- `indexTraceString`
unfoldable pub index_trace_string : Bytes → Option ℕ
unfolding index_from
index_trace_string j = index_from 0 trace_string j

-- `traceEnum[in]`, if there is an index
abbrev pub level_at : Option ℕ → Option ℕ
level_at none = none
level_at (some i) = get_elem? trace_enum i

-- The loop of `Set` over the pieces; `none` is an unknown one.
unfoldable pub set_loop : ℕ → List Bytes → Option ℕ
unfolding index_trace_string trim_space
set_loop res [] = some res
set_loop res (j ∷ js) = elim (level_at (index_trace_string (trim_space j))) [
  | none ↦ none
  | some e ↦ set_loop (bit_or res e) js
]

-- An unknown level, with the whole argument
pub data Error : Type 0 where
  unknown_level : Bytes → Error

-- `Set`
unfoldable pub set_level : ℕ → Bytes → ℕ × Option Error
unfolding set_loop split
set_level l arg = elim (set_loop trace_off (split b',' arg)) [
  | none ↦ (l, some (unknown_level arg))
  | some res ↦ (res, none)
]

-- `l&e == e`
abbrev pub has_level : ℕ → ℕ → Bool
has_level l e = bit_and l e == e

-- The loop of `String` over the levels and their names: what is left of the level, and its names.
unfoldable pub show_loop : ℕ → List ℕ → List Bytes → ℕ × List Bytes
show_loop l [] names = (l, [])
show_loop l (e ∷ es) [] = (l, [])
show_loop l (e ∷ es) (s ∷ ss) =
    let left = show_loop (l - bit_and l e) es ss in
    let taken : ℕ × List Bytes = (left.0, s ∷ left.1) in
    let kept = show_loop l es ss in if e == 0 then kept else if has_level l e then taken else kept

-- `String`
unfoldable pub show_level : ℕ → Bytes
unfolding show_loop join show_nat
show_level l =
    if l == trace_off
    then codes "off"
    else (let (rest, names) = show_loop l trace_enum trace_string in
        join (codes ",") (if rest == 0 then names else names ++ show_nat rest ∷ []))
