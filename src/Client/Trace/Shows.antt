-- ===== src/Client/Trace/Shows.antt =====
-- What a trace at a level shows of an exchange: the parts that the level asks for, in their order.
use joe_cli_http.Prelude.{
  ℕ, Bool, true, false, List, [], ◌∷◌, ◌++◌, Option, none, some, ◌==◌, if◌then◌else◌, Bytes, ◌≡◌,
  refl, sym, ap, arith, append-nil, append_assoc, Bool-cases, inl, inr,
}
use joe_cli_http.Prelude.Text.{codes, has_prefix}
use joe_cli_http.Client.Trace.{
  has_level, trace_off, trace_connections, trace_request_headers, trace_dns, trace_tls,
  trace_http1xx, trace_response_headers,
}
use joe_cli_http.Client.Trace.Log.{
  Shown, Call, Request, Response, nop, default, format_cert, or_text, client_trace, client_traces,
  log_done, header_fields, setup_trace_level, round_trip, connect_done, connect_start,
  got_1xx_response, wait_100_continue, wrote_request, printed, got_1xx, generic_error, status_code,
}

-- A part of a trace: what it shows, and the level that asks for it, if it needs one.
abbrev pub Part : Type 0
Part = Option ℕ × List Shown

abbrev nothing : Part
nothing = (none, [])

abbrev pub call_part : Call → Part
call_part (Call.dns_done addrs none) = (some trace_dns, Shown.dns_done addrs ∷ [])
call_part (Call.dns_done addrs (some e)) = (some trace_dns, printed e ∷ [])
call_part (Call.dns_start host) = (some trace_dns, Shown.dns_start host ∷ [])
call_part (Call.get_conn host) = (some trace_connections, Shown.get_conn host ∷ [])
call_part (got_1xx_response code h) = (some trace_http1xx, got_1xx code h ∷ [])
call_part (Call.got_conn r a u) = (some trace_connections, Shown.got_conn r a u ∷ [])
call_part (Call.tls_handshake_done p s cs) =
    (some trace_tls, Shown.tls_handshake_done p s (format_cert cs) ∷ [])
call_part Call.tls_handshake_start = (some trace_tls, Shown.tls_handshake_start ∷ [])
call_part (Call.wrote_header_field k v) =
    if has_prefix k (codes ":")
    then nothing
    else (some trace_request_headers, Shown.wrote_header_field k v false ∷ [])
call_part _ = nothing

abbrev pub call_parts : List Call → List Part
call_parts [] = []
call_parts (c ∷ cs) = call_part c ∷ call_parts cs

abbrev pub done_parts : Option Response → Option Bytes → List Part
done_parts (some r) none =
    (none, status_code r.code r.status ∷ [])
    ∷ (some trace_response_headers, header_fields r.header)
    ∷ []
done_parts _ e = (none, generic_error e ∷ []) ∷ []

abbrev pub exchange_parts : Request → List Call → Option Response → Option Bytes → List Part
exchange_parts req calls rsp e =
    (
      none,
      Shown.start_request req.method (or_text req.uri (codes "/"))
            (or_text req.proto (codes "HTTP/1.1"))
          ∷ [],
    )
    ∷ (call_parts calls ++ done_parts rsp e)

abbrev pub asked : ℕ → Option ℕ → Bool
asked l none = true
asked l (some m) = has_level l m

-- The parts that a level asks for
abbrev pub shown_at : ℕ → List Part → List Shown
shown_at l [] = []
shown_at l ((m, ss) ∷ ps) = if asked l m then ss ++ shown_at l ps else shown_at l ps

shown_at-append :
    (l : ℕ) (ps qs : List Part) → shown_at l (ps ++ qs) ≡ shown_at l ps ++ shown_at l qs
shown_at-append l [] qs = refl
shown_at-append l ((m, ss) ∷ ps) qs = elim (Bool-cases (asked l m)) [
  | inl e ↦ rw e (simp (shown_at-append l ps qs, append_assoc))
  | inr e ↦ rw e (shown_at-append l ps qs)
]

client_trace-part :
    (l : ℕ) (c : Call) (ps : List Part)
    → client_trace (default l) c ++ shown_at l ps ≡ shown_at l (call_part c ∷ ps)
unfolding client_trace
client_trace-part l (connect_done n a e) ps = refl
client_trace-part l (connect_start n a) ps = refl
client_trace-part l (Call.dns_done addrs none) ps = ground arith
client_trace-part l (Call.dns_done addrs (some e)) ps = ground arith
client_trace-part l (Call.dns_start h) ps = ground arith
client_trace-part l (Call.get_conn h) ps = ground arith
client_trace-part l (got_1xx_response code h) ps = ground arith
client_trace-part l (Call.got_conn r a u) ps = ground arith
client_trace-part l (Call.tls_handshake_done p s cs) ps = ground arith
client_trace-part l Call.tls_handshake_start ps = ground arith
client_trace-part l wait_100_continue ps = refl
client_trace-part l wrote_request ps = refl
client_trace-part l (Call.wrote_header_field k v) ps =
    elim (Bool-cases (has_prefix k (codes ":"))) [ inl e ↦ rw e refl | inr e ↦ rw e (ground arith) ]

client_traces-parts :
    (l : ℕ) (cs : List Call) → client_traces (default l) cs ≡ shown_at l (call_parts cs)
unfolding client_traces
client_traces-parts l [] = refl
client_traces-parts l (c ∷ cs) =
    rw (client_traces-parts l cs) (client_trace-part l c (call_parts cs))

log_done-parts :
    (l : ℕ) (rsp : Option Response) (e : Option Bytes)
    → log_done (default l) rsp e ≡ shown_at l (done_parts rsp e)
unfolding log_done
log_done-parts l none e = refl
log_done-parts l (some r) (some e) = refl
log_done-parts l (some r) none = rw append-nil refl

client_trace-nop : (c : Call) → client_trace nop c ≡ []
unfolding client_trace
client_trace-nop (Call.wrote_header_field k v) = ground arith
client_trace-nop c = ground arith

client_traces-nop : (cs : List Call) → client_traces nop cs ≡ []
unfolding client_traces
client_traces-nop [] = refl
client_traces-nop (c ∷ cs) = rw (client_traces-nop cs, client_trace-nop c) refl

-- With the trace off nothing is shown of an exchange. At any other level the request's line comes
-- first, then what the level asks for of the calls that the transport makes, pseudo-headers left out,
-- and last the status, with the header if the level asks for it, or the error.
pub round_trip-parts :
    (level : ℕ) (req : Request) (calls : List Call) (rsp : Option Response) (e : Option Bytes)
    → round_trip (setup_trace_level level) req calls rsp e
      ≡ (if level == trace_off then [] else shown_at level (exchange_parts req calls rsp e))
unfolding round_trip setup_trace_level
round_trip-parts level req calls rsp e = elim (Bool-cases (level == 0)) [
  | inl off ↦ rw (off, client_traces-nop calls) refl
  | inr on ↦
      rw (on, client_traces-parts level calls, log_done-parts level rsp e)
        (ap
          (λ ss.
            Shown.start_request req.method (or_text req.uri (codes "/"))
              (or_text req.proto (codes "HTTP/1.1"))
            ∷ ss)
          (sym (shown_at-append level (call_parts calls) (done_parts rsp e))))
]
