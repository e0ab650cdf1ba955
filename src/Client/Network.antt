-- ===== src/Client/Network.antt =====
-- httpclient/interface_resolver.go, httpclient/transport.go and httpclient/client.go: the dialers, the
-- interfaces and the transport of a client. Package net is not the program's: `Net` is what it answers.
use joe_cli_http.Prelude.{
  ℕ, Bool, true, false, List, [], ◌∷◌, ◌++◌, Option, none, some, if◌then◌else◌, Bytes, Outcome, ok,
  err, panics, ◌>>=◌,
}
use joe_cli_http.Prelude.Text.{codes, equal}
use joe_cli_http.Prelude.Decimal.{ℤ, pos, negsuc}
use joe_cli_http.Client.Cacheable.{Cacheable, Made, new}
use joe_cli_http.Client.Trace.Log.{Logger, setup_trace_level}

pub data Error : Type 0 where
  unresolved : Bytes → Error
  no_address no_interface no_addresses bad_cidr no_resolver : Error

-- `ParseIP` and `ParseCIDR` as texts, `ResolveTCPAddr` of a host and a port, and the addresses of an
-- interface, each with its network.
pub record Net : Type 0 where
  pub parse_ip : Bytes → Option Bytes
  pub parse_cidr : Bytes → Option Bytes
  pub join_host_port : Bytes → Bytes → Bytes
  pub resolve_tcp_addr : Bytes → Option Bytes
  pub interface_by_name : Bytes → Option (Option (List (Bytes × Bytes)))

abbrev pub or_error : {A : Type 0} → Error → Option A → Outcome Error A
or_error e none = err e
or_error e (some a) = ok a

-- `resolveTCP`
unfoldable pub resolve_tcp : Net → Bytes → Outcome Error Bytes
resolve_tcp net value =
    or_error no_address (net.resolve_tcp_addr (net.join_host_port value (codes "0")))

-- `resolveIPNet`
unfoldable pub resolve_ip_net : Net → Bytes → Outcome Error Bytes
unfolding resolve_tcp
resolve_ip_net net value = do ip ← or_error bad_cidr (net.parse_cidr value); resolve_tcp net ip

-- The loop of `Resolve` over the addresses
unfoldable pub first_ip_net : Net → Bytes → List (Bytes × Bytes) → Outcome Error Bytes
unfolding equal resolve_ip_net
first_ip_net net v [] = err (unresolved v)
first_ip_net net v ((network, a) ∷ addrs) =
    if equal network (codes "ip+net") then resolve_ip_net net a else first_ip_net net v addrs

-- `Resolve`
unfoldable pub resolve : Net → Bytes → Outcome Error Bytes
unfolding resolve_tcp first_ip_net
resolve net v = elim (net.parse_ip v) [
  | some ip ↦ resolve_tcp net ip
  | none ↦ do
    eth ← or_error no_interface (net.interface_by_name v)
    addrs ← or_error no_addresses eth
    first_ip_net net v addrs
]

-- A `net.Dialer`, with the two fields of its resolver. A duration counts nanoseconds.
pub record Dialer : Type 0 where
  pub local_addr : Option Bytes
  pub timeout : ℤ
  pub keep_alive : ℤ
  pub prefer_go : Bool
  pub strict_errors : Bool

abbrev pub new_dialer : Dialer
new_dialer = record {
  local_addr = none;
  timeout = pos 0;
  keep_alive = pos 0;
  prefer_go = false;
  strict_errors = false;
}

-- An `InterfaceResolver`
abbrev pub InterfaceResolver : Type 0
InterfaceResolver = Bytes → Outcome Error Bytes

-- The transports that the client makes: a clone of the default one with the client's dialer, the
-- caller's, and one that traces.
pub data Transport : Type 0 where
  default_transport : Option Bytes → Transport
  custom_transport : ℕ → Transport
  traceable : Logger → Transport → Transport

-- The middleware of a transport
pub data TransportMiddleware : Type 0 where
  tls_config trace_level : TransportMiddleware
  custom : (Transport → Transport) → TransportMiddleware

-- The fields of `Client` that connections depend on. `tls` is the configuration that the client would
-- make, and `logger` the one that it keeps.
pub record Connections : Type 0 where
  pub dialer : Dialer
  pub dns_dialer : Dialer
  pub interface_resolver : Cacheable InterfaceResolver Error
  pub transport_discrete : Option Transport
  pub transport_is_default : Bool
  pub transport_middleware : List TransportMiddleware
  pub tls : Option Bytes
  pub level : ℕ
  pub logger : Option Logger
  pub write_out : Bytes
  pub write_err : Bytes

-- `SetPreferGoDialer`
unfoldable pub set_prefer_go_dialer : Connections → Bool → Connections
set_prefer_go_dialer c v = record c { dialer = record (c.dialer) { prefer_go = v } }

-- `SetStrictErrorsDNS`
unfoldable pub set_strict_errors_dns : Connections → Bool → Connections
set_strict_errors_dns c v = record c { dialer = record (c.dialer) { strict_errors = v } }

-- `SetDisableDialKeepAlive`
unfoldable pub set_disable_dial_keep_alive : Connections → Bool → Connections
set_disable_dial_keep_alive c v =
    if v then record c { dialer = record (c.dialer) { keep_alive = negsuc 0 } } else c

-- `SetDialTimeout`
unfoldable pub set_dial_timeout : Connections → ℤ → Connections
set_dial_timeout c v = record c { dialer = record (c.dialer) { timeout = v } }

-- `SetDialKeepAlive`
unfoldable pub set_dial_keep_alive : Connections → ℤ → Connections
set_dial_keep_alive c v = record c { dialer = record (c.dialer) { keep_alive = v } }

-- `SetBindAddress`
unfoldable pub set_bind_address : Net → Connections → Bytes → Outcome Error Connections
set_bind_address net c value = do
  addr ← or_error no_address (net.resolve_tcp_addr value)
  ok (record c { dialer = record (c.dialer) { local_addr = some addr } })

abbrev pub resolve_by : Outcome Error (Option InterfaceResolver) → Bytes → Outcome Error Bytes
resolve_by (ok (some r)) v = r v
resolve_by (ok none) v = panics
resolve_by (err e) v = err e
resolve_by panics v = panics

-- `resolveInterface`; `made` is what the resolver's factory would return.
unfoldable pub resolve_interface :
    Connections → Made InterfaceResolver Error → Bytes → Connections × Outcome Error Bytes
unfolding new
resolve_interface c b v =
    let (cached, r) = new c.interface_resolver b in
    (record c { interface_resolver = cached }, resolve_by r v)

-- `SetInterface`
unfoldable pub set_interface :
    Connections → Made InterfaceResolver Error → Bytes → Connections × Outcome Error Bytes
unfolding resolve_interface
set_interface c b value =
    let (d, r) = resolve_interface c b value in
    elim r [
      | ok addr ↦ (record d { dialer = record (d.dialer) { local_addr = some addr } }, ok addr)
      | err e ↦ (d, err e)
      | panics ↦ (d, panics)
    ]

-- `SetDNSInterface`; an empty name changes nothing.
unfoldable pub set_dns_interface :
    Connections → Made InterfaceResolver Error → Bytes → Connections × Outcome Error Bytes
unfolding resolve_interface
set_dns_interface c b [] = (c, ok [])
set_dns_interface c b (v ∷ vs) =
    let (d, r) = resolve_interface c b (v ∷ vs) in
    elim r [
      | ok addr ↦
          (record d { dns_dialer = record (d.dns_dialer) { local_addr = some addr } }, ok addr)
      | err e ↦ (d, err e)
      | panics ↦ (d, panics)
    ]

-- `SetTraceLevel`
unfoldable pub set_trace_level : Connections → ℕ → Connections
set_trace_level c v = record c { level = v }

-- `SetWriteOut`
unfoldable pub set_write_out : Connections → Bytes → Connections
set_write_out c w = record c { write_out = w }

-- `SetWriteErr`
unfoldable pub set_write_err : Connections → Bytes → Connections
set_write_err c w = record c { write_err = w }

-- `WithTransport`
unfoldable pub with_transport : Transport → Connections → Connections
with_transport t c = record c { transport_discrete = some t }

-- `WithDefaultTransportFactory`: its middleware goes in front.
unfoldable pub with_default_transport : Connections → Connections
with_default_transport c = record c {
  transport_is_default = true;
  transport_middleware = tls_config ∷ trace_level ∷ c.transport_middleware;
}

-- `AddTransportMiddleware`
unfoldable pub add_transport_middleware : Connections → TransportMiddleware → Connections
add_transport_middleware c m = record c { transport_middleware = c.transport_middleware ++ m ∷ [] }

-- `setupTLSConfigTransport`: only the default transport takes a configuration.
unfoldable pub setup_tls_config : Option Bytes → Transport → Transport
setup_tls_config t (default_transport old) = default_transport t
setup_tls_config t other = other

-- `setupTraceLevelTransport`, which keeps the logger, and the other middleware
unfoldable pub apply_transport :
    TransportMiddleware → Connections → Transport → Connections × Transport
unfolding setup_tls_config setup_trace_level
apply_transport tls_config c t = (c, setup_tls_config c.tls t)
apply_transport trace_level c t =
    let logger = setup_trace_level c.level in
    (record c { logger = some logger }, traceable logger t)
apply_transport (custom f) c t = (c, f t)

-- The middleware in its order
unfoldable pub apply_transports :
    List TransportMiddleware → Connections → Transport → Connections × Transport
unfolding apply_transport
apply_transports [] c t = (c, t)
apply_transports (m ∷ ms) c t = let (d, u) = apply_transport m c t in apply_transports ms d u
