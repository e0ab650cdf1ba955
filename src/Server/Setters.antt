-- ===== src/Server/Setters.antt =====
-- The setters of httpserver/server.go, which write a field of the server. `net.SplitHostPort` and
-- `net.JoinHostPort` are not the program's: they are parameters.
use joe_cli_http.Prelude.{Bool, [], ◌∷◌, ◌++◌, Option, none, some, Bytes}
use joe_cli_http.Prelude.Decimal.{ℤ, show_int}
use joe_cli_http.Server.Mux.{Server, Node, Middleware, server_header}

-- `net.SplitHostPort`, if it succeeds, and `net.JoinHostPort`
pub record Addresses : Type 0 where
  pub split_host_port : Bytes → Option (Bytes × Bytes)
  pub join_host_port : Bytes → Bytes → Bytes

abbrev pub or_else : Bytes → Bytes → Bytes
or_else [] d = d
or_else (c ∷ s) d = c ∷ s

-- The address that `updateAddr` writes over one.
unfoldable pub updated_addr : Addresses → Bytes → Bytes → Bytes → Bytes
updated_addr net addr hostname port = elim (net.split_host_port addr) [
  | none ↦ net.join_host_port hostname port
  | some (h, p) ↦ net.join_host_port (or_else hostname h) (or_else port p)
]

module _ {H : Type 0} where
  -- `updateAddr`
  unfoldable pub update_addr : Addresses → Server H → Bytes → Bytes → Server H
  unfolding updated_addr
  update_addr net s hostname port = record s { addr = updated_addr net s.addr hostname port }

  -- `SetHostname`
  unfoldable pub set_hostname : Addresses → Server H → Bytes → Server H
  set_hostname net s name = update_addr net s name []

  -- `SetPort`
  unfoldable pub set_port : Addresses → Server H → ℤ → Server H
  set_port net s port = update_addr net s [] (show_int port)

  -- `SetAddr`
  unfoldable pub set_addr : Server H → Bytes → Server H
  set_addr s addr = record s { addr = addr }

  -- `AddMiddleware`
  unfoldable pub add_middleware : Server H → Middleware → Server H
  add_middleware s m = record s { middleware = s.middleware ++ m ∷ [] }

  -- `WithHandler` of the server
  unfoldable pub set_handler : Server H → Node → Server H
  set_handler s handler = record s { handler = handler }

  -- `SetTLSCertFile`
  unfoldable pub set_tls_cert_file : Server H → Bytes → Server H
  set_tls_cert_file s v = record s { tls_cert_file = v }

  -- `SetTLSKeyFile`
  unfoldable pub set_tls_key_file : Server H → Bytes → Server H
  set_tls_key_file s v = record s { tls_key_file = v }

  -- `SetServerHeader`
  unfoldable pub set_server_header : Server H → Bytes → Server H
  unfolding add_middleware
  set_server_header s name = add_middleware s (server_header name)

  -- `SetAccessLog`
  unfoldable pub set_access_log : Server H → Bytes → Server H
  set_access_log s v = record s { access_log = v }

  -- `SetStaticDirectory`
  unfoldable pub set_static_directory : Server H → Bytes → Server H
  set_static_directory s v = record s { static_dir = v }

  -- `SetHideDirectoryListings`
  unfoldable pub set_hide_directory_listings : Server H → Bool → Server H
  set_hide_directory_listings s v = record s { hide_dir_listings = v }

  -- `SetShutdownTimeout`
  unfoldable pub set_shutdown_timeout : Server H → ℤ → Server H
  set_shutdown_timeout s v = record s { shutdown_timeout = v }

  -- `SetReadTimeout`
  unfoldable pub set_read_timeout : Server H → ℤ → Server H
  set_read_timeout s v = record s { read_timeout = v }

  -- `SetReadHeaderTimeout`
  unfoldable pub set_read_header_timeout : Server H → ℤ → Server H
  set_read_header_timeout s v = record s { read_header_timeout = v }

  -- `SetWriteTimeout`
  unfoldable pub set_write_timeout : Server H → ℤ → Server H
  set_write_timeout s v = record s { write_timeout = v }

  -- `SetIdleTimeout`
  unfoldable pub set_idle_timeout : Server H → ℤ → Server H
  set_idle_timeout s v = record s { idle_timeout = v }

  -- `SetMaxHeaderBytes`
  unfoldable pub set_max_header_bytes : Server H → ℤ → Server H
  set_max_header_bytes s v = record s { max_header_bytes = v }
