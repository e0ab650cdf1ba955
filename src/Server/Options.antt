-- ===== src/Server/Options.antt =====
-- httpserver/options.go and the options of httpserver/server.go, which call the setters.
pub mod Apply
mod Tests
use joe_cli_http.Prelude.{Bool, false, List, [], ◌∷◌, ◌++◌, Option, none, some, Bytes}
use joe_cli_http.Prelude.Text.{codes}
use joe_cli_http.Prelude.Decimal.{ℤ, pos}
use joe_cli_http.Server.Mux.{Server, Node, absent, Middleware, access_logger, server_header}
use joe_cli_http.Server.Setters.{
  set_hostname, set_port, set_addr, add_middleware, set_handler, set_tls_cert_file,
  set_tls_key_file, set_server_header, set_access_log, set_static_directory,
  set_hide_directory_listings, set_shutdown_timeout, set_read_timeout, set_read_header_timeout,
  set_write_timeout, set_idle_timeout, set_max_header_bytes, Addresses,
}

-- `defaultAccessLog`
abbrev pub default_access_log : Bytes
default_access_log = codes "%(accessLog.default)\\n"

-- An `Option`, applied to the server. No setter fails.
abbrev pub ServerOption : Type 0 → Type 0
ServerOption H = Server H → Server H

module _ {H : Type 0} where
  -- `withAdapter`, and `apply` of its option
  abbrev pub with_adapter : {T : Type 0} → (Server H → T → Server H) → T → ServerOption H
  with_adapter set value s = set s value

  -- `WithHandler`
  unfoldable pub with_handler : Node → ServerOption H
  unfolding set_handler
  with_handler = with_adapter set_handler

  -- `WithMiddleware`
  unfoldable pub with_middleware : Middleware → ServerOption H
  unfolding add_middleware
  with_middleware = with_adapter add_middleware

  -- `WithAddr`
  unfoldable pub with_addr : Bytes → ServerOption H
  unfolding set_addr
  with_addr = with_adapter set_addr

  -- `WithHostname`
  unfoldable pub with_hostname : Addresses → Bytes → ServerOption H
  unfolding set_hostname
  with_hostname net = with_adapter (set_hostname net)

  -- `WithPort`
  unfoldable pub with_port : Addresses → ℤ → ServerOption H
  unfolding set_port
  with_port net = with_adapter (set_port net)

  -- `WithTLSCertFile`
  unfoldable pub with_tls_cert_file : Bytes → ServerOption H
  unfolding set_tls_cert_file
  with_tls_cert_file = with_adapter set_tls_cert_file

  -- `WithTLSKeyFile`
  unfoldable pub with_tls_key_file : Bytes → ServerOption H
  unfolding set_tls_key_file
  with_tls_key_file = with_adapter set_tls_key_file

  -- `WithServerHeader`
  unfoldable pub with_server_header : Bytes → ServerOption H
  unfolding set_server_header
  with_server_header = with_adapter set_server_header

  -- `WithAccessLog`
  unfoldable pub with_access_log : Bytes → ServerOption H
  unfolding set_access_log
  with_access_log = with_adapter set_access_log

  -- `WithStaticDirectory`
  unfoldable pub with_static_directory : Bytes → ServerOption H
  unfolding set_static_directory
  with_static_directory = with_adapter set_static_directory

  -- `WithHideDirectoryListings`
  unfoldable pub with_hide_directory_listings : Bool → ServerOption H
  unfolding set_hide_directory_listings
  with_hide_directory_listings = with_adapter set_hide_directory_listings

  -- `WithShutdownTimeout`
  unfoldable pub with_shutdown_timeout : ℤ → ServerOption H
  unfolding set_shutdown_timeout
  with_shutdown_timeout = with_adapter set_shutdown_timeout

  -- `WithReadTimeout`
  unfoldable pub with_read_timeout : ℤ → ServerOption H
  unfolding set_read_timeout
  with_read_timeout = with_adapter set_read_timeout

  -- `WithReadHeaderTimeout`
  unfoldable pub with_read_header_timeout : ℤ → ServerOption H
  unfolding set_read_header_timeout
  with_read_header_timeout = with_adapter set_read_header_timeout

  -- `WithWriteTimeout`
  unfoldable pub with_write_timeout : ℤ → ServerOption H
  unfolding set_write_timeout
  with_write_timeout = with_adapter set_write_timeout

  -- `WithIdleTimeout`
  unfoldable pub with_idle_timeout : ℤ → ServerOption H
  unfolding set_idle_timeout
  with_idle_timeout = with_adapter set_idle_timeout

  -- `WithMaxHeaderBytes`
  unfoldable pub with_max_header_bytes : ℤ → ServerOption H
  unfolding set_max_header_bytes
  with_max_header_bytes = with_adapter set_max_header_bytes

  -- `WithNoAccessLog`
  unfoldable pub with_no_access_log : ServerOption H
  unfolding with_access_log
  with_no_access_log = with_access_log []

  -- `Apply`
  unfoldable pub apply_all : Server H → List (ServerOption H) → Server H
  apply_all s [] = s
  apply_all s (o ∷ os) = apply_all (o s) os

  -- `defaultOptions`, but for the action and the ready functions, which no part of the model reads
  abbrev pub default_options : List (ServerOption H)
  default_options =
      with_addr (codes "localhost:8000")
      ∷ with_shutdown_timeout (pos 3_000_000_000)
      ∷ with_access_log default_access_log
      ∷ with_middleware access_logger
      ∷ []

  -- `&Server{Server: &http.Server{}}`
  abbrev pub zero_server : Server H
  zero_server = record {
    handler = absent;
    middleware = [];
    access_log = [];
    tls_cert_file = [];
    tls_key_file = [];
    addr = [];
    static_dir = [];
    hide_dir_listings = false;
    shutdown_timeout = pos 0;
    read_timeout = pos 0;
    read_header_timeout = pos 0;
    write_timeout = pos 0;
    idle_timeout = pos 0;
    max_header_bytes = pos 0;
    bind_addr = [];
    bind_tls = false;
    patterns = [];
    targets = [];
    heap = [];
  }

  -- `New`
  unfoldable pub new_server : List (ServerOption H) → Server H
  new_server options = apply_all (apply_all zero_server default_options) options

  -- `if o.X != nil`
  abbrev pub when : {A : Type 0} → Option A → (A → ServerOption H) → List (ServerOption H)
  when none f = []
  when (some a) f = f a ∷ []

-- `Options`
pub record Options : Type 0 where
  pub addr : Option Bytes
  pub hostname : Option Bytes
  pub port : Option ℤ
  pub tls_cert_file : Option Bytes
  pub tls_key_file : Option Bytes
  pub server_header : Option Bytes
  pub access_log : Option Bytes
  pub static_directory : Option Bytes
  pub hide_directory_listings : Option Bool
  pub shutdown_timeout : Option ℤ
  pub read_timeout : Option ℤ
  pub read_header_timeout : Option ℤ
  pub write_timeout : Option ℤ
  pub idle_timeout : Option ℤ
  pub max_header_bytes : Option ℤ

-- `parts`
unfoldable pub parts : {H : Type 0} → Addresses → Options → List (ServerOption H)
parts net o =
    when o.hostname (with_hostname net)
    ++ (when o.port (with_port net)
        ++ (when o.addr with_addr
            ++ (when o.tls_cert_file with_tls_cert_file
                ++ (when o.tls_key_file with_tls_key_file
                    ++ (when o.server_header with_server_header
                        ++ (when o.access_log with_access_log
                            ++ (when o.static_directory with_static_directory
                                ++ (when o.hide_directory_listings with_hide_directory_listings
                                    ++ (when o.shutdown_timeout with_shutdown_timeout
                                        ++ (when o.read_timeout with_read_timeout
                                            ++ (when o.read_header_timeout with_read_header_timeout
                                                ++ (when o.write_timeout with_write_timeout
                                                    ++ (when o.idle_timeout with_idle_timeout
                                                        ++ when o.max_header_bytes
                                                            with_max_header_bytes)))))))))))))

-- `apply`
unfoldable pub apply_options : {H : Type 0} → Addresses → Options → Server H → Server H
unfolding parts
apply_options net o s = apply_all s (parts net o)
