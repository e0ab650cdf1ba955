-- ===== src/Server/Options/Apply.antt =====
-- What `Options` does to a server.
use joe_cli_http.Prelude.{Bool, List, [], ◌∷◌, ◌++◌, Option, none, some, Bytes, ◌≡◌, refl}
use joe_cli_http.Prelude.Decimal.{ℤ, show_int}
use joe_cli_http.Server.Mux.{Server, Middleware, server_header}
use joe_cli_http.Server.Setters.{Addresses, update_addr, updated_addr, set_hostname, set_port}
use joe_cli_http.Server.Options.{
  ServerOption, Options, with_hostname, with_port, with_addr, apply_all, when, apply_options,
  with_tls_cert_file, with_tls_key_file, with_server_header, with_access_log, with_static_directory,
  with_hide_directory_listings, with_shutdown_timeout, with_read_timeout, with_read_header_timeout,
  with_write_timeout, with_idle_timeout, with_max_header_bytes,
}

abbrev pub or_old : {A : Type 0} → Option A → A → A
or_old none a = a
or_old (some b) a = b

abbrev pub add_header : Option Bytes → List Middleware → List Middleware
add_header none ms = ms
add_header (some name) ms = ms ++ server_header name ∷ []

abbrev with_host_over : Addresses → Option Bytes → Bytes → Bytes
with_host_over net none addr = addr
with_host_over net (some h) addr = updated_addr net addr h []

abbrev with_port_over : Addresses → Option ℤ → Bytes → Bytes
with_port_over net none addr = addr
with_port_over net (some p) addr = updated_addr net addr [] (show_int p)

-- The address after the options that concern it: the one given, or the old one with the hostname and
-- then the port put in.
abbrev pub new_addr : Addresses → Options → Bytes → Bytes
new_addr net o addr = or_old o.addr (with_port_over net o.port (with_host_over net o.hostname addr))

module _ {H : Type 0} where
  apply_all-append :
      (s : Server H) (os ps : List (ServerOption H))
      → apply_all s (os ++ ps) ≡ apply_all (apply_all s os) ps
  unfolding apply_all
  apply_all-append s [] ps = refl
  apply_all-append s (o ∷ os) ps = apply_all-append (o s) os ps

  apply-tls_cert_file :
      (s : Server H) (x : Option Bytes)
      → apply_all s (when x with_tls_cert_file)
        ≡ record s { tls_cert_file = or_old x s.tls_cert_file }
  unfolding apply_all with_tls_cert_file
  apply-tls_cert_file s none = refl
  apply-tls_cert_file s (some v) = refl

  apply-tls_key_file :
      (s : Server H) (x : Option Bytes)
      → apply_all s (when x with_tls_key_file) ≡ record s { tls_key_file = or_old x s.tls_key_file }
  unfolding apply_all with_tls_key_file
  apply-tls_key_file s none = refl
  apply-tls_key_file s (some v) = refl

  apply-server_header :
      (s : Server H) (x : Option Bytes)
      → apply_all s (when x with_server_header)
        ≡ record s { middleware = add_header x s.middleware }
  unfolding apply_all with_server_header
  apply-server_header s none = refl
  apply-server_header s (some v) = refl

  apply-access_log :
      (s : Server H) (x : Option Bytes)
      → apply_all s (when x with_access_log) ≡ record s { access_log = or_old x s.access_log }
  unfolding apply_all with_access_log
  apply-access_log s none = refl
  apply-access_log s (some v) = refl

  apply-static_directory :
      (s : Server H) (x : Option Bytes)
      → apply_all s (when x with_static_directory) ≡ record s { static_dir = or_old x s.static_dir }
  unfolding apply_all with_static_directory
  apply-static_directory s none = refl
  apply-static_directory s (some v) = refl

  apply-hide_directory_listings :
      (s : Server H) (x : Option Bool)
      → apply_all s (when x with_hide_directory_listings)
        ≡ record s { hide_dir_listings = or_old x s.hide_dir_listings }
  unfolding apply_all with_hide_directory_listings
  apply-hide_directory_listings s none = refl
  apply-hide_directory_listings s (some v) = refl

  apply-shutdown_timeout :
      (s : Server H) (x : Option ℤ)
      → apply_all s (when x with_shutdown_timeout)
        ≡ record s { shutdown_timeout = or_old x s.shutdown_timeout }
  unfolding apply_all with_shutdown_timeout
  apply-shutdown_timeout s none = refl
  apply-shutdown_timeout s (some v) = refl

  apply-read_timeout :
      (s : Server H) (x : Option ℤ)
      → apply_all s (when x with_read_timeout) ≡ record s { read_timeout = or_old x s.read_timeout }
  unfolding apply_all with_read_timeout
  apply-read_timeout s none = refl
  apply-read_timeout s (some v) = refl

  apply-read_header_timeout :
      (s : Server H) (x : Option ℤ)
      → apply_all s (when x with_read_header_timeout)
        ≡ record s { read_header_timeout = or_old x s.read_header_timeout }
  unfolding apply_all with_read_header_timeout
  apply-read_header_timeout s none = refl
  apply-read_header_timeout s (some v) = refl

  apply-write_timeout :
      (s : Server H) (x : Option ℤ)
      → apply_all s (when x with_write_timeout)
        ≡ record s { write_timeout = or_old x s.write_timeout }
  unfolding apply_all with_write_timeout
  apply-write_timeout s none = refl
  apply-write_timeout s (some v) = refl

  apply-idle_timeout :
      (s : Server H) (x : Option ℤ)
      → apply_all s (when x with_idle_timeout) ≡ record s { idle_timeout = or_old x s.idle_timeout }
  unfolding apply_all with_idle_timeout
  apply-idle_timeout s none = refl
  apply-idle_timeout s (some v) = refl

  apply-max_header_bytes :
      (s : Server H) (x : Option ℤ)
      → apply_all s (when x with_max_header_bytes)
        ≡ record s { max_header_bytes = or_old x s.max_header_bytes }
  unfolding apply_all with_max_header_bytes
  apply-max_header_bytes s none = refl
  apply-max_header_bytes s (some v) = refl

  apply-hostname :
      (net : Addresses) (s : Server H) (x : Option Bytes)
      → apply_all s (when x (with_hostname net)) ≡ record s { addr = with_host_over net x s.addr }
  unfolding apply_all with_hostname set_hostname update_addr
  apply-hostname net s none = refl
  apply-hostname net s (some v) = refl

  apply-port :
      (net : Addresses) (s : Server H) (x : Option ℤ)
      → apply_all s (when x (with_port net)) ≡ record s { addr = with_port_over net x s.addr }
  unfolding apply_all with_port set_port update_addr
  apply-port net s none = refl
  apply-port net s (some v) = refl

  apply-addr :
      (s : Server H) (x : Option Bytes)
      → apply_all s (when x with_addr) ≡ record s { addr = or_old x s.addr }
  unfolding apply_all with_addr
  apply-addr s none = refl
  apply-addr s (some v) = refl

  -- `Options` sets at once every field that it has a value for, and no other; an address wins over a
  -- hostname and a port, and a server header is one more piece of middleware, behind the others.
  pub apply_options_lem :
      (net : Addresses) (o : Options) (s : Server H)
      → apply_options net o s ≡ record s {
        addr = new_addr net o s.addr;
        tls_cert_file = or_old o.tls_cert_file s.tls_cert_file;
        tls_key_file = or_old o.tls_key_file s.tls_key_file;
        middleware = add_header o.server_header s.middleware;
        access_log = or_old o.access_log s.access_log;
        static_dir = or_old o.static_directory s.static_dir;
        hide_dir_listings = or_old o.hide_directory_listings s.hide_dir_listings;
        shutdown_timeout = or_old o.shutdown_timeout s.shutdown_timeout;
        read_timeout = or_old o.read_timeout s.read_timeout;
        read_header_timeout = or_old o.read_header_timeout s.read_header_timeout;
        write_timeout = or_old o.write_timeout s.write_timeout;
        idle_timeout = or_old o.idle_timeout s.idle_timeout;
        max_header_bytes = or_old o.max_header_bytes s.max_header_bytes;
      }
  unfolding apply_options
  apply_options_lem net o s = simp (
    apply_all-append, apply-tls_cert_file, apply-tls_key_file, apply-server_header,
    apply-access_log, apply-static_directory, apply-hide_directory_listings, apply-shutdown_timeout,
    apply-read_timeout, apply-read_header_timeout, apply-write_timeout, apply-idle_timeout,
    apply-max_header_bytes, apply-hostname, apply-port, apply-addr,
  )
