-- ===== src/Server/Options/Tests.antt =====
-- httpserver/options.go: the theorem at a concrete set of options.
use joe_cli_http.Prelude.{ℕ, [], ◌∷◌, ◌++◌, none, some, ◌≡◌, true}
use joe_cli_http.Prelude.Text.{codes, cut}
use joe_cli_http.Prelude.Decimal.{pos}
use joe_cli_http.Server.Mux.{Server}
use joe_cli_http.Server.Setters.{Addresses}
use joe_cli_http.Server.Options.{Options, apply_options, new_server}
use joe_cli_http.Server.Options.Apply.{or_old, add_header, new_addr, apply_options_lem}

-- Addresses with one colon.
abbrev plain_addresses : Addresses
plain_addresses = record {
  split_host_port = λ a. some ((cut b':' a).0, (cut b':' a).1);
  join_host_port = λ h p. h ++ b':' ∷ p;
}

abbrev some_options : Options
some_options = record {
  addr = none;
  hostname = some (codes "example.com");
  port = some (pos 80);
  tls_cert_file = none;
  tls_key_file = none;
  server_header = some (codes "joe");
  access_log = some [];
  static_directory = none;
  hide_directory_listings = some true;
  shutdown_timeout = none;
  read_timeout = some (pos 5);
  read_header_timeout = none;
  write_timeout = none;
  idle_timeout = none;
  max_header_bytes = none;
}

abbrev default_server : Server ℕ
default_server = new_server []

apply_options_lem_example :
    let o = some_options in
    let s = default_server in
    apply_options plain_addresses o s ≡ record s {
      addr = new_addr plain_addresses o s.addr;
      tls_cert_file = or_old o.tls_cert_file s.tls_cert_file;
      tls_key_file = or_old o.tls_key_file s.tls_key_file;
      middleware = add_header o.server_header s.middleware;
      access_log = or_old o.access_log s.access_log;
      static_dir = or_old o.static_directory s.static_dir;
      hide_dir_listings = or_old o.hide_directory_listings s.hide_dir_listings;
      shutdown_timeout = or_old o.shutdown_timeout s.shutdown_timeout;
      read_timeout = or_old o.read_timeout s.read_timeout;
      read_header_timeout = or_old o.read_header_timeout s.read_header_timeout;
      write_timeout = or_old o.write_timeout s.write_timeout;
      idle_timeout = or_old o.idle_timeout s.idle_timeout;
      max_header_bytes = or_old o.max_header_bytes s.max_header_bytes;
    }
apply_options_lem_example = apply_options_lem plain_addresses some_options default_server
