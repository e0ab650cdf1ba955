-- ===== src/Commands/Flags/Serving.antt =====
-- httpserver/server_commands.go: the flags of the server.
use joe_cli_http.Prelude.{[], ◌∷◌}
use joe_cli_http.Prelude.Text.{codes}
use joe_cli_http.Commands.Flags.{
  Flag, plain_flag, each_occurrence, must_exist, bool_value, int_value, duration_value, file_value,
  virtual_path_value, setter, turns_on, handles, file_setter, file_name, runs, applies,
  lists_providers,
}

-- `SetHostname`
abbrev pub hostname_flag : Flag
hostname_flag = record plain_flag {
  name = codes "host";
  aliases = codes "h" ∷ [];
  help_text = codes "Sets the server {HOST} name to use";
  category = codes "Listener options";
  calls = setter (codes "WithHostname");
}

-- `SetPort`
abbrev pub port_flag : Flag
port_flag = record plain_flag {
  name = codes "port";
  aliases = codes "p" ∷ [];
  help_text = codes "Sets the server {PORT} that will be used";
  category = codes "Listener options";
  calls = setter (codes "WithPort");
}

-- `SetAddr`
abbrev pub addr_flag : Flag
addr_flag = record plain_flag {
  name = codes "addr";
  help_text = codes "Sets the server {ADDRESS} to use";
  category = codes "Listener options";
  calls = setter (codes "WithAddr");
}

-- `SetReadTimeout`
abbrev pub read_timeout_flag : Flag
read_timeout_flag = record plain_flag {
  name = codes "read-timeout";
  help_text = codes "Sets the maximum {DURATION} for reading the entire request";
  category = codes "Advanced options";
  calls = setter (codes "WithReadTimeout");
}

-- `SetShutdownTimeout`
abbrev pub shutdown_timeout_flag : Flag
shutdown_timeout_flag = record plain_flag {
  name = codes "shutdown-timeout";
  help_text = codes "Sets the maximum {DURATION} for shutting down the server";
  category = codes "Advanced options";
  calls = setter (codes "WithShutdownTimeout");
}

-- `SetReadHeaderTimeout`
abbrev pub read_header_timeout_flag : Flag
read_header_timeout_flag = record plain_flag {
  name = codes "read-header-timeout";
  help_text = codes "Sets the amount of {TIME} allowed to read request headers";
  category = codes "Advanced options";
  value = duration_value;
  calls = setter (codes "WithReadHeaderTimeout");
}

-- `SetWriteTimeout`
abbrev pub write_timeout_flag : Flag
write_timeout_flag = record plain_flag {
  name = codes "write-header-timeout";
  help_text = codes "Sets the amount of {TIME} allowed to write response";
  category = codes "Advanced options";
  value = duration_value;
  calls = setter (codes "WithWriteTimeout");
}

-- `SetIdleTimeout`
abbrev pub idle_timeout_flag : Flag
idle_timeout_flag = record plain_flag {
  name = codes "idle-timeout";
  help_text = codes "Sets the amount of {TIME} allowed to read request headers";
  category = codes "Advanced options";
  value = duration_value;
  calls = setter (codes "WithIdleTimeout");
}

-- `SetMaxHeaderBytes`
abbrev pub max_header_bytes_flag : Flag
max_header_bytes_flag = record plain_flag {
  name = codes "max-header-bytes";
  help_text = codes "Specify the maximum header bytes allowed for headers";
  category = codes "Advanced options";
  value = int_value;
  calls = setter (codes "WithMaxHeaderBytes");
}

-- `SetStaticDirectory`
abbrev pub static_directory_flag : Flag
static_directory_flag = record plain_flag {
  name = codes "directory";
  aliases = codes "d" ∷ [];
  help_text = codes "Serve static files from the specified directory";
  category = codes "Server options";
  options = must_exist ∷ [];
  value = file_value;
  calls = file_setter file_name (codes "WithStaticDirectory");
}

-- `SetHideDirectoryListings`
abbrev pub hide_directory_listings_flag : Flag
hide_directory_listings_flag = record plain_flag {
  name = codes "hide-directory-listings";
  help_text = codes "When set, don't display directory listings";
  category = codes "Server options";
  calls = turns_on (codes "WithHideDirectoryListings");
}

-- `SetOpenInBrowser`
abbrev pub open_in_browser_flag : Flag
open_in_browser_flag = record plain_flag {
  name = codes "open";
  help_text = codes "When set, open the default Web browser when the server is ready";
  category = codes "Server options";
  value = bool_value;
  calls = applies (codes "AddReadyFunc") (codes "OpenInBrowser");
}

-- `SetHandler`
abbrev pub handler_flag : Flag
handler_flag = record plain_flag {
  name = codes "handler";
  aliases = codes "H" ∷ [];
  usage_text = codes "route:handler[,options]";
  help_text = codes "Binds a handler to the given route";
  category = codes "Server options";
  options = each_occurrence ∷ [];
  value = virtual_path_value;
  calls = handles (codes "RegistryHandlerSpec");
}

-- `ListHandlers`
abbrev pub list_handlers_flag : Flag
list_handlers_flag = record plain_flag {
  help_text = codes "List available providers for the handler option then exit";
  calls = lists_providers (codes "handlers");
}

-- `SetFileServerHandler`
abbrev pub file_server_handler_flag : Flag
file_server_handler_flag = record plain_flag {
  name = codes "files";
  usage_text = codes "[route:]directory";
  help_text = codes "Binds a handler to the given route";
  options = each_occurrence ∷ [];
  value = virtual_path_value;
  calls = handles (codes "FileServerHandlerSpec");
}

-- `SetAccessLog`
abbrev pub access_log_flag : Flag
access_log_flag = record plain_flag {
  name = codes "access-log";
  aliases = codes "a" ∷ [];
  help_text = codes "Set access log format";
  category = codes "Advanced options";
  calls = setter (codes "WithAccessLog");
}

-- `SetNoAccessLog`
abbrev pub no_access_log_flag : Flag
no_access_log_flag = record plain_flag {
  name = codes "no-access-log";
  help_text = codes "Disable the access log";
  category = codes "Advanced options";
  value = bool_value;
  calls = runs (codes "WithNoAccessLog");
}

-- `SetServerHeader`
abbrev pub server_header_flag : Flag
server_header_flag = record plain_flag {
  name = codes "server";
  aliases = codes "S" ∷ [];
  help_text = codes "Set value of the Server response header";
  category = codes "Advanced options";
  calls = setter (codes "WithServerHeader");
}

-- `SetTLSKeyFile`
abbrev pub tls_key_file_flag : Flag
tls_key_file_flag = record plain_flag {
  name = codes "key";
  help_text = codes "Specify the FILE that contains the TLS private key";
  category = codes "Listener options";
  options = must_exist ∷ [];
  requires = codes "cert" ∷ [];
  calls = file_setter file_name (codes "WithTLSKeyFile");
}

-- `SetTLSCertFile`
abbrev pub tls_cert_file_flag : Flag
tls_cert_file_flag = record plain_flag {
  name = codes "cert";
  help_text = codes "Specify the FILE that contains the TLS certificate";
  category = codes "Listener options";
  options = must_exist ∷ [];
  requires = codes "key" ∷ [];
  calls = file_setter file_name (codes "WithTLSCertFile");
}
