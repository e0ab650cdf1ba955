-- ===== src/Commands/Flags/Apps.antt =====
-- The flags of the three commands: `FlagsAndArgs` of each package, and internal/cmd. Flags that joe-cli
-- adds of itself, and those of its color options, are not the program's.
use joe_cli_http.Prelude.{List, [], ◌∷◌, ◌++◌}
use joe_cli_http.Prelude.Text.{codes}
use joe_cli_http.Commands.Flags.{Flag, plain_flag, file_value, must_exist, working_directory}
use joe_cli_http.Commands.Flags.Requests.{
  base_url_flag, body_content_flag, body_flag, dial_timeout_flag, fill_value_flag,
  follow_redirects_flag, header_flag, json_content_flag, json_flag, method_flag, query_string_flag,
  request_id_flag, user_agent_flag, write_err_flag, write_out_flag,
}
use joe_cli_http.Commands.Flags.Responses.{
  bind_address_flag, dial_keep_alive_flag, disable_dial_keep_alive_flag, dns_interface_flag,
  download_flag, fail_fast_flag, include_response_headers_flag, integrity_flag, interface_flag,
  list_interfaces_flag, no_output_flag, output_file_flag, prefer_go_flag, strict_errors_dns_flag,
  strip_components_flag, uri_template_var_flag, uri_template_vars_flag, verbose_flag,
}
use joe_cli_http.Commands.Flags.Tracing.{trace_level_flag}
use joe_cli_http.Commands.Flags.Accounts.{
  auth_flag, basic_auth_flag, list_authenticators_flag, user_flag,
}
use joe_cli_http.Commands.Flags.Serving.{
  access_log_flag, addr_flag, handler_flag, hide_directory_listings_flag, hostname_flag,
  idle_timeout_flag, list_handlers_flag, max_header_bytes_flag, no_access_log_flag,
  open_in_browser_flag, port_flag, read_header_timeout_flag, read_timeout_flag, server_header_flag,
  static_directory_flag, tls_cert_file_flag, tls_key_file_flag, write_timeout_flag,
}
use joe_cli_http.Commands.Flags.Secure.{
  ca_cert_file_flag, ca_cert_path_flag, ciphers_flag, client_cert_file_flag, curves_flag,
  insecure_key_log_file_flag, insecure_skip_verify_flag, key_file_flag, list_ciphers_flag,
  list_curves_flag, next_protos_flag, random_flag, server_name_flag, time_flag, tlsv1_0_flag,
  tlsv1_1_flag, tlsv1_2_flag, tlsv1_3_flag, tlsv1_flag,
}
use joe_cli_http.Commands.Flags.Templates.{
  expander_var_flag, expander_vars_flag, partial_expand_flag,
}

-- `FlagsAndArgs` of httpclient
abbrev pub client_flags : List Flag
client_flags =
    method_flag ∷ header_flag ∷ body_flag ∷ base_url_flag ∷ uri_template_var_flag
    ∷ uri_template_vars_flag ∷ body_content_flag ∷ fill_value_flag ∷ json_flag ∷ json_content_flag
    ∷ follow_redirects_flag ∷ user_agent_flag ∷ dial_timeout_flag ∷ include_response_headers_flag
    ∷ output_file_flag ∷ no_output_flag ∷ integrity_flag ∷ download_flag ∷ dns_interface_flag
    ∷ prefer_go_flag ∷ strict_errors_dns_flag ∷ dial_keep_alive_flag ∷ disable_dial_keep_alive_flag
    ∷ bind_address_flag ∷ interface_flag ∷ list_interfaces_flag ∷ verbose_flag ∷ trace_level_flag
    ∷ request_id_flag ∷ query_string_flag ∷ write_out_flag ∷ write_err_flag ∷ strip_components_flag
    ∷ fail_fast_flag ∷ list_authenticators_flag ∷ user_flag ∷ auth_flag ∷ basic_auth_flag ∷ []

-- `FlagsAndArgs` of tls
abbrev pub tls_flags : List Flag
tls_flags =
    list_ciphers_flag ∷ list_curves_flag ∷ ca_cert_file_flag ∷ ca_cert_path_flag ∷ ciphers_flag
    ∷ client_cert_file_flag ∷ curves_flag ∷ insecure_key_log_file_flag ∷ insecure_skip_verify_flag
    ∷ key_file_flag ∷ next_protos_flag ∷ random_flag ∷ server_name_flag ∷ time_flag ∷ tlsv1_flag
    ∷ tlsv1_0_flag ∷ tlsv1_1_flag ∷ tlsv1_2_flag ∷ tlsv1_3_flag ∷ []

-- `FlagsAndArgs` of httpserver
abbrev pub server_flags : List Flag
server_flags =
    hostname_flag ∷ addr_flag ∷ port_flag ∷ read_timeout_flag ∷ read_header_timeout_flag
    ∷ write_timeout_flag ∷ idle_timeout_flag ∷ max_header_bytes_flag ∷ static_directory_flag
    ∷ hide_directory_listings_flag ∷ open_in_browser_flag ∷ access_log_flag ∷ no_access_log_flag
    ∷ server_header_flag ∷ tls_cert_file_flag ∷ tls_key_file_flag ∷ []

-- `FlagsAndArgs` of uritemplates
abbrev pub expander_flags : List Flag
expander_flags = expander_var_flag ∷ expander_vars_flag ∷ partial_expand_flag ∷ []

-- The flag of wig and weave
abbrev pub chdir_flag : Flag
chdir_flag = record plain_flag {
  name = codes "chdir";
  help_text = codes "Change directory into the specified working {DIRECTORY}";
  value = file_value;
  options = must_exist ∷ working_directory ∷ [];
}

-- The flag of weave, whose alias is taken away.
abbrev pub help_flag : Flag
help_flag = record plain_flag { name = codes "help" }

pub data App : Type 0 where
  wig weave rug : App

-- The client's pipeline holds the flags of tls.
abbrev pub flags_of : App → List Flag
flags_of wig = client_flags ++ tls_flags ++ chdir_flag ∷ []
flags_of weave = server_flags ++ chdir_flag ∷ handler_flag ∷ list_handlers_flag ∷ help_flag ∷ []
flags_of rug = expander_flags
