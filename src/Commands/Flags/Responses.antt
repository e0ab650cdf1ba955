-- ===== src/Commands/Flags/Responses.antt =====
-- httpclient/command.go: the flags of the response, the network and the templates.
use joe_cli_http.Prelude.{[], ◌∷◌, true}
use joe_cli_http.Prelude.Text.{codes}
use joe_cli_http.Commands.Flags.{
  Flag, plain_flag, exits, no_form, each_occurrence, allow_file_reference, bool_value, var_value,
  json_vars_value, interfaces, setter, turns_on, by_occurrence, runs, counts_downloads,
}

-- `SetIncludeResponseHeaders`
abbrev pub include_response_headers_flag : Flag
include_response_headers_flag = record plain_flag {
  name = codes "include";
  aliases = codes "i" ∷ [];
  help_text = codes "Include response headers in the output";
  category = codes "Response options";
  calls = setter (codes "SetIncludeResponseHeaders");
}

-- `SetOutputFile`
abbrev pub output_file_flag : Flag
output_file_flag = record plain_flag {
  name = codes "output";
  aliases = codes "o" ∷ [];
  help_text = codes "Download file to {FILE} instead of writing to stdout";
  category = codes "Response options";
  calls = setter (codes "SetOutputFile");
}

-- `SetNoOutput`
abbrev pub no_output_flag : Flag
no_output_flag = record plain_flag {
  name = codes "no-output";
  help_text = codes "Don't write the response output to stdout";
  category = codes "Response options";
  calls = setter (codes "SetNoOutput");
}

-- `SetIntegrity`
abbrev pub integrity_flag : Flag
integrity_flag = record plain_flag {
  name = codes "integrity";
  usage_text = codes "hash:digest";
  help_text = codes "Validate the integrity of the download";
  category = codes "Response options";
  calls = setter (codes "SetIntegrity");
}

-- `SetDownload`
abbrev pub download_flag : Flag
download_flag = record plain_flag {
  name = codes "download";
  aliases = codes "O" ∷ codes "remote-name" ∷ [];
  help_text =
      codes
        "Download file using the same name as the request path.  If specified a second time, also preserves the path structure";
  category = codes "Response options";
  value = bool_value;
  calls = counts_downloads;
}

-- `SetStripComponents`
abbrev pub strip_components_flag : Flag
strip_components_flag = record plain_flag {
  name = codes "strip-components";
  help_text = codes "Remove the specified number of leading path elements when downloading files";
  category = codes "Response options";
  calls = setter (codes "SetStripComponents");
}

-- `SetFailFast`
abbrev pub fail_fast_flag : Flag
fail_fast_flag = record plain_flag {
  name = codes "fail";
  aliases = codes "f" ∷ [];
  help_text = codes "Fail fast with no output on HTTP errors";
  category = codes "Response options";
  options = no_form ∷ [];
  calls = setter (codes "SetFailFast");
}

-- `SetDNSInterface`
abbrev pub dns_interface_flag : Flag
dns_interface_flag = record plain_flag {
  name = codes "dns-interface";
  help_text = codes "Use network {INTERFACE} by name or address for DNS requests";
  category = codes "DNS options";
  completion = interfaces;
  calls = setter (codes "SetDNSInterface");
}

-- `SetPreferGo`
abbrev pub prefer_go_flag : Flag
prefer_go_flag = record plain_flag {
  name = codes "prefer-go";
  help_text = codes "Whether Go's built-in DNS resolver is preferred";
  category = codes "DNS options";
  calls = turns_on (codes "SetPreferGoDialer");
}

-- `SetDialKeepAlive`
abbrev pub dial_keep_alive_flag : Flag
dial_keep_alive_flag = record plain_flag {
  name = codes "dial-keep-alive";
  help_text =
      codes "Specifies the interval between keep-alive probes for an active network connection.";
  category = codes "DNS options";
  calls = setter (codes "SetDialKeepAlive");
}

-- `SetDisableDialKeepAlive`
abbrev pub disable_dial_keep_alive_flag : Flag
disable_dial_keep_alive_flag = record plain_flag {
  name = codes "disable-dial-keep-alive";
  help_text = codes "Disable dialer keep-alive probes";
  category = codes "DNS options";
  calls = turns_on (codes "SetDisableDialKeepAlive");
}

-- `SetStrictErrorsDNS`
abbrev pub strict_errors_dns_flag : Flag
strict_errors_dns_flag = record plain_flag {
  name = codes "strict-errors";
  help_text =
      codes
        "When set, returns errors instead of partial results with the Go built-in DNS resolver.";
  category = codes "DNS options";
  calls = turns_on (codes "SetStrictErrorsDNS");
}

-- `SetBindAddress`
abbrev pub bind_address_flag : Flag
bind_address_flag = record plain_flag {
  name = codes "bind-address";
  usage_text = codes "HOSTNAME|IP";
  help_text = codes "Bind client TCP/IP connections to ADDRESS on the local machine";
  category = codes "Network interface options";
  calls = setter (codes "SetBindAddress");
}

-- `SetInterface`
abbrev pub interface_flag : Flag
interface_flag = record plain_flag {
  name = codes "interface";
  help_text = codes "Use network {INTERFACE} by name or address to connect";
  category = codes "Network interface options";
  completion = interfaces;
  calls = setter (codes "SetInterface");
}

-- `ListInterfaces`
abbrev pub list_interfaces_flag : Flag
list_interfaces_flag = record plain_flag {
  name = codes "list-interfaces";
  help_text = codes "List network interfaces and then exit";
  category = codes "Network interface options";
  options = exits ∷ [];
  value = bool_value;
  calls = runs (codes "listInterfaces");
}

-- `SetVerbose`
abbrev pub verbose_flag : Flag
verbose_flag = record plain_flag {
  name = codes "verbose";
  aliases = codes "v" ∷ [];
  help_text = codes "Display verbose output; can be used multiple times to increase detail";
  value = bool_value;
  calls = by_occurrence (codes "WithTraceLevel") (
      codes "TraceOff"
      ∷ codes "TraceOn"
      ∷ codes "TraceVerbose"
      ∷ codes "TraceVerbose"
      ∷ codes "TraceDebug"
      ∷ []);
}

-- `SetURITemplateVar`
abbrev pub uri_template_var_flag : Flag
uri_template_var_flag = record plain_flag {
  name = codes "param";
  aliases = codes "T" ∷ [];
  help_text =
      codes
        "Specify a value used to fill an RFC 6570 Level 4 URI template and parse the input URL as having template expressions";
  category = codes "Request options";
  options = each_occurrence ∷ [];
  value = var_value;
  file_reference = true;
  calls = setter (codes "SetURITemplateVar");
}

-- `SetURITemplateVars`
abbrev pub uri_template_vars_flag : Flag
uri_template_vars_flag = record plain_flag {
  name = codes "params";
  aliases = codes "t" ∷ [];
  usage_text = codes "expr|@file";
  help_text = codes "Specify a template parameters using abbreviated syntax or from a JSON file";
  options = each_occurrence ∷ allow_file_reference ∷ [];
  value = json_vars_value;
  calls = setter (codes "SetURITemplateVars");
}
