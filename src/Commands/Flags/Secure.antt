-- ===== src/Commands/Flags/Secure.antt =====
-- tls/tls_command.go: the flags of the TLS configuration.
use joe_cli_http.Prelude.{[], ◌∷◌}
use joe_cli_http.Prelude.Text.{codes}
use joe_cli_http.Commands.Flags.{
  Flag, plain_flag, exits, implied_action, each_occurrence, bool_value, file_value, setter,
  file_setter, open_reader, create_writer, key_pair, runs, versions, tls10, tls11, tls12, tls13,
}

-- `SetCACertFile`
abbrev pub ca_cert_file_flag : Flag
ca_cert_file_flag = record plain_flag {
  name = codes "cacert";
  usage_text = codes "PATH";
  help_text = codes "CA certificate to verify peer against (PEM format)";
  category = codes "TLS options";
  options = each_occurrence ∷ [];
  calls = setter (codes "AddRootCACertFile");
}

-- `SetCACertPath`
abbrev pub ca_cert_path_flag : Flag
ca_cert_path_flag = record plain_flag {
  name = codes "capath";
  usage_text = codes "DIRECTORY";
  help_text = codes "CA directory to verify peer against";
  category = codes "TLS options";
  options = each_occurrence ∷ [];
  calls = setter (codes "AddRootCACertPath");
}

-- `SetClientCertFile`
abbrev pub client_cert_file_flag : Flag
client_cert_file_flag = record plain_flag {
  name = codes "cert";
  aliases = codes "E" ∷ [];
  usage_text = codes "PATH";
  help_text = codes "Client certificate file (PEM format)";
  category = codes "TLS options";
  requires = codes "key" ∷ [];
  calls = key_pair (codes "cert") (codes "key");
}

-- `SetKeyFile`
abbrev pub key_file_flag : Flag
key_file_flag = record plain_flag {
  name = codes "key";
  usage_text = codes "PATH";
  help_text = codes "Private key file (PEM format)";
  category = codes "TLS options";
  value = file_value;
  requires = codes "cert" ∷ [];
}

-- `SetTime`
abbrev pub time_flag : Flag
time_flag = record plain_flag {
  name = codes "time";
  usage_text = codes "PATH";
  help_text =
      codes
        "Specifies a {FILE} whose mtime is used to represent the current time in TLS configuration";
  category = codes "TLS options";
  calls = setter (codes "WithTimeHelper");
}

-- `SetServerName`
abbrev pub server_name_flag : Flag
server_name_flag = record plain_flag {
  name = codes "server-name";
  help_text =
      codes "Used to verify the {HOSTNAME} on certificates unless verification is being skipped";
  category = codes "TLS options";
  calls = setter (codes "WithServerName");
}

-- `SetNextProtos`
abbrev pub next_protos_flag : Flag
next_protos_flag = record plain_flag {
  name = codes "next-protos";
  help_text = codes "List of ALPN supported application level protocols, in order of preference.";
  category = codes "TLS options";
  calls = setter (codes "WithNextProtos");
}

-- `SetRandom`
abbrev pub random_flag : Flag
random_flag = record plain_flag {
  name = codes "random";
  usage_text = codes "PATH";
  help_text = codes "Specifies a {FILE} to use as a source of random data for TLS";
  category = codes "TLS options";
  calls = file_setter open_reader (codes "WithRand");
}

-- `SetTLSv1`
abbrev pub tlsv1_flag : Flag
tlsv1_flag = record plain_flag {
  name = codes "tlsv1";
  help_text = codes "Use TLSv1.0 or higher.  This is implied as this tool doesn't support SSLv3";
  category = codes "TLS options";
  value = bool_value;
  calls = versions tls10 tls13;
}

-- `SetTLSv1_0`
abbrev pub tlsv1_0_flag : Flag
tlsv1_0_flag = record plain_flag {
  name = codes "tlsv1.0";
  help_text = codes "Use TLSv1.0";
  category = codes "TLS options";
  value = bool_value;
  calls = versions tls10 tls10;
}

-- `SetTLSv1_1`
abbrev pub tlsv1_1_flag : Flag
tlsv1_1_flag = record plain_flag {
  name = codes "tlsv1.1";
  help_text = codes "Use TLSv1.1";
  category = codes "TLS options";
  value = bool_value;
  calls = versions tls11 tls11;
}

-- `SetTLSv1_2`
abbrev pub tlsv1_2_flag : Flag
tlsv1_2_flag = record plain_flag {
  name = codes "tlsv1.2";
  help_text = codes "Use TLSv1.2";
  category = codes "TLS options";
  value = bool_value;
  calls = versions tls12 tls12;
}

-- `SetTLSv1_3`
abbrev pub tlsv1_3_flag : Flag
tlsv1_3_flag = record plain_flag {
  name = codes "tlsv1.3";
  help_text = codes "Use TLSv1.3";
  category = codes "TLS options";
  value = bool_value;
  calls = versions tls13 tls13;
}

-- `SetInsecureSkipVerify`
abbrev pub insecure_skip_verify_flag : Flag
insecure_skip_verify_flag = record plain_flag {
  name = codes "insecure-skip-verify";
  aliases = codes "k" ∷ codes "insecure" ∷ [];
  help_text = codes "Whether to verify the server's certificate chain and host name.";
  category = codes "TLS options";
  options = implied_action ∷ [];
  env_vars = codes "INSECURE_SKIP_VERIFY" ∷ [];
  calls = setter (codes "WithInsecureSkipVerify");
}

-- `SetInsecureKeyLogFile`
abbrev pub insecure_key_log_file_flag : Flag
insecure_key_log_file_flag = record plain_flag {
  name = codes "insecure-key-log-file";
  usage_text = codes "PATH";
  help_text = codes "Log TLS keys to {FILE} for debugging (insecure)";
  category = codes "TLS options";
  calls = file_setter create_writer (codes "WithKeyLogWriter");
}

-- `SetCiphers`
abbrev pub ciphers_flag : Flag
ciphers_flag = record plain_flag {
  name = codes "ciphers";
  help_text = codes "List of SSL ciphers to use.  Not applicable to TLS 1.3";
  category = codes "TLS options";
  calls = setter (codes "WithCiphers");
}

-- `SetCurves`
abbrev pub curves_flag : Flag
curves_flag = record plain_flag {
  name = codes "curves";
  help_text = codes "TLS key exchange algorithms to request";
  category = codes "TLS options";
  calls = setter (codes "WithCurves");
}

-- `ListCiphers`
abbrev pub list_ciphers_flag : Flag
list_ciphers_flag = record plain_flag {
  name = codes "list-ciphers";
  help_text = codes "List the cipher suites available and exit";
  category = codes "TLS options";
  options = exits ∷ [];
  value = bool_value;
  calls = runs (codes "doListCiphers");
}

-- `ListCurves`
abbrev pub list_curves_flag : Flag
list_curves_flag = record plain_flag {
  name = codes "list-curves";
  help_text = codes "List the key exchange algorithms and exit";
  category = codes "TLS options";
  options = exits ∷ [];
  value = bool_value;
  calls = runs (codes "doListCurves");
}
