-- ===== src/Commands/Flags/Accounts.antt =====
-- httpclient/auth.go: the flags of the authentication.
use joe_cli_http.Prelude.{[], ◌∷◌}
use joe_cli_http.Prelude.Text.{codes}
use joe_cli_http.Commands.Flags.{
  Flag, plain_flag, implied_action, bool_value, provider_value, setter, applies, lists_providers,
}

-- `ListAuthenticators`
abbrev pub list_authenticators_flag : Flag
list_authenticators_flag = record plain_flag {
  help_text = codes "List available authentication mechanisms";
  category = codes "Request options";
  calls = lists_providers (codes "authenticators");
}

-- `SetAuth`
abbrev pub auth_flag : Flag
auth_flag = record plain_flag {
  name = codes "auth";
  usage_text = codes "<provider>[,options...]";
  help_text = codes "Sets the authorization provider for the endpoint";
  category = codes "Request options";
  options = implied_action ∷ [];
  value = provider_value (codes "authenticators");
  calls = setter (codes "SetAuth");
}

-- `SetUser`
abbrev pub user_flag : Flag
user_flag = record plain_flag {
  name = codes "user";
  aliases = codes "u" ∷ [];
  help_text = codes "Set the user and password";
  category = codes "Request options";
  implies = (codes "auth", codes "basic") ∷ [];
  calls = setter (codes "SetUser");
}

-- `SetBasicAuth`
abbrev pub basic_auth_flag : Flag
basic_auth_flag = record plain_flag {
  name = codes "basic";
  help_text = codes "Use Basic auth";
  category = codes "Request options";
  value = bool_value;
  calls = applies (codes "SetAuth") (codes "BasicAuth");
}
