-- ===== src/Commands/Flags/Requests.antt =====
-- httpclient/command.go: the flags of a request.
use joe_cli_http.Prelude.{[], ◌∷◌, true}
use joe_cli_http.Prelude.Text.{codes}
use joe_cli_http.Commands.Flags.{
  Flag, plain_flag, no_form, implied_action, each_occurrence, allow_file_reference, optional,
  bool_value, values, setter, applies, sets_header,
}

-- `SetMethod`
abbrev pub method_flag : Flag
method_flag = record plain_flag {
  name = codes "method";
  aliases = codes "X" ∷ codes "request" ∷ [];
  usage_text = codes "NAME";
  help_text = codes "Sets the request method to {NAME}";
  category = codes "Request options";
  options = implied_action ∷ [];
  completion = values (
      codes "GET"
      ∷ codes "HEAD"
      ∷ codes "POST"
      ∷ codes "PUT"
      ∷ codes "PATCH"
      ∷ codes "DELETE"
      ∷ codes "CONNECT"
      ∷ codes "OPTIONS"
      ∷ codes "TRACE"
      ∷ []);
  calls = setter (codes "SetMethod");
}

-- `SetHeader`
abbrev pub header_flag : Flag
header_flag = record plain_flag {
  name = codes "header";
  aliases = codes "H" ∷ [];
  help_text = codes "Sets header to {NAME} and {VALUE}";
  category = codes "Request options";
  options = each_occurrence ∷ [];
  calls = setter (codes "SetHeader");
}

-- `SetBody`
abbrev pub body_flag : Flag
body_flag = record plain_flag {
  name = codes "body";
  aliases = codes "data-raw" ∷ codes "d" ∷ [];
  help_text = codes "Sets the raw content of the body of the request";
  category = codes "Request options";
  options = allow_file_reference ∷ [];
  implies = (codes "method", codes "POST") ∷ (codes "body-content", codes "raw") ∷ [];
  calls = setter (codes "SetBody");
}

-- `SetBodyContent`
abbrev pub body_content_flag : Flag
body_content_flag = record plain_flag {
  name = codes "body-content";
  help_text =
      codes "Sets the type of the body of the request: form, raw, urlencoded, multipart, json";
  category = codes "Request options";
  options = implied_action ∷ [];
  implies = (codes "method", codes "POST") ∷ [];
  calls = setter (codes "setBodyContentHelper");
}

-- `SetFillValue`
abbrev pub fill_value_flag : Flag
fill_value_flag = record plain_flag {
  name = codes "fill";
  aliases = codes "F" ∷ [];
  help_text = codes "Fills a value in the body of the request or the query string";
  category = codes "Request options";
  options = each_occurrence ∷ [];
  implies = (codes "method", codes "POST") ∷ [];
  calls = setter (codes "SetFillValue");
}

-- `SetJSON`
abbrev pub json_flag : Flag
json_flag = record plain_flag {
  name = codes "json";
  help_text = codes "Sets the Accept header to application/json";
  category = codes "Request options";
  value = bool_value;
  calls = sets_header (codes "Accept") (codes "application/json");
}

-- `SetJSONContent`
abbrev pub json_content_flag : Flag
json_content_flag = record plain_flag {
  name = codes "json-content";
  help_text = codes "Sets the Content-Type header to application/json";
  category = codes "Request options";
  value = bool_value;
  calls = applies (codes "SetBodyContent") (codes "ContentTypeJSON");
}

-- `SetFollowRedirects`
abbrev pub follow_redirects_flag : Flag
follow_redirects_flag = record plain_flag {
  name = codes "follow-redirects";
  aliases = codes "L" ∷ codes "location" ∷ [];
  help_text = codes "Follow redirects in the Location header";
  category = codes "Request options";
  options = no_form ∷ [];
  calls = setter (codes "SetFollowRedirects");
}

-- `SetUserAgent`
abbrev pub user_agent_flag : Flag
user_agent_flag = record plain_flag {
  name = codes "user-agent";
  aliases = codes "A" ∷ [];
  help_text = codes "Send the specified user-agent {NAME} to server";
  category = codes "Request options";
  calls = setter (codes "SetUserAgent");
}

-- `SetDialTimeout`
abbrev pub dial_timeout_flag : Flag
dial_timeout_flag = record plain_flag {
  name = codes "dial-timeout";
  help_text = codes "maximum amount of time a dial will wait for a connect to complete";
  category = codes "Request options";
  calls = setter (codes "SetDialTimeout");
}

-- `SetURLValue`
abbrev pub url_value_flag : Flag
url_value_flag = record plain_flag {
  name = codes "url";
  help_text = codes "Set the request URL";
  category = codes "Request options";
  options = each_occurrence ∷ [];
  takes_many = true;
  calls = setter (codes "SetURLValue");
}

-- `SetBaseURL`
abbrev pub base_url_flag : Flag
base_url_flag = record plain_flag {
  name = codes "base";
  aliases = codes "a" ∷ [];
  help_text = codes "Specify a base URL.  Can be used multiple times";
  category = codes "Request options";
  calls = setter (codes "SetBaseURL");
}

-- `SetRequestID`
abbrev pub request_id_flag : Flag
request_id_flag = record plain_flag {
  name = codes "request-id";
  help_text = codes "Sets or generates X-Request-ID header with optional {VALUE}";
  category = codes "Request options";
  options = optional ∷ [];
  calls = setter (codes "SetRequestID");
}

-- `SetQueryString`
abbrev pub query_string_flag : Flag
query_string_flag = record plain_flag {
  name = codes "query";
  aliases = codes "Q" ∷ [];
  help_text = codes "Specify a {NAME} and {VALUE} to add to the query string";
  category = codes "Request options";
  options = each_occurrence ∷ [];
  calls = setter (codes "SetQueryString");
}

-- `SetWriteOut`
abbrev pub write_out_flag : Flag
write_out_flag = record plain_flag {
  name = codes "write-out";
  aliases = codes "w" ∷ [];
  help_text = codes "Evaluate the expression and print out the result";
  category = codes "Request options";
  calls = setter (codes "SetWriteOut");
}

-- `SetWriteErr`
abbrev pub write_err_flag : Flag
write_err_flag = record plain_flag {
  name = codes "write-err";
  aliases = codes "W" ∷ [];
  help_text = codes "Evaluate the expression and print out the result to stderr";
  category = codes "Request options";
  calls = setter (codes "SetWriteErr");
}
