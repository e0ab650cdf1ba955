-- ===== src/Server/Echo/Tests.antt =====
-- httpserver/echo_handler.go: the theorem at a request with a bad body and a file that cannot be opened.
use joe_cli_http.Prelude.{true, false, [], ◌∷◌, none, some, Bytes, ◌≡◌, ◌||◌, if◌then◌else◌}
use joe_cli_http.Prelude.Text.{codes}
use joe_cli_http.Server.Writer.{Answer, new_writer, status}
use joe_cli_http.Server.Writer.Counts.{run}
use joe_cli_http.Server.Echo.{
  Library, Request, Output, whole, only_errors, reflect, echo_calls, output,
}
use joe_cli_http.Server.Echo.Answers.{is_none, echo_calls-status}

abbrev some_library : Library
some_library = record {
  detect = λ s. codes "text/plain";
  sha1_hex = λ s. s;
  base64 = λ s. s;
  json_valid = λ s. false;
  unmarshal_error = λ s. some (codes "unexpected end");
  split_host = λ s. none;
}

abbrev some_request : Request
some_request = record {
  method = codes "POST";
  url = codes "/echo";
  remote_addr = codes "[::1]:80";
  tls = none;
  cookies = [];
  content_type = codes "application/json";
  form_error = none;
  reader = (codes "{", none);
  uploads = some (
      (
        codes "f",
        record { filename = codes "a.txt"; open_error = some (codes "gone"); reader = ([], none) }
            ∷ [],
      )
      ∷ []);
}

abbrev encode_kind : Output → Bytes
encode_kind (whole r) = codes "whole"
encode_kind (only_errors es) = codes "errors"

abbrev accepted : Answer
accepted = record { count = 6; failure = none; tee_failure = none }

echo_calls-status_example :
    let resp = reflect some_library true some_request in
    let good = false || is_none resp.errors in
    ((reflect some_library false some_request).errors ≡ resp.errors)
    × (status (run new_writer (echo_calls some_library false some_request encode_kind accepted))
        ≡ (if good then 200 else 400))
    × (output false (reflect some_library false some_request) ≡ (
        if good then whole (reflect some_library false some_request) else only_errors resp.errors))
echo_calls-status_example = echo_calls-status some_library false some_request encode_kind accepted
