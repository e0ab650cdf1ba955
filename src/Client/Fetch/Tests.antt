-- ===== src/Client/Fetch/Tests.antt =====
-- httpclient/client.go: runs of a concrete client, and the theorems at them.
use joe_cli_http.Prelude.{
  true, false, List, [], ◌∷◌, ◌++◌, Option, none, some, Bytes, ◌≡◌, ◌≢◌, refl, length,
}
use joe_cli_http.Prelude.Text.{codes}
use joe_cli_http.Prelude.Assoc.{lookup, insert}
use joe_cli_http.Client.Values.{UserInfo}
use joe_cli_http.Client.Middleware.Chain.{Func}
use joe_cli_http.Client.Auth.{
  Answers, mode, prompting, basic_auth, authenticate, authenticate_mode, requires_user_info, prompt,
  prompt_user, ask, ask_user, ask_password,
}
use joe_cli_http.Client.Auth.Prompted.{authenticated_as, authenticate_prompted}
use joe_cli_http.Client.Fetch
use joe_cli_http.Client.Fetch.{
  Client, Fault, failed, panicked, Location, do_one, do_all, at_url, setup_body_content,
  setup_query_string, process_auth,
}
use joe_cli_http.Client.Fetch.Prepared.{prepare, do_one-sent}
use joe_cli_http.Client.Fetch.Stops.{Reached, do_all_stops}

abbrev answers : Answers
answers = record {
  username = record { text = codes "me"; fails = false };
  password = record { text = codes "secret"; fails = false };
}

-- The user of the command line has a name and no password.
abbrev named : Option (Option UserInfo)
named = some (some (record { user = codes "you"; password = []; has_password = false }))

authenticate_prompted_example :
    authenticate answers named (prompting (mode basic_auth)) [] none
    ≡ authenticated_as answers [] named none
authenticate_prompted_example = authenticate_prompted answers named none [] refl refl

-- It keeps the password that was asked for, and has none.
named_asked :
    (authenticate answers named (prompting (mode basic_auth)) [] none).context
    ≡ some (some (record { user = codes "you"; password = codes "secret"; has_password = false }))
unfolding authenticate authenticate_mode requires_user_info prompt prompt_user ask ask_user
    ask_password
named_asked = refl

abbrev no_json : Option (List (Bytes × Bytes)) → Bytes
no_json m = []

abbrev some_client : Client
some_client = record {
  request = record {
    method = codes "GET";
    url = [];
    query = [];
    header = [];
    credentials = [];
    body = none;
  };
  include_headers = false;
  body_content = none;
  user_info = none;
  fail_fast = true;
  auth = some (mode basic_auth);
  auth_middleware = prompting ∷ [];
  body_form = [];
  query_string = (codes "q", codes "1" ∷ []) ∷ [];
  follow = none;
  terminal = answers;
  context_user = some none;
  sent = [];
}

-- Middleware that refuses every request.
abbrev refusing : Func Fetch.Request Fault
refusing = some (some (λ r. (r, some (failed (codes "no")))))

abbrev some_location : Location
some_location = record {
  url = some (codes "http://h/", []);
  own = none;
  reply = λ r. some 200;
  download = record { opens = true; copies_headers = true; copies = true; closes = true };
}

-- The second location has no reply.
abbrev two_locations : List Location
two_locations = some_location ∷ record some_location { reply = λ r. none } ∷ []

not_panicked :
    (prepare no_json (refusing ∷ []) none (at_url some_client (codes "http://h/") [])).1
    ≢ some panicked
unfolding setup_body_content setup_query_string process_auth authenticate authenticate_mode
    requires_user_info prompt prompt_user ask ask_user ask_password lookup insert
not_panicked e = cc

do_one-sent_example :
    let r = prepare no_json (refusing ∷ []) none (at_url some_client (codes "http://h/") []) in
    (do_one no_json (refusing ∷ []) some_client some_location).0.sent ≡ r.0.sent ++ r.0.request ∷ []
do_one-sent_example =
    do_one-sent no_json (refusing ∷ []) some_client some_location (codes "http://h/") [] refl
      not_panicked

do_all_stops_example :
    let r = do_all no_json [] some_client two_locations in Reached r.2 2 r.1 0 (length r.0.sent)
do_all_stops_example = do_all_stops no_json [] some_client two_locations
