-- ===== src/Client/Fetch/Setters.antt =====
-- httpclient/client.go: the setters that the flags of the client call.
use joe_cli_http.Prelude.{
  Bool, false, List, [], ◌∷◌, ◌++◌, Option, none, some, if◌then◌else◌, Bytes, Outcome, ok, ◌>>=◌,
}
use joe_cli_http.Prelude.Text.{codes}
use joe_cli_http.Prelude.Assoc.{lookup, insert}
use joe_cli_http.Client.Values.{UserInfo}
use joe_cli_http.Client.Content
use joe_cli_http.Client.Content.{Content, ContentType, raw_content, new_content, convert_content}
use joe_cli_http.Client.Auth.{Authenticator}
use joe_cli_http.Client.Fetch.{Client, or_nothing}

-- `SetFollowRedirects`
unfoldable pub set_follow_redirects : Client → Bool → Client
set_follow_redirects c value = record c { follow = if value then none else some false }

-- `SetMethod`, with `strings.ToUpper` as a parameter
unfoldable pub set_method : (Bytes → Bytes) → Client → Bytes → Client
set_method to_upper c s = record c { request = record (c.request) { method = to_upper s } }

-- `SetUserAgent`
unfoldable pub set_user_agent : Client → Bytes → Client
set_user_agent c value = record c {
  request = record (c.request) {
    header = insert (codes "User-Agent") (value ∷ []) c.request.header;
  };
}

-- `SetHeader`; the parameter is `textproto.CanonicalMIMEHeaderKey`.
unfoldable pub set_header : (Bytes → Bytes) → Client → Bytes → Bytes → Client
set_header canonical c name value = record c {
  request = record (c.request) {
    header =
        insert (canonical name)
          (or_nothing (lookup (canonical name) c.request.header) ++ value ∷ []) c.request.header;
  };
}

-- `SetQueryString`
unfoldable pub set_query_string : Client → Bytes → Bytes → Client
set_query_string c name value = record c {
  query_string = insert name (or_nothing (lookup name c.query_string) ++ value ∷ []) c.query_string;
}

-- `SetIncludeResponseHeaders`
unfoldable pub set_include_response_headers : Client → Bool → Client
set_include_response_headers c v = record c { include_headers = v }

-- `SetBody`
unfoldable pub set_body : Client → Bytes → Client
set_body c body = record c { body_content = some (raw_content body) }

-- `setBodyContentHelper`
unfoldable pub set_body_content_helper :
    (Option (List (Bytes × Bytes)) → Bytes) → Client → ContentType → Outcome Content.Error Client
set_body_content_helper marshal c name = do
  content ← elim c.body_content [
    | none ↦ new_content name
    | some from ↦ convert_content marshal from name
  ]
  ok (record c { body_content = some content })

-- `SetFillValue`
unfoldable pub set_fill_value : Client → Bytes → Bytes → Client
set_fill_value c name value = record c { body_form = c.body_form ++ (name, value) ∷ [] }

-- `SetAuth`
unfoldable pub set_auth : Client → Authenticator → Client
set_auth c auth = record c { auth = some auth }

-- `SetUser`
unfoldable pub set_user : Client → UserInfo → Client
set_user c user = record c { user_info = some user }

-- `AddAuthenticatorMiddleware`
unfoldable pub add_auth_middleware : Client → (Authenticator → Authenticator) → Client
add_auth_middleware c fn = record c { auth_middleware = c.auth_middleware ++ fn ∷ [] }

-- `SetFailFast`
unfoldable pub set_fail_fast : Client → Bool → Client
set_fail_fast c v = record c { fail_fast = v }
