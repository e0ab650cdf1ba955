-- ===== src/Client/Fetch.antt =====
-- httpclient/client.go and httpclient/middleware.go: the client, the pipeline that prepares a request,
-- and the requests that `Do` makes. The network, the terminal and the files are not the program's:
-- what they answer comes with each location, and `sent` and `printed` keep what reaches them.
pub mod Prepared
pub mod Stops
pub mod Setters
mod Tests
use joe_cli_http.Prelude.{
  ℕ, Bool, not, ◌&&◌, List, [], ◌∷◌, ◌++◌, Option, none, some, leb, if◌then◌else◌, Bytes, length,
  suc, Outcome, ok, err, panics, ◌>>=◌,
}
use joe_cli_http.Prelude.Text.{codes}
use joe_cli_http.Prelude.Assoc.{lookup, insert}
use joe_cli_http.Client.Middleware.{Handler, Middleware, compose_middleware, composite_handle}
use joe_cli_http.Client.Middleware.Chain.{Func, handles}
use joe_cli_http.Client.Values.{UserInfo}
use joe_cli_http.Client.Content
use joe_cli_http.Client.Content.{Content, form_content, content_type, read_content, set_content}
use joe_cli_http.Client.Auth
use joe_cli_http.Client.Auth.{Authenticator, Answers, mode, no_auth, Credential, authenticate}

-- `http.Header` and `url.Values`: the values of each key.
abbrev pub Multi : Type 0
Multi = List (Bytes × List Bytes)

-- `http.Request`, as far as the program changes it. A header's key is in its canonical form; `query`
-- is the URL's, decoded; what the authenticators write is `credentials`.
pub record Request : Type 0 where
  pub method : Bytes
  pub url : Bytes
  pub query : Multi
  pub header : Multi
  pub credentials : List Credential
  pub body : Option Bytes

-- What ends a piece of middleware: an error, or a panic.
pub data Fault : Type 0 where
  failed : Bytes → Fault
  panicked : Fault

-- `Client`, as far as a request depends on it. `terminal` is what the prompts answer, and
-- `context_user` the context's value of `user`, if it has one: a pointer that may be nil.
pub record Client : Type 0 where
  pub request : Request
  pub include_headers : Bool
  pub body_content : Option Content
  pub user_info : Option UserInfo
  pub fail_fast : Bool
  pub auth : Option Authenticator
  pub auth_middleware : List (Authenticator → Authenticator)
  pub body_form : List (Bytes × Bytes)
  pub query_string : Multi
  pub follow : Option Bool
  pub terminal : Answers
  pub context_user : Option (Option UserInfo)
  pub sent : List Request

-- `http.Header.Get`
unfoldable pub get_header : Multi → Bytes → Bytes
get_header h name = elim (lookup name h) [
  | none ↦ []
  | some vs ↦ elim vs [ [] ↦ [] | v ∷ rest ↦ v ]
]

-- The loop of `setupBodyContent`: each field is set to its own name.
unfoldable pub set_fields : Content → List (Bytes × Bytes) → Content × Option Fault
set_fields content [] = (content, none)
set_fields content ((name, value) ∷ ks) = elim (set_content content name name) [
  | ok next ↦ set_fields next ks
  | err e ↦ (content, some (failed name))
  | panics ↦ (content, some panicked)
]

-- `ensureBodyContent`, if there are fields
unfoldable pub ensure_body_content : Option Content → List (Bytes × Bytes) → Option Content
ensure_body_content (some content) form = some content
ensure_body_content none [] = none
ensure_body_content none (k ∷ ks) = some form_content

abbrev pub add_content_type : Multi → Bytes → Multi
add_content_type h [] = h
add_content_type h (c ∷ s) = elim (get_header h (codes "Content-Type")) [
  | [] ↦ insert (codes "Content-Type") ((c ∷ s) ∷ []) h
  | d ∷ t ↦ h
]

-- `setupBodyContent`; the parameter is `json.MarshalIndent`.
unfoldable pub setup_body_content : (Option (List (Bytes × Bytes)) → Bytes) → Handler Client Fault
unfolding ensure_body_content set_fields get_header
setup_body_content marshal c = elim (ensure_body_content c.body_content c.body_form) [
  | none ↦ (c, none)
  | some content ↦
      let (filled, e) = set_fields content c.body_form in
      elim e [
        | some x ↦ (record c { body_content = some filled }, some x)
        | none ↦ (
          record c {
            body_content = some filled;
            request = record (c.request) {
              header = add_content_type c.request.header (content_type filled);
              body = some (read_content marshal filled);
            };
          },
          none,
        )
      ]
]

abbrev pub or_nothing : Option (List Bytes) → List Bytes
or_nothing none = []
or_nothing (some vs) = vs

-- The loop of `setupQueryString`
unfoldable pub add_query : Multi → Multi → Multi
add_query query [] = query
add_query query ((k, v) ∷ rest) = add_query (insert k (or_nothing (lookup k query) ++ v) query) rest

-- `setupQueryString`
unfoldable pub setup_query_string : Handler Client Fault
unfolding add_query
setup_query_string c = (
  record c { request = record (c.request) { query = add_query c.request.query c.query_string } },
  none,
)

abbrev pub apply_auth_middleware :
    List (Authenticator → Authenticator) → Authenticator → Authenticator
apply_auth_middleware [] a = a
apply_auth_middleware (m ∷ ms) a = apply_auth_middleware ms (m a)

-- `Authenticator`: none is the default.
abbrev pub or_no_auth : Option Authenticator → Authenticator
or_no_auth none = mode no_auth
or_no_auth (some a) = a

abbrev pub auth_ending : Outcome Auth.Error (List Credential) → Client → Client × Option Fault
auth_ending (ok credentials) d =
    (record d { request = record (d.request) { credentials = credentials } }, none)
auth_ending (err e) d = (d, some (failed (codes "auth")))
auth_ending panics d = (d, some panicked)

-- `processAuth` and `applyAuth`; a prompt changes the user that it was given, or the context's.
unfoldable pub process_auth : Handler Client Fault
process_auth c =
    let auth = apply_auth_middleware c.auth_middleware (or_no_auth c.auth) in
    let a = authenticate c.terminal c.context_user auth c.request.credentials c.user_info in
    auth_ending a.outcome
      (record c { auth = some (or_no_auth c.auth); user_info = a.user; context_user = a.context })

-- A function on requests, as a function on the client that holds the request.
abbrev pub on_request : Handler Request Fault → Handler Client Fault
on_request f c = let (r, e) = f c.request in (record c { request = r }, e)

-- What `AddMiddleware` has added: the nil interface, or a `MiddlewareFunc`, which may be nil.
-- Middleware of another type, with a `Handle` of its own, is not modelled here.
abbrev pub on_func : Func Request Fault → Func Client Fault
on_func none = none
on_func (some none) = some none
on_func (some (some f)) = some (some (on_request f))

abbrev pub on_requests : List (Func Request Fault) → List (Func Client Fault)
on_requests [] = []
on_requests (f ∷ fs) = on_func f ∷ on_requests fs

-- What `handleDownload` does to the output that it opens.
pub data Event : Type 0 where
  opened headers_copied line_written body_copied closed : Event

pub data Failure : Type 0 where
  no_url no_response request_failed not_opened headers_not_copied not_copied not_closed : Failure
  crashed : Failure

-- How the steps of a download end; true is success.
pub record Download : Type 0 where
  pub opens : Bool
  pub copies_headers : Bool
  pub copies : Bool
  pub closes : Bool

-- A `Location`: what `URL` returns, its middleware if it has any, the status of the network's answer
-- to a request, and the download.
pub record Location : Type 0 where
  pub url : Option (Bytes × Multi)
  pub own : Option (Handler Request Fault)
  pub reply : Request → Option ℕ
  pub download : Download

-- `CopyTo` and `Close` of the output
unfoldable pub copy_body : Download → List Event → List Event × Option Failure
copy_body d before =
    if d.copies
    then if d.closes
      then (before ++ body_copied ∷ closed ∷ [], none)
      else (before ++ body_copied ∷ closed ∷ [], some not_closed)
    else (before ++ body_copied ∷ [], some not_copied)

-- `handleDownload` behind `openDownload`
unfoldable pub copy_all : Bool → Download → List Event × Option Failure
unfolding copy_body
copy_all include_headers d =
    if include_headers
    then if d.copies_headers
      then copy_body d (opened ∷ headers_copied ∷ line_written ∷ [])
      else (opened ∷ headers_copied ∷ line_written ∷ [], some headers_not_copied)
    else copy_body d (opened ∷ [])

-- `handleDownload`, with `Response.Success`
unfoldable pub handle_download : Client → ℕ → Download → List Event × Option Failure
unfolding copy_all
handle_download c status d =
    if c.fail_fast && not (leb status 399)
    then ([], some request_failed)
    else if not d.opens
    then ([], some not_opened)
    else copy_all c.include_headers d

-- `client.Do`, and what follows it
unfoldable pub send : Client → Location → Client × List Event × Option Failure
send c l =
    let d = record c { sent = c.sent ++ c.request ∷ [] } in
    elim (l.reply c.request) [
      | none ↦ (d, [], some no_response)
      | some status ↦ let (events, e) = handle_download c status l.download in (d, events, e)
    ]

-- The error of the middleware is dropped; a panic is not.
unfoldable pub send_prepared :
    Client × Option Fault → Location → Client × List Event × Option Failure
unfolding send
send_prepared (c, none) l = send c l
send_prepared (c, some (failed e)) l = send c l
send_prepared (c, some panicked) l = (c, [], some crashed)

abbrev pub at_url : Client → Bytes → Multi → Client
at_url c u q = record c { request = record (c.request) { url = u; query = q } }

-- `l.(Middleware)`: nil if the location is none.
abbrev pub own_middleware : Option (Handler Request Fault) → Func Client Fault
own_middleware none = none
own_middleware (some f) = some (some (on_request f))

module _ (marshal : Option (List (Bytes × Bytes)) → Bytes)
    (middleware : List (Func Request Fault)) where
  -- The list that `generateMiddleware` composes
  unfoldable pub prepared_by : Location → List (Func Client Fault)
  prepared_by l =
      own_middleware l.own
      ∷ some (some (setup_body_content marshal))
      ∷ some (some setup_query_string)
      ∷ some (some process_auth)
      ∷ on_requests middleware

  -- `generateMiddleware`
  unfoldable pub generate_middleware : Location → Middleware Client Fault
  unfolding prepared_by
  generate_middleware l = composite_handle (compose_middleware (handles panicked (prepared_by l)))

  -- `doOne` behind the call of `URL`
  unfoldable pub do_at :
      Client → Location → Option (Bytes × Multi) → Client × List Event × Option Failure
  unfolding send_prepared generate_middleware
  do_at c l none = (c, [], some no_url)
  do_at c l (some (u, q)) = send_prepared (generate_middleware l (at_url c u q) none) l

  -- `doOne`
  unfoldable pub do_one : Client → Location → Client × List Event × Option Failure
  unfolding do_at
  do_one c l = do_at c l l.url

  -- `Do`, with the number of responses that it returns
  unfoldable pub do_all : Client → List Location → Client × ℕ × Option Failure
  do_all c [] = (c, 0, none)
  do_all c (l ∷ ls) =
      let (d, events, e) = do_one c l in
      let rest = do_all d ls in
      elim e [ some x ↦ (d, 0, some x) | none ↦ (rest.0, suc rest.1, rest.2) ]

-- `defaultCheckRedirect`; true lets the redirect go on.
unfoldable pub default_check_redirect : List Request → Bool
default_check_redirect via = not (leb 10 (length via))

-- `actualCheckRedirect`, but for the trace: what `SetFollowRedirects` has set, or the default.
unfoldable pub actual_check_redirect : Client → List Request → Bool
unfolding default_check_redirect
actual_check_redirect c via = elim c.follow [
  | none ↦ default_check_redirect via
  | some follows ↦ follows
]
