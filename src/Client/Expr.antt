-- ===== src/Client/Expr.antt =====
-- httpclient/expr.go, httpclient/expr/pattern.go, httpclient/expr/formatter.go and httpclient/client.go:
-- what the names in a write-out expression stand for. The expressions themselves are those of the
-- joe-cli package, which is the parameter `Expander`.
pub mod Names
pub mod Format
mod Tests
use joe_cli_http.Prelude.{
  ℕ, Bool, ◌&&◌, ◌||◌, List, [], ◌∷◌, ◌++◌, Option, none, some, ◌/◌, leb, if◌then◌else◌, Bytes,
  drop, length,
}
use joe_cli_http.Prelude.Text.{codes, equal, contains, has_prefix, join}
use joe_cli_http.Prelude.Decimal.{ℤ}

-- What a name stands for; `unknown` is nil.
pub data Expansion : Type 0 where
  number http_status : ℕ → Expansion
  signed : ℤ → Expansion
  text http_method : Bytes → Expansion
  unknown : Expansion

abbrev pub Names : Type 0
Names = Bytes → Expansion

-- `expander.Compose`, `expander.Prefix`, `Pattern.Expand`, and the sequence of a color by its name.
pub record Expander : Type 0 where
  pub compose : List Names → Names
  pub prefix : Bytes → Names → Names
  pub expand : Bytes → Names → Bytes
  pub color : Bytes → Bytes

-- `expander.Map`, of texts that are all empty
unfoldable pub empty_map : List Bytes → Names
unfolding equal
empty_map [] k = unknown
empty_map (n ∷ ns) k = if equal k n then text [] else empty_map ns k

unfoldable pub is_upper : ℕ → Bool
is_upper c = leb b'A' c && leb c b'Z'

unfoldable pub is_lower : ℕ → Bool
is_lower c = leb b'a' c && leb c b'z'

-- What stands in front of the first capital letter, and the words that begin with one.
unfoldable pub words_from : Bytes → Bytes × List Bytes
unfolding is_upper
words_from [] = ([], [])
words_from (c ∷ s) =
    let (first, words) = words_from s in
    if is_upper c then ([], (c ∷ first) ∷ words) else (c ∷ first, words)

-- `^[a-z]` takes what stands in front, if it begins with a small letter.
unfoldable pub with_first : Bytes → List Bytes → List Bytes
unfolding is_lower
with_first [] words = words
with_first (c ∷ w) words = if is_lower c then (c ∷ w) ∷ words else words

-- The matches of `(^[a-z]|[A-Z])[^A-Z]*`
unfoldable pub find_words : Bytes → List Bytes
find_words s = with_first (words_from s).0 (words_from s).1

-- `headerCanonicalName`
unfoldable pub header_canonical_name : Bytes → Bytes
header_canonical_name s = if contains s b'-' then s else join (codes "-") (find_words s)

-- `ExpandHeader`; the parameter is `Header.Get`.
unfoldable pub expand_header : (Bytes → Bytes) → Names
unfolding header_canonical_name
expand_header get s = text (get (header_canonical_name s))

-- A response, as far as expressions read it
pub record Response : Type 0 where
  pub status : Bytes
  pub status_code : ℕ
  pub proto : Bytes
  pub proto_major : ℕ
  pub proto_minor : ℕ
  pub content_length : ℤ
  pub header_text : Bytes
  pub get_header : Bytes → Bytes

-- `strings.TrimPrefix`
unfoldable pub trim_prefix : Bytes → Bytes → Bytes
unfolding has_prefix
trim_prefix s p = if has_prefix s p then drop (length p) s else s

-- The function of `ExpandResponse`
unfoldable pub response_names : Response → Names
unfolding equal trim_prefix
response_names r s =
    if equal s (codes "status")
    then text r.status
    else if equal s (codes "statusCode")
    then http_status r.status_code
    else if equal s (codes "http.version")
    then text (trim_prefix r.proto (codes "HTTP/"))
    else if equal s (codes "http.proto")
    then text r.proto
    else if equal s (codes "http.protoMajor")
    then number r.proto_major
    else if equal s (codes "http.protoMinor")
    then number r.proto_minor
    else if equal s (codes "contentLength")
    then signed r.content_length
    else if equal s (codes "header")
    then text r.header_text
    else unknown

-- `ExpandResponse`
unfoldable pub expand_response : Expander → Response → Names
unfolding response_names expand_header
expand_response x r =
    x.compose (response_names r ∷ x.prefix (codes "header") (expand_header r.get_header) ∷ [])

-- A URL, by the texts that `net/url` gives of it. `user` is the user name and the user information,
-- if there is any; `host_port` is `net.JoinHostPort` of the host and the port.
pub record Url : Type 0 where
  pub whole : Bytes
  pub scheme : Bytes
  pub user : Option (Bytes × Bytes)
  pub host : Bytes
  pub port : Bytes
  pub host_port : Bytes
  pub path : Bytes
  pub query : Bytes
  pub fragment : Bytes
  pub request_uri : Bytes

abbrev pub user_name : Option (Bytes × Bytes) → Bytes
user_name none = []
user_name (some (name, all)) = name

abbrev pub user_text : Option (Bytes × Bytes) → Bytes
user_text none = []
user_text (some (name, all)) = all

abbrev pub user_prefix : Option (Bytes × Bytes) → Bytes
user_prefix none = []
user_prefix (some (name, all)) = all ++ codes "@"

-- The case of `authority`
unfoldable pub authority : Url → Bytes
authority u = user_prefix u.user ++ (elim u.port [ [] ↦ u.host | c ∷ s ↦ u.host_port ])

-- `ExpandURL`
unfoldable pub expand_url : Url → Names
unfolding equal authority
expand_url u k =
    if equal k (codes "scheme")
    then text u.scheme
    else if equal k (codes "user")
    then text (user_name u.user)
    else if equal k (codes "userInfo")
    then text (user_text u.user)
    else if equal k (codes "host")
    then text u.host
    else if equal k (codes "path")
    then text u.path
    else if equal k (codes "query")
    then text u.query
    else if equal k (codes "fragment")
    then text u.fragment
    else if equal k (codes "requestURI")
    then text u.request_uri
    else if equal k (codes "authority")
    then text (authority u)
    else unknown

-- The clock, the versions and the random numbers that `ExpandGlobals` reads.
pub record Globals : Type 0 where
  pub go_version : Bytes
  pub wig_version : Bytes
  pub now : Bytes
  pub now_utc : Bytes
  pub random : ℕ
  pub random_float : Bytes

-- `ExpandGlobals`
unfoldable pub expand_globals : Globals → Names
unfolding equal
expand_globals g k =
    if equal k (codes "go.version")
    then text g.go_version
    else if equal k (codes "wig.version")
    then text g.wig_version
    else if equal k (codes "time") || equal k (codes "time.now")
    then text g.now
    else if equal k (codes "time.now.utc")
    then text g.now_utc
    else if equal k (codes "random")
    then number g.random
    else if equal k (codes "random.float")
    then text g.random_float
    else unknown

-- A request, as far as expressions read it
pub record Request : Type 0 where
  pub method : Bytes
  pub proto : Bytes
  pub url : Url
  pub header_text : Bytes
  pub get_header : Bytes → Bytes

-- The function of `expandRequest` for no request
unfoldable pub no_request_names : Names
unfolding equal has_prefix
no_request_names s =
    if equal s (codes "method")
      || (equal s (codes "protocol")
          || (equal s (codes "location") || (equal s (codes "url") || equal s (codes "header"))))
    then text []
    else if has_prefix s (codes "location.")
        || (has_prefix s (codes "url.") || has_prefix s (codes "header."))
    then text []
    else unknown

-- The function of `expandRequest` for a request
unfoldable pub request_names : Request → Names
unfolding equal
request_names r s =
    if equal s (codes "method")
    then http_method r.method
    else if equal s (codes "protocol")
    then text r.proto
    else if equal s (codes "location") || equal s (codes "url")
    then text r.url.whole
    else if equal s (codes "header")
    then text r.header_text
    else unknown

-- `expandRequest`
unfoldable pub expand_request : Expander → Option Request → Names
unfolding no_request_names request_names expand_url expand_header
expand_request x none = no_request_names
expand_request x (some r) = x.compose (
    request_names r
    ∷ x.prefix (codes "location") (expand_url r.url)
    ∷ x.prefix (codes "url") (expand_url r.url)
    ∷ x.prefix (codes "header") (expand_header r.get_header)
    ∷ [])

-- `noResponseExpander`
abbrev pub no_response_names : Names
no_response_names = empty_map (
    codes "status"
    ∷ codes "statusCode"
    ∷ codes "http.version"
    ∷ codes "http.proto"
    ∷ codes "http.protoMajor"
    ∷ codes "http.protoMinor"
    ∷ codes "contentLength"
    ∷ codes "header"
    ∷ [])

-- The expanders for the response, or for none
unfoldable pub response_expanders : Expander → Option Response → List Names
unfolding expand_response
response_expanders x none = no_response_names ∷ x.prefix (codes "header") (λ k. text []) ∷ []
response_expanders x (some r) = expand_response x r ∷ []

-- `exprHandling.eval`: what is printed on the two outputs. `colors` and `unknowns` are
-- `expander.Colors` and `expander.Unknown`.
unfoldable pub eval :
    Expander
    → Names
    → Names
    → Globals
    → Bytes
    → Bytes
    → Option Request
    → Option Request
    → Option Response
    → Bytes × Bytes
unfolding expand_globals expand_request response_expanders
eval x colors unknowns g out_expr err_expr initial req resp =
    let exp = x.compose (
      expand_globals g
      ∷ x.prefix (codes "color") colors
      ∷ x.prefix (codes "redirect") (expand_request x req)
      ∷ x.prefix (codes "request") (expand_request x initial)
      ∷ (response_expanders x resp ++ unknowns ∷ [])) in
    (x.expand out_expr exp, x.expand err_expr exp)
