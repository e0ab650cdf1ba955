-- ===== src/Client/Auth.antt =====
-- httpclient/auth.go: the authenticators. A request is its headers, as `Header.Add` and `SetBasicAuth`
-- leave them; the terminal that prompts is not the program's, and gives its answers as arguments.
pub mod Prompted
use joe_cli_http.Prelude.{
  ℕ, zero, suc, Bool, true, false, not, ◌||◌, List, [], ◌∷◌, ◌++◌, Option, none, some, ◌+◌, ◌==◌,
  if◌then◌else◌, Bytes, Outcome, ok, err, panics, ◌>>=◌,
}
use joe_cli_http.Prelude.Text.{codes, equal, join, trim_space}
use joe_cli_http.Prelude.Decimal.{ℤ, pos, negsuc, show_int}
use joe_cli_http.Client.Values.{UserInfo}

-- What an authenticator writes into a request: `SetBasicAuth`, or `Header.Add`.
pub data Credential : Type 0 where
  basic_credential : Bytes → Bytes → Credential
  added : Bytes → Bytes → Credential

abbrev pub Request : Type 0
Request = List Credential

-- `AuthMode`, an `int`
abbrev pub AuthMode : Type 0
AuthMode = ℤ

abbrev pub no_auth : AuthMode
no_auth = pos 0

abbrev pub basic_auth : AuthMode
basic_auth = pos 1

pub data Error : Type 0 where
  unexpected_mode : ℤ → Error
  unknown_mode : Bytes → Error
  no_answer : Error

-- An `Authenticator` of this file.
pub data Authenticator : Type 0 where
  mode : AuthMode → Authenticator
  bearer : List Bytes → Authenticator
  prompting : Authenticator → Authenticator

-- `authStrings`
abbrev pub auth_strings : List Bytes
auth_strings = codes "none" ∷ codes "basic" ∷ []

-- `authMarshalStrings`
abbrev pub auth_marshal_strings : List Bytes
auth_marshal_strings = codes "NO_AUTH" ∷ codes "BASIC" ∷ []

-- `NewBearerTokenAuthenticator`, with `strings.Fields` as a parameter
unfoldable pub new_bearer : (Bytes → List Bytes) → Bytes → List Bytes → Outcome Error Authenticator
unfolding equal
new_bearer fields token [] = ok (bearer (codes "Authentication" ∷ codes "Bearer" ∷ token ∷ []))
new_bearer fields token (h ∷ hs) =
    if equal h [] || equal h (codes "Authentication")
    then ok (bearer (codes "Authentication" ∷ codes "Bearer" ∷ token ∷ []))
    else elim hs [ [] ↦ ok (bearer (fields h ++ token ∷ [])) | x ∷ xs ↦ panics ]

-- `RequiresUserInfo`
unfoldable pub requires_user_info : Authenticator → Bool
requires_user_info (mode (pos n)) = n == 1
requires_user_info (mode (negsuc n)) = false
requires_user_info (bearer hs) = false
requires_user_info (prompting a) = true

-- `AuthMode.Authenticate`; a nil user panics.
unfoldable pub authenticate_mode : AuthMode → Request → Option UserInfo → Outcome Error Request
authenticate_mode (pos n) r u =
    if n == 1
    then elim u [ none ↦ panics | some ui ↦ ok (r ++ basic_credential ui.user ui.password ∷ []) ]
    else if n == 0
    then ok r
    else err (unexpected_mode (pos n))
authenticate_mode (negsuc n) r u = err (unexpected_mode (negsuc n))

-- `bearerTokenAuth.Authenticate`
unfoldable pub authenticate_bearer : List Bytes → Request → Outcome Error Request
unfolding join
authenticate_bearer [] r = panics
authenticate_bearer (header ∷ values) r = ok (r ++ added header (join (codes " ") values) ∷ [])

-- What the terminal answers to a prompt: a text, and whether there is an error beside it.
pub record Reply : Type 0 where
  pub text : Bytes
  pub fails : Bool

pub record Answers : Type 0 where
  pub username : Reply
  pub password : Reply

abbrev pub is_empty : Bytes → Bool
is_empty [] = true
is_empty (c ∷ s) = false

-- The two prompts, each only for what is missing; the text is stored also if there is an error.
unfoldable pub ask_user : Answers → UserInfo → UserInfo × Option Error
ask_user t u =
    if is_empty u.user
    then (record u { user = t.username.text }, if t.username.fails then some no_answer else none)
    else (u, none)

unfoldable pub ask_password : Answers → UserInfo → UserInfo × Option Error
ask_password t u =
    if not u.has_password
    then (
      record u { password = t.password.text },
      if t.password.fails then some no_answer else none,
    )
    else (u, none)

unfoldable pub ask : Answers → UserInfo → UserInfo × Option Error
unfolding ask_user ask_password
ask t u = let (v, e) = ask_user t u in elim e [ some x ↦ (v, some x) | none ↦ ask_password t v ]

abbrev pub new_user : UserInfo
new_user = record { user = []; password = []; has_password = false }

-- What an authenticator leaves: the user that it was given a pointer to, the context's value of
-- `user`, which is a pointer that may be nil, and the request or the error.
pub record Authenticated : Type 0 where
  pub user : Option UserInfo
  pub context : Option (Option UserInfo)
  pub outcome : Outcome Error Request

-- The error of a prompt, or the last call of `promptForCredentials.Authenticate`
abbrev pub go_on :
    (Option UserInfo → Authenticated)
    → Option (Option UserInfo)
    → UserInfo × Option Error
    → Authenticated
go_on call context (v, some x) = record { user = some v; context = context; outcome = err x }
go_on call context (v, none) = call (some v)

-- `promptForCredentials.Authenticate` with a user
unfoldable pub prompt_user :
    Answers
    → Bool
    → (Option UserInfo → Authenticated)
    → Option (Option UserInfo)
    → UserInfo
    → Authenticated
unfolding ask
prompt_user t required call context u = go_on call context (if required then ask t u else (u, none))

-- The same, with the user that is given, the context's, or a new one, which nobody keeps. The type
-- assertion on the context's value panics if there is none.
unfoldable pub prompt :
    Answers
    → Bool
    → (Option UserInfo → Authenticated)
    → Option (Option UserInfo)
    → Option UserInfo
    → Authenticated
unfolding prompt_user
prompt t required call context (some u) = prompt_user t required call context u
prompt t required call none none = record { user = none; context = none; outcome = panics }
prompt t required call (some none) none =
    if required
    then record (prompt_user t required call (some none) new_user) { user = none }
    else call none
prompt t required call (some (some u)) none =
    let a = prompt_user t required call (some (some u)) u in
    record a { user = none; context = some a.user }

-- `Authenticate`
unfoldable pub authenticate :
    Answers → Option (Option UserInfo) → Authenticator → Request → Option UserInfo → Authenticated
unfolding authenticate_mode authenticate_bearer prompt requires_user_info
authenticate t context (mode m) r ui = record {
  user = ui;
  context = context;
  outcome = authenticate_mode m r ui;
}
authenticate t context (bearer hs) r ui = record {
  user = ui;
  context = context;
  outcome = authenticate_bearer hs r;
}
authenticate t context (prompting a) r ui =
    prompt t (requires_user_info a) (authenticate t context a r) context ui

-- `AuthMode.String`
unfoldable pub show_mode : AuthMode → Bytes
show_mode (pos zero) = codes "none"
show_mode (pos (suc zero)) = codes "basic"
show_mode _ = []

-- `MarshalText`
unfoldable pub marshal_mode : AuthMode → Bytes
unfolding show_int
marshal_mode (pos zero) = codes "NO_AUTH"
marshal_mode (pos (suc zero)) = codes "BASIC"
marshal_mode m = show_int m

-- The loop of `authModeFromName`
unfoldable pub find_mode : List Bytes → ℕ → Bytes → Option ℕ
unfolding equal
find_mode [] i name = none
find_mode (a ∷ as') i name =
    let rest = find_mode as' (i + 1) name in if equal name a then some i else rest

-- `authModeFromName`
unfoldable pub auth_mode_from_name : List Bytes → Bytes → Outcome Error AuthMode
unfolding find_mode trim_space
auth_mode_from_name items s = elim (find_mode items 0 (trim_space s)) [
  | some i ↦ ok (pos i)
  | none ↦ err (unknown_mode s)
]

-- `AuthMode.Set`
unfoldable pub set_mode : Bytes → Outcome Error AuthMode
unfolding auth_mode_from_name
set_mode arg = auth_mode_from_name auth_strings arg

-- `UnmarshalText`
unfoldable pub unmarshal_mode : Bytes → Outcome Error AuthMode
unfolding auth_mode_from_name
unmarshal_mode b = auth_mode_from_name auth_marshal_strings b
