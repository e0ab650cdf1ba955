-- ===== src/Client/Auth/Prompted.antt =====
-- What a prompt adds to an authenticator.
use joe_cli_http.Prelude.{
  true, false, [], ◌∷◌, ◌++◌, Option, none, some, if◌then◌else◌, ok, panics, ◌≡◌, refl, ap, arith,
}
use joe_cli_http.Client.Values.{UserInfo}
use joe_cli_http.Client.Auth.{
  Request, basic_credential, mode, prompting, basic_auth, Answers, Authenticated, authenticate,
  prompt, prompt_user, go_on, ask, ask_user, ask_password, authenticate_mode, new_user, is_empty,
  requires_user_info,
}

-- A user with what the terminal answers in place of what is missing.
abbrev pub filled : Answers → UserInfo → UserInfo
filled t u = record u {
  user = if is_empty u.user then t.username.text else u.user;
  password = if u.has_password then u.password else t.password.text;
}

-- What basic authentication is to leave: the user that is given, or else the context's, or else a new
-- one is filled in, in its place, and written to the request.
abbrev pub authenticated_as :
    Answers → Request → Option (Option UserInfo) → Option UserInfo → Authenticated
authenticated_as t r context (some u) = record {
  user = some (filled t u);
  context = context;
  outcome = ok (r ++ basic_credential (filled t u).user (filled t u).password ∷ []);
}
authenticated_as t r none none = record { user = none; context = none; outcome = panics }
authenticated_as t r (some none) none = record {
  user = none;
  context = some none;
  outcome = ok (r ++ basic_credential t.username.text t.password.text ∷ []);
}
authenticated_as t r (some (some u)) none = record {
  user = none;
  context = some (some (filled t u));
  outcome = ok (r ++ basic_credential (filled t u).user (filled t u).password ∷ []);
}

ask-filled :
    (t : Answers) (u : UserInfo)
    → t.username.fails ≡ false
    → t.password.fails ≡ false
    → ask t u ≡ (filled t u, none)
unfolding ask ask_user ask_password
ask-filled t u a b = ground arith

prompt_user-filled :
    (t : Answers) (call : Option UserInfo → Authenticated) (context : Option (Option UserInfo))
    (u : UserInfo)
    → t.username.fails ≡ false
    → t.password.fails ≡ false
    → prompt_user t true call context u ≡ call (some (filled t u))
unfolding prompt_user
prompt_user-filled t call context u a b = ap (go_on call context) (ask-filled t u a b)

-- Where the terminal answers without an error, basic authentication behind a prompt writes the user
-- name and the password of the user that it is given, or else of the context's, or else of a new one,
-- with the terminal's answers in place of what is missing. The user that was given, or else the
-- context's, keeps these answers, and has a password or none as before. With no user and no value of
-- `user` in the context it panics.
pub authenticate_prompted :
    (t : Answers) (context : Option (Option UserInfo)) (ui : Option UserInfo) (r : Request)
    → t.username.fails ≡ false
    → t.password.fails ≡ false
    → authenticate t context (prompting (mode basic_auth)) r ui ≡ authenticated_as t r context ui
unfolding authenticate prompt authenticate_mode requires_user_info
authenticate_prompted t context (some u) r a b =
    prompt_user-filled t (authenticate t context (mode basic_auth) r) context u a b
authenticate_prompted t none none r a b = refl
authenticate_prompted t (some none) none r a b =
    ap (λ (d : Authenticated). record d { user = none })
      (prompt_user-filled t (authenticate t (some none) (mode basic_auth) r) (some none) new_user a
        b)
authenticate_prompted t (some (some u)) none r a b =
    ap (λ (d : Authenticated). record d { user = none; context = some d.user })
      (prompt_user-filled t (authenticate t (some (some u)) (mode basic_auth) r) (some (some u)) u a
        b)
