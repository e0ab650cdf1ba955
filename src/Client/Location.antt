-- ===== src/Client/Location.antt =====
-- httpclient/resolver.go: the locations that a client requests. A parsed URL is a value of `U`; what
-- `net/url` and `path` do is in `Urls`.
pub mod Templates
use joe_cli_http.Prelude.{
  List, [], ◌∷◌, ◌++◌, Option, none, some, if◌then◌else◌, Bytes, Outcome, ok, err, panics, ◌>>=◌,
}
use joe_cli_http.Prelude.Text.{codes}
use joe_cli_http.Template.Types
use joe_cli_http.Template.Types.{Value, Values, Input}
use joe_cli_http.Template.Parse.{parse}
use joe_cli_http.Template.Expand.{expand}
use joe_cli_http.Vars
use joe_cli_http.Vars.{Variable, text, items, dict, Vars}
use joe_cli_http.Vars.Update.{Given, new_var, add}
use joe_cli_http.Client.Values.{fixup_address, has_scheme, schemes}

-- `url.Parse`, `ResolveReference` and `JoinPath` with no elements, and `path.Join`
pub record Urls (U : Type 0) : Type 0 where
  pub parse_url : Bytes → Option U
  pub resolve_reference : U → U → U
  pub join_path : U → U
  pub join : List Bytes → Bytes

-- `defaultLocationResolver`
pub record Resolver (U : Type 0) : Type 0 where
  pub urls : List Bytes
  pub vars : Vars
  pub base : Option U

-- `autoLocation`: the variables of a template, or a URL that is none.
pub record AutoLocation : Type 0 where
  pub url : Bytes
  pub vars : Option Vars

pub data Error : Type 0 where
  bad_template : Types.Error → Error
  bad_url : Error

-- `NewDefaultLocationResolver`
unfoldable pub new_resolver : (U : Type 0) → Resolver U
new_resolver U = record { urls = []; vars = []; base = none }

-- `NewLocation`
unfoldable pub new_location : Bytes → Option Vars → AutoLocation
new_location url vars = record { url = fixup_address url; vars = vars }

unfoldable pub value_of : Variable → Value
value_of (text s) = Value.text s
value_of (items a) = Value.items a
value_of (dict m) = Value.dict m

-- The variables as the map that the engine is given
unfoldable pub values_of : Vars → Values
values_of [] = []
values_of ((k, v) ∷ t) = (k, value_of v) ∷ values_of t

-- The variables, if there are any: `isURITemplates`
abbrev pub template_vars : Vars → Option Vars
template_vars [] = none
template_vars (v ∷ t) = some (v ∷ t)

abbrev pub or_bad_template : {A : Type 0} → Outcome Types.Error A → Outcome Error A
or_bad_template (ok a) = ok a
or_bad_template (err e) = err (bad_template e)
or_bad_template panics = panics

module _ {U : Type 0} where
  -- `Add`
  unfoldable pub add_location : Resolver U → Bytes → Resolver U
  add_location d location = record d { urls = d.urls ++ location ∷ [] }

  -- `AddVar`
  unfoldable pub add_var : Resolver U → Bytes → Given → Outcome Vars.Error (Resolver U)
  add_var d name value = do
    vars ← add d.vars (new_var name value ∷ [])
    ok (record d { vars = vars })

  -- `SetBaseURL`
  unfoldable pub set_base_url : Urls U → Resolver U → U → Resolver U
  set_base_url net d base = elim d.base [
    | none ↦ record d { base = some base }
    | some old ↦ record d { base = some (net.resolve_reference old base) }
  ]

  -- The end of `resolveURL`
  unfoldable pub joined_url : Urls U → Bytes → List Bytes → Bytes
  joined_url net [] prefix = net.join prefix
  joined_url net (c ∷ base) [] = (c ∷ base) ++ net.join []
  joined_url net (c ∷ base) (p ∷ ps) = (c ∷ base) ++ (codes "/" ++ net.join (p ∷ ps))

  -- `resolveURL`: an absolute first element takes the place of the base.
  unfoldable pub resolve_url : Urls U → Bytes → List Bytes → Bytes
  unfolding joined_url has_scheme
  resolve_url net base [] = joined_url net base []
  resolve_url net base (p ∷ ps) =
      if has_scheme schemes p then joined_url net p ps else joined_url net base (p ∷ ps)

  -- The loop of `Resolve` behind its first round: the elements from the second up to each one.
  unfoldable pub resolve_later :
      Urls U → Option Vars → Bytes → List Bytes → List Bytes → List AutoLocation
  unfolding resolve_url new_location
  resolve_later net vars base before [] = []
  resolve_later net vars base before (u ∷ us) =
      new_location (resolve_url net base (before ++ u ∷ [])) vars
      ∷ resolve_later net vars base (before ++ u ∷ []) us

  unfoldable pub resolve_urls : Urls U → Option Vars → List Bytes → List AutoLocation
  unfolding resolve_later resolve_url new_location
  resolve_urls net vars [] = []
  resolve_urls net vars (u ∷ us) =
      new_location (resolve_url net [] (u ∷ [])) vars
      ∷ resolve_later net vars (fixup_address u) [] us

  -- `Resolve`
  unfoldable pub resolve : Urls U → Resolver U → List AutoLocation
  unfolding resolve_urls
  resolve net d = resolve_urls net (template_vars d.vars) d.urls

  abbrev pub or_bad_url : Option U → Outcome Error U
  or_bad_url none = err bad_url
  or_bad_url (some u) = ok u

  -- `templateLocation.URL`
  unfoldable pub template_url : Urls U → Bytes → Vars → Outcome Error U
  template_url net template vars = do
    tt' ← or_bad_template (parse template)
    expanded ← or_bad_template (expand tt' (Input.mapping (values_of vars)))
    u ← or_bad_url (net.parse_url expanded)
    ok (net.join_path u)

  -- `autoLocation.URL`
  unfoldable pub location_url : Urls U → AutoLocation → Outcome Error U
  unfolding template_url
  location_url net a = elim a.vars [
    | none ↦ or_bad_url (net.parse_url a.url)
    | some vars ↦ template_url net a.url vars
  ]
