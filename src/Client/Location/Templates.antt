-- ===== src/Client/Location/Templates.antt =====
-- The URL of a template, from the resolver through the engine.
use joe_cli_http.Prelude.{
  true, List, [], ◌∷◌, Option, Bytes, Outcome, ok, ◌>>=◌, ◌≡◌, refl, ap, ◌∙◌, append-nil, All,
}
use joe_cli_http.Template.Parse.{literal}
use joe_cli_http.Template.Parse.Grammar.{Expression, show_template, parts_of, IsShown, IsText}
use joe_cli_http.Template.Parse.RoundTrip.{parse-show_template}
use joe_cli_http.Template.Expand.{convert_to_values}
use joe_cli_http.Template.Expand.Spec.{template_text}
use joe_cli_http.Template.Expand.Refines.{expand-template_text}
use joe_cli_http.Vars.{Variable, Vars}
use joe_cli_http.Client.Values.{fixup_address, has_scheme, schemes}
use joe_cli_http.Client.Values.Laws.{fixup_address_absolute}
use joe_cli_http.Client.Location.{
  Urls, AutoLocation, Error, values_of, resolve, resolve_urls, resolve_url, joined_url,
  new_location, template_url, location_url, or_bad_url, or_bad_template,
}

module _ {U : Type 0} (net : Urls U) where
  -- What the specification of the engine says of a template, read as a URL.
  abbrev pub url_of : Bytes → List Expression → Vars → Outcome Error U
  url_of s es vars =
      or_bad_template (template_text (literal s ∷ parts_of es) (values_of vars)) >>= λ expanded.
      or_bad_url (net.parse_url expanded) >>= λ u. ok (net.join_path u)

  template_url-url_of :
      (s : Bytes) (es : List Expression) (vars : Vars)
      → IsText s
      → All IsShown es
      → template_url net (show_template s es) vars ≡ url_of s es vars
  unfolding template_url convert_to_values
  template_url-url_of s es vars h hs = rw (parse-show_template s es h hs, expand-template_text) refl

  resolve_url_absolute :
      (base s : Bytes)
      → net.join [] ≡ []
      → has_scheme schemes s ≡ true
      → resolve_url net base (s ∷ []) ≡ s
  unfolding resolve_url joined_url
  resolve_url_absolute base [] j h = cc
  resolve_url_absolute base (c ∷ s) j h = rw (h, j) (append-nil (c ∷ s))

  -- The first location of a resolver with variables, if it is a template of the grammar that begins
  -- with a scheme, has as its URL what the specification says of that template at those variables.
  pub resolve-url_of :
      (s : Bytes) (es : List Expression) (us : List Bytes) (k : Bytes) (v : Variable) (vars : Vars)
      (base : Option U)
      → net.join [] ≡ []
      → has_scheme schemes (show_template s es) ≡ true
      → IsText s
      → All IsShown es
      → (a : AutoLocation) × (rest : List AutoLocation) × (resolve net
            (record { urls = show_template s es ∷ us; vars = (k, v) ∷ vars; base = base })
          ≡ a ∷ rest)
        × (location_url net a ≡ url_of s es ((k, v) ∷ vars))
  unfolding resolve resolve_urls new_location location_url
  resolve-url_of s es us k v vars base j sch h hs = (
    _,
    _,
    refl,
    ap (λ t. template_url net t ((k, v) ∷ vars))
          (ap fixup_address (resolve_url_absolute [] (show_template s es) j sch)
            ∙ fixup_address_absolute (show_template s es) sch)
        ∙ template_url-url_of s es ((k, v) ∷ vars) h hs,
  )
