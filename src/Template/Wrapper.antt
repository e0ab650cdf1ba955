-- ===== src/Template/Wrapper.antt =====
-- uritemplates/uritemplate.go: the template that flags set, around the engine. `none` is a nil pointer,
-- on which every call but `Set` panics.
use joe_cli_http.Prelude.{List, ◌++◌, Option, none, some, Bytes, Outcome, ok, err, panics, ◌>>=◌}
use joe_cli_http.Template.Types.{Template, Input, Error}
use joe_cli_http.Template.Parse.{parse, to_string, names}
use joe_cli_http.Template.Expand.{expand, partial_expand}

-- `URITemplate`
abbrev pub UriTemplate : Type 0
UriTemplate = Option Template

abbrev of_pointer {ℓ} : {A : Type ℓ} → UriTemplate → (Template → Outcome Error A) → Outcome Error A
of_pointer none f = panics
of_pointer (some u) f = f u

-- `Parse`
unfoldable pub parse_template : Bytes → Outcome Error UriTemplate
unfolding parse
parse_template text = do u ← parse text; ok (some u)

-- `Expand`; the conversion of `Vars` to a map changes nothing here.
unfoldable pub expand_template : UriTemplate → Input → Outcome Error Bytes
unfolding expand
expand_template u value = of_pointer u (λ t. expand t value)

-- `PartialExpand`
unfoldable pub partial_expand_template : UriTemplate → Input → Outcome Error UriTemplate
unfolding partial_expand
partial_expand_template u value = of_pointer u (λ t. do s ← partial_expand t value; ok (some s))

-- `Names`
unfoldable pub template_names : UriTemplate → Outcome Error (List Bytes)
unfolding names
template_names u = of_pointer u (λ t. ok (names t))

-- `if u.u != nil`
unfoldable pub extend_argument : UriTemplate → Bytes → Bytes
unfolding to_string
extend_argument none arg = arg
extend_argument (some u) arg = to_string u ++ arg

-- The pointer that `Set` leaves, nil after an error, and its result.
unfoldable pub store_template : Outcome Error Template → UriTemplate × Outcome Error UriTemplate
store_template (ok u) = (some u, ok (some u))
store_template (err e) = (none, err e)
store_template panics = (none, panics)

-- `Set`
unfoldable pub set_template : UriTemplate → Bytes → UriTemplate × Outcome Error UriTemplate
unfolding extend_argument store_template parse
set_template u arg = store_template (parse (extend_argument u arg))

-- `String` and `MarshalText`
unfoldable pub template_string : UriTemplate → Outcome Error Bytes
unfolding to_string
template_string u = of_pointer u (λ t. ok (to_string t))

-- `UnmarshalText`, with the template that it leaves
unfoldable pub unmarshal_template : UriTemplate → Bytes → UriTemplate × Outcome Error UriTemplate
unfolding parse_template
unmarshal_template u b = elim (parse_template b) [
  | ok res ↦ (res, ok res)
  | err e ↦ (u, err e)
  | panics ↦ (u, panics)
]
