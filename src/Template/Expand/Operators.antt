-- ===== src/Template/Expand/Operators.antt =====
-- The operator that `PartialExpand` writes back.
use joe_cli_http.Prelude.{
  true, false, List, [], ◌∷◌, ◌++◌, Option, none, some, Bytes, ok, ◌≡◌, refl, append-nil,
  drop-length,
}
use joe_cli_http.Prelude.Text.{contains, join}
use joe_cli_http.Prelude.Assoc.{lookup}
use joe_cli_http.Prelude.Decimal.{pos}
use joe_cli_http.Template.Types.{Part, Template, Input}
use joe_cli_http.Template.Parse.{is_valid_name, parse, literal, plus_part, plain_part, to_string}
use joe_cli_http.Template.Parse.Grammar.{
  Operator, plus, whole, Expression, show_template, IsPlain, IsShown, IsText, IsUnambiguous,
}
use joe_cli_http.Template.Parse.RoundTrip.{parse-show_template}
use joe_cli_http.Template.Expand.{
  convert_to_values, keep_missing, write_missing, partial_parts, partial_expand,
}
use joe_cli_http.Template.Expand.Refines.{expand_part-text}

-- The template `{name}`, with or without an operator before the name.
abbrev pub single : Option Operator → Bytes → Expression
single o name = record {
  operation = o;
  variable = record { name = name; modifier = whole };
  variables = [];
  rest = [];
}

abbrev pub single_parts : Part → Bytes → List Part
single_parts p name =
    literal []
    ∷ record p { terms = record { name = name; explode = false; truncate = pos 0 } ∷ [] }
    ∷ literal []
    ∷ []

partial_parts-plus :
    (name : Bytes)
    → partial_parts (single_parts plus_part name) [] []
      ≡ ok (b'{' ∷ (name ++ b'}' ∷ []), single_parts plus_part name)
unfolding partial_parts keep_missing write_missing lookup join
partial_parts-plus name = simp (expand_part-text, append-nil, drop-length)

-- `PartialExpand` of `{+name}` with no values keeps the expression's parts, but writes it back as
-- `{name}`: read again, it is an expression that percent-encodes reserved characters.
pub partial_expand-plus :
    (name : Bytes)
    → is_valid_name name ≡ true
    → IsPlain name
    → (u t : Template) × (parse (show_template [] (single (some plus) name ∷ [])) ≡ ok u)
      × (partial_expand u (Input.mapping []) ≡ ok t)
      × (t.parts ≡ single_parts plus_part name)
      × (parse (to_string t)
          ≡ ok (record { raw = to_string t; parts = single_parts plain_part name }))
unfolding partial_expand convert_to_values to_string
partial_expand-plus name h p =
    let valid : IsText [] = unfold contains in (refl, refl) in
    let shown : (o : Option Operator) → IsShown (single o name) = λ o. record {
      unambiguous = elim o as (λ o. IsUnambiguous o name) [ none ↦ p | some o ↦ tt ];
      variable_valid = record { name_valid = h; length_fits = tt };
      variables_valid = tt;
      rest_text = valid;
    } in
    (
      record {
        raw = show_template [] (single (some plus) name ∷ []);
        parts = single_parts plus_part name;
      },
      record { raw = b'{' ∷ (name ++ b'}' ∷ []); parts = single_parts plus_part name },
      parse-show_template [] (single (some plus) name ∷ []) valid (shown (some plus), tt),
      rw (partial_parts-plus name),
      refl,
      rw append-nil at (parse-show_template [] (single none name ∷ []) valid (shown none, tt)),
    )
