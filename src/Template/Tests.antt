-- ===== src/Template/Tests.antt =====
-- internal/uritemplates: runs on concrete templates, and the theorems at them.
use joe_cli_http.Prelude.{true, false, [], ◌∷◌, some, ok, panics, ◌>>=◌, ◌≡◌, refl, arith, inl, inr}
use joe_cli_http.Prelude.Text.{codes, contains, split, equal}
use joe_cli_http.Prelude.Assoc.{lookup}
use joe_cli_http.Prelude.Decimal.{show_nat}
use joe_cli_http.Template.Types.{Template, Value, Values, Input}
use joe_cli_http.Template.Escape.{escape}
use joe_cli_http.Template.Escape.RoundTrip.{unescape, unescape-escape}
use joe_cli_http.Template.Parse.{
  is_valid_name, parse_expression, parse_piece, parse_pieces, parse_split, parse, literal,
  plus_part, plain_part, to_string,
}
use joe_cli_http.Template.Parse.Sound.{IsAlternating, parse-IsAlternating}
use joe_cli_http.Template.Parse.Grammar.{
  Expression, query, plus, whole, explode, prefix, show_template, parts_of, IsShown, IsText,
}
use joe_cli_http.Template.Parse.RoundTrip.{parse-show_template}
use joe_cli_http.Template.Expand.{
  clip, expand_name, expand_string, expand_elements, expand_array, expand_value, expand_terms,
  expand_part, expand_parts, convert_to_values, expand, keep_missing, write_missing, partial_parts,
  partial_expand,
}
use joe_cli_http.Template.Expand.Spec.{template_text}
use joe_cli_http.Template.Expand.Refines.{expand-template_text}
use joe_cli_http.Template.Expand.Complete.{IsComplete}
use joe_cli_http.Template.Expand.Partial.{
  IsFilled, IsOpen, partial_expand_complete, partial_expand-loses,
}
use joe_cli_http.Template.Expand.Operators.{single, single_parts, partial_expand-plus}

-- `/s{?q,tags*,id:3}.x`
abbrev search_expression : Expression
search_expression = record {
  operation = some query;
  variable = record { name = codes "q"; modifier = whole };
  variables =
      record { name = codes "tags"; modifier = explode }
      ∷ record { name = codes "id"; modifier = prefix 3 }
      ∷ [];
  rest = codes ".x";
}

abbrev search_template : Template
search_template = record {
  raw = codes "/s{?q,tags*,id:3}.x";
  parts = literal (codes "/s") ∷ parts_of (search_expression ∷ []);
}

abbrev search_values : Values
search_values =
    (codes "q", Value.text (codes "a b"))
    ∷ (codes "tags", Value.texts (codes "x" ∷ codes "y/z" ∷ []))
    ∷ (codes "id", Value.text (codes "12345"))
    ∷ []

search-IsShown : IsShown search_expression
unfolding is_valid_name contains
search-IsShown = record {
  unambiguous = tt;
  variable_valid = record { name_valid = refl; length_fits = tt };
  variables_valid = (
    record { name_valid = refl; length_fits = tt },
    (record { name_valid = refl; length_fits = omega arith }, tt),
  );
  rest_text = (refl, refl);
}

search-IsText : IsText (codes "/s")
unfolding contains
search-IsText = (refl, refl)

search_string : show_template (codes "/s") (search_expression ∷ []) ≡ codes "/s{?q,tags*,id:3}.x"
unfolding show_nat
search_string = refl

parse-show_template_example :
    parse (show_template (codes "/s") (search_expression ∷ []))
    ≡ ok (record {
      raw = show_template (codes "/s") (search_expression ∷ []);
      parts = literal (codes "/s") ∷ parts_of (search_expression ∷ []);
    })
parse-show_template_example =
    parse-show_template (codes "/s") (search_expression ∷ []) search-IsText (search-IsShown, tt)

search_parses : parse (codes "/s{?q,tags*,id:3}.x") ≡ ok search_template
search_parses = rw search_string at shown
  where
    shown :
        parse (show_template (codes "/s") (search_expression ∷ []))
        ≡ ok (record {
          raw = show_template (codes "/s") (search_expression ∷ []);
          parts = literal (codes "/s") ∷ parts_of (search_expression ∷ []);
        })
    shown =
        parse-show_template (codes "/s") (search_expression ∷ []) search-IsText (search-IsShown, tt)

search_expands :
    expand search_template (Input.mapping search_values)
    ≡ ok (codes "/s?q=a%20b&tags=x&tags=y%2Fz&id=123.x")
unfolding expand expand_parts expand_part expand_terms expand_value expand_string expand_array
    expand_elements expand_name clip convert_to_values lookup equal escape
search_expands = refl

expand-template_text_example : expand search_template (Input.mapping search_values) ≡ (
    convert_to_values (Input.mapping search_values) >>= λ values.
    template_text search_template.parts values)
expand-template_text_example = expand-template_text search_template (Input.mapping search_values)

search-IsComplete : IsComplete search_template.parts search_values
unfolding lookup equal
search-IsComplete = (refl, (refl, (refl, tt)))

map_values : (values : Values) → convert_to_values (Input.mapping values) ≡ ok values
unfolding convert_to_values
map_values values = refl

partial_expand_complete_example :
    (t : Template) × (partial_expand search_template (Input.mapping search_values) ≡ ok t)
    × IsFilled (codes "/s?q=a%20b&tags=x&tags=y%2Fz&id=123.x") t
partial_expand_complete_example =
    partial_expand_complete search_template (Input.mapping search_values) search_values
      (codes "/s?q=a%20b&tags=x&tags=y%2Fz&id=123.x") (map_values search_values) search-IsComplete
      search_expands

abbrev one_value : Values
one_value = (codes "q", Value.text (codes "a")) ∷ []

abbrev other_values : Values
other_values =
    (codes "tags", Value.texts (codes "x" ∷ [])) ∷ (codes "id", Value.text (codes "9")) ∷ []

-- The text keeps the first values, and the parts do not.
abbrev search_partial : Template
search_partial = record { raw = codes "/s?q=a{&tags*,id}.x"; parts = search_template.parts }

search_partial_expands :
    partial_expand search_template (Input.mapping one_value) ≡ ok search_partial
unfolding partial_expand partial_parts keep_missing write_missing expand_part expand_terms
    expand_value expand_string expand_name clip convert_to_values lookup equal escape
search_partial_expands = refl

search-IsOpen : IsOpen search_template.parts one_value
unfolding lookup equal
search-IsOpen = (inl refl, (inr (λ e. cc), (inl refl, tt)))

partial_expand-loses_example :
    expand search_partial (Input.mapping other_values)
    ≡ expand search_template (Input.mapping other_values)
partial_expand-loses_example =
    partial_expand-loses search_template search_partial (Input.mapping one_value)
      (Input.mapping other_values) one_value (map_values one_value) search-IsOpen
      search_partial_expands

unescape-escape_example : unescape (escape (codes "a b/%") false) ≡ codes "a b/%"
unescape-escape_example = unescape-escape (codes "a b/%") false (omega arith)

parse-IsAlternating_example :
    (to_string search_template ≡ codes "/s{?q,tags*,id:3}.x") × IsAlternating search_template.parts
parse-IsAlternating_example =
    parse-IsAlternating (codes "/s{?q,tags*,id:3}.x") {t = search_template} search_parses

-- The empty expression panics, and a separator with nothing before it is refused.
parse_braces : parse (codes "a{}") ≡ panics
unfolding parse parse_split parse_pieces parse_piece parse_expression split contains
parse_braces = refl

plus_name : is_valid_name (codes "path") ≡ true
unfolding is_valid_name
plus_name = refl

partial_expand-plus_example :
    (u t : Template) × (parse (show_template [] (single (some plus) (codes "path") ∷ [])) ≡ ok u)
    × (partial_expand u (Input.mapping []) ≡ ok t)
    × (t.parts ≡ single_parts plus_part (codes "path"))
    × (parse (to_string t)
        ≡ ok (record { raw = to_string t; parts = single_parts plain_part (codes "path") }))
partial_expand-plus_example = partial_expand-plus (codes "path") plus_name refl
