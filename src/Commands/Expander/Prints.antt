-- ===== src/Commands/Expander/Prints.antt =====
-- What the expander prints.
use joe_cli_http.Prelude.{
  false, List, ◌∷◌, ◌++◌, Option, none, some, Bytes, Outcome, ok, err, panics, ◌>>=◌, ◌≡◌, refl,
  All,
}
use joe_cli_http.Prelude.Text.{codes}
use joe_cli_http.Template.Types
use joe_cli_http.Template.Types.{Template}
use joe_cli_http.Template.Parse.{literal}
use joe_cli_http.Template.Parse.Grammar.{Expression, show_template, parts_of, IsShown, IsText}
use joe_cli_http.Template.Parse.RoundTrip.{parse-show_template}
use joe_cli_http.Template.Expand.{convert_to_values}
use joe_cli_http.Template.Expand.Spec.{template_text}
use joe_cli_http.Template.Expand.Refines.{expand-template_text}
use joe_cli_http.Template.Wrapper.{UriTemplate, parse_template, expand_template}
use joe_cli_http.Client.Location.{values_of}
use joe_cli_http.Commands.Expander.{
  Expander, set_expander_template, or_empty_text, expand_command, expand_and_print,
}

-- A text on a line of its own, empty beside an error.
abbrev pub line_of : Outcome Types.Error Bytes → Outcome Types.Error (Bytes × Option Types.Error)
line_of (ok s) = ok (s ++ codes "\n", none)
line_of (err e) = ok (codes "\n", some e)
line_of panics = panics

or_empty_text-line_of :
    (o : Outcome Types.Error Bytes)
    → (or_empty_text o >>= λ r. ok (r.0 ++ codes "\n", r.1)) ≡ line_of o
or_empty_text-line_of (ok s) = refl
or_empty_text-line_of (err e) = refl
or_empty_text-line_of panics = refl

-- The template that the text of the grammar is read as
abbrev read_template : Bytes → List Expression → Template
read_template s es = record { raw = show_template s es; parts = literal s ∷ parts_of es }

module _ {A : Type 0} where
  -- An expander that is not partial, and whose template is read from a text of the grammar, prints what
  -- the specification of the engine says of that template at the expander's variables, and a newline;
  -- where that is an error it prints the newline alone, and returns the error.
  pub expand_and_print-template_text :
      (q : Bytes) (e : Expander A) (s : Bytes) (es : List Expression)
      → e.partial ≡ false
      → IsText s
      → All IsShown es
      → (u : UriTemplate) × (parse_template (show_template s es) ≡ ok u)
        × (expand_and_print q (set_expander_template e u)
            ≡ line_of (template_text (literal s ∷ parts_of es) (values_of e.vars)))
  unfolding expand_and_print expand_command expand_template set_expander_template parse_template
      convert_to_values
  expand_and_print-template_text q e s es p h hs =
      let parsed = parse-show_template s es h hs in
      (
        some (read_template s es),
        rw parsed refl,
        rw (p, expand-template_text) (or_empty_text-line_of _),
      )
