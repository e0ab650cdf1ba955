-- ===== src/Commands/Expander/Tests.antt =====
-- uritemplates/command.go: the theorem at a concrete expander.
use joe_cli_http.Prelude.{[], ◌∷◌, none, ok, ◌≡◌, refl}
use joe_cli_http.Prelude.Text.{codes, contains}
use joe_cli_http.Template.Parse.{literal, is_valid_name}
use joe_cli_http.Template.Parse.Grammar.{
  Expression, whole, show_template, parts_of, IsShown, IsText,
}
use joe_cli_http.Template.Expand.Spec.{template_text}
use joe_cli_http.Template.Wrapper.{UriTemplate, parse_template}
use joe_cli_http.Vars.{Variable}
use joe_cli_http.Client.Location.{values_of}
use joe_cli_http.Commands.Expander.{
  Expander, zero_expander, set_expander_template, expand_and_print,
}
use joe_cli_http.Commands.Expander.Prints.{line_of, expand_and_print-template_text}

abbrev user_expression : Expression
user_expression = record {
  operation = none;
  variable = record { name = codes "user"; modifier = whole };
  variables = [];
  rest = [];
}

user-IsShown : IsShown user_expression
unfolding is_valid_name contains
user-IsShown = record {
  unambiguous = refl;
  variable_valid = record { name_valid = refl; length_fits = tt };
  variables_valid = tt;
  rest_text = (refl, refl);
}

home-IsText : IsText (codes "/home/")
unfolding contains
home-IsText = (refl, refl)

abbrev user_expander : Expander Unit
user_expander = record zero_expander { vars = (codes "user", Variable.text (codes "ann")) ∷ [] }

expand_and_print-template_text_example :
    (u : UriTemplate) × (parse_template (show_template (codes "/home/") (user_expression ∷ []))
      ≡ ok u)
    × (expand_and_print [] (set_expander_template user_expander u)
        ≡ line_of (
            template_text
              (literal (codes "/home/") ∷ parts_of (user_expression ∷ []))
              (values_of user_expander.vars)))
expand_and_print-template_text_example =
    expand_and_print-template_text [] user_expander (codes "/home/") (user_expression ∷ []) refl
      home-IsText (user-IsShown, tt)
