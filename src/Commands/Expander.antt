-- ===== src/Commands/Expander.antt =====
-- uritemplates/command.go: the expander, its options, and the action that prints an expansion. An
-- action of joe-cli is a value of `A`; the context holds one expander.
pub mod Prints
mod Tests
use joe_cli_http.Prelude.{
  Bool, false, List, [], ◌∷◌, ◌++◌, Option, none, some, if◌then◌else◌, Bytes, Outcome, ok, err,
  panics, ◌>>=◌,
}
use joe_cli_http.Prelude.Text.{codes}
use joe_cli_http.Template.Types
use joe_cli_http.Template.Types.{Input}
use joe_cli_http.Template.Wrapper.{
  UriTemplate, expand_template, partial_expand_template, template_string,
}
use joe_cli_http.Vars
use joe_cli_http.Vars.{Vars}
use joe_cli_http.Vars.Update.{add, update}
use joe_cli_http.Vars.Var.{Var}
use joe_cli_http.Client.Location.{values_of}

-- The field `Action`: nil, the pipeline of `WithDefaultAction` (the context value, and the flags and
-- arguments), or another.
pub data Pipeline (A : Type 0) : Type 0 where
  no_action default_action : Pipeline A
  other : A → Pipeline A

-- `Expander`
pub record Expander (A : Type 0) : Type 0 where
  pub action : Pipeline A
  pub vars : Vars
  pub partial : Bool
  pub template : UriTemplate

-- The options: `WithAction`, `WithDefaultAction`, `WithURITemplateVar`, `WithURITemplateVars` and
-- `WithPartialExpand`
pub data ExpanderOption (A : Type 0) : Type 0 where
  with_action : A → ExpanderOption A
  with_default_action : ExpanderOption A
  with_uri_template_var : Var → ExpanderOption A
  with_uri_template_vars : Vars → ExpanderOption A
  with_partial_expand : Bool → ExpanderOption A

-- `fmt.Sprint` of the pointer that `PartialExpand` returns beside an error: its `String` panics, and
-- `sprint_panic` is what `fmt` makes of that.
abbrev pub sprint_template :
    Bytes → Outcome Types.Error UriTemplate → Outcome Types.Error (Bytes × Option Types.Error)
sprint_template sprint_panic (ok u) = do s ← template_string u; ok (s, none)
sprint_template sprint_panic (err e) = ok (sprint_panic, some e)
sprint_template sprint_panic panics = panics

abbrev pub or_empty_text :
    Outcome Types.Error Bytes → Outcome Types.Error (Bytes × Option Types.Error)
or_empty_text (ok s) = ok (s, none)
or_empty_text (err e) = ok ([], some e)
or_empty_text panics = panics

module _ {A : Type 0} where
  -- `AddURITemplateVar`, which never returns an error
  unfoldable pub add_uri_template_var : Expander A → Var → Outcome Vars.Error (Expander A)
  unfolding add
  add_uri_template_var e v = do vars ← add e.vars (v ∷ []); ok (record e { vars = vars })

  -- `UpdateURITemplateVars`
  unfoldable pub update_uri_template_vars : Expander A → Vars → Expander A × Option Vars.Error
  unfolding update
  update_uri_template_vars e v = let (vars, x) = update e.vars v in (record e { vars = vars }, x)

  -- `SetPartialExpand`
  unfoldable pub set_partial_expand : Expander A → Bool → Expander A
  set_partial_expand e b = record e { partial = b }

  -- `SetTemplate`
  unfoldable pub set_expander_template : Expander A → UriTemplate → Expander A
  set_expander_template e v = record e { template = v }

  -- `setAction`
  unfoldable pub set_action : Expander A → A → Expander A
  set_action e v = record e { action = other v }

  -- `option.apply`, which drops the function's error
  unfoldable pub apply_option : Expander A → ExpanderOption A → Outcome Vars.Error (Expander A)
  unfolding add_uri_template_var update_uri_template_vars set_partial_expand set_action
  apply_option e (with_action a) = ok (set_action e a)
  apply_option e with_default_action = ok (record e { action = default_action })
  apply_option e (with_uri_template_var v) = add_uri_template_var e v
  apply_option e (with_uri_template_vars v) = ok (update_uri_template_vars e v).0
  apply_option e (with_partial_expand b) = ok (set_partial_expand e b)

  -- `Apply`
  unfoldable pub apply_options :
      Expander A → List (ExpanderOption A) → Outcome Vars.Error (Expander A)
  unfolding apply_option
  apply_options e [] = ok e
  apply_options e (o ∷ os) = apply_option e o >>= λ e'. apply_options e' os

  abbrev pub zero_expander : Expander A
  zero_expander = record { action = no_action; vars = []; partial = false; template = none }

  -- `impliedOptions`
  abbrev pub implied_options : List (ExpanderOption A)
  implied_options = with_default_action ∷ []

  -- `New`
  unfoldable pub new_expander : List (ExpanderOption A) → Outcome Vars.Error (Expander A)
  unfolding apply_options
  new_expander options = do e ← apply_options zero_expander implied_options; apply_options e options

  -- `Expand`: a text, with an error beside it, or a panic
  unfoldable pub expand_command :
      Bytes → Expander A → Outcome Types.Error (Bytes × Option Types.Error)
  unfolding expand_template partial_expand_template
  expand_command sprint_panic e =
      if e.partial
      then sprint_template sprint_panic
          (partial_expand_template e.template (Input.mapping (values_of e.vars)))
      else or_empty_text (expand_template e.template (Input.mapping (values_of e.vars)))

  -- `expandAndPrint`: what it prints, and its error
  unfoldable pub expand_and_print :
      Bytes → Expander A → Outcome Types.Error (Bytes × Option Types.Error)
  unfolding expand_command
  expand_and_print sprint_panic e = do
    r ← expand_command sprint_panic e
    ok (r.0 ++ codes "\n", r.1)
