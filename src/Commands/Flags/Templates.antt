-- ===== src/Commands/Flags/Templates.antt =====
-- uritemplates/command.go: the flags of the expander, and its argument.
use joe_cli_http.Prelude.{[], ◌∷◌, true}
use joe_cli_http.Prelude.Text.{codes}
use joe_cli_http.Commands.Flags.{
  Flag, plain_flag, each_occurrence, allow_file_reference, bool_value, var_value, json_vars_value,
  template_value, setter,
}

-- `SetTemplate`
abbrev pub template_arg : Flag
template_arg = record plain_flag {
  name = codes "template";
  value = template_value;
  takes_many = true;
  calls = setter (codes "SetTemplate");
}

-- `SetURITemplateVar`
abbrev pub expander_var_flag : Flag
expander_var_flag = record plain_flag {
  name = codes "param";
  aliases = codes "T" ∷ [];
  help_text = codes "Specify a value used to fill the template";
  options = each_occurrence ∷ [];
  value = var_value;
  calls = setter (codes "AddURITemplateVar");
}

-- `SetURITemplateVars`
abbrev pub expander_vars_flag : Flag
expander_vars_flag = record plain_flag {
  name = codes "params";
  aliases = codes "t" ∷ [];
  usage_text = codes "expr|@file";
  help_text = codes "Specify a template parameters using abbreviated syntax or from a JSON file";
  options = each_occurrence ∷ allow_file_reference ∷ [];
  value = json_vars_value;
  calls = setter (codes "UpdateURITemplateVars");
}

-- `SetPartialExpand`
abbrev pub partial_expand_flag : Flag
partial_expand_flag = record plain_flag {
  name = codes "partial";
  aliases = codes "P" ∷ [];
  help_text = codes "When set, partially expand the template by preserving missing variables";
  value = bool_value;
  calls = setter (codes "SetPartialExpand");
}
