-- ===== src/Vars/Var/Tests.antt =====
-- uritemplates/var.go: runs on concrete arguments, and the theorems at them.
use joe_cli_http.Prelude.{List, [], ◌∷◌, ◌++◌, none, false, Bytes, ◌≡◌, ◌≢◌, refl, arith}
use joe_cli_http.Prelude.Text.{codes, cut, contains}
use joe_cli_http.Vars.Var.{
  new_state, array, end_state, next, next_at, matches_inline, parse_type, parse_name, parse_value,
  set_value,
}
use joe_cli_http.Vars.Var.Progress.{take_all, take_all_ends}
use joe_cli_http.Vars.Var.Forms.{lower, spell, complete, take_all_forms}

tags_no_equals : contains (codes "tags") b'=' ≡ false
unfolding contains
tags_no_equals = refl

tags_line : contains (codes "tags") 10 ≡ false
unfolding contains
tags_line = refl

xy_line : contains (codes "x,y") 10 ≡ false
unfolding contains
xy_line = refl

take_all_forms_example :
    (take_all new_state ((spell array lower ++ b',' ∷ (codes "tags" ++ b'=' ∷ codes "x,y")) ∷ [])
      ≡ (complete array (codes "tags") (codes "x,y"), none))
    × (take_all new_state (spell array lower ∷ (codes "tags" ++ b'=' ∷ codes "x,y") ∷ [])
        ≡ (complete array (codes "tags") (codes "x,y"), none))
    × (take_all new_state (spell array lower ∷ codes "tags" ∷ codes "x,y" ∷ [])
        ≡ (complete array (codes "tags") (codes "x,y"), none))
take_all_forms_example =
    take_all_forms array lower (codes "tags") (codes "x,y") (tags_line, λ e. cc) (xy_line, λ e. cc)
      tags_no_equals

abbrev three_arguments : List Bytes
three_arguments = codes "a" ∷ codes "tags" ∷ codes "x,y" ∷ []

three_accepted : (take_all new_state three_arguments).1 ≡ none
unfolding take_all new_state next next_at matches_inline parse_type parse_name parse_value set_value
    cut contains
three_accepted = refl

take_all_ends_example :
    ((take_all new_state three_arguments).0.state ≡ end_state)
    × ((take_all new_state three_arguments).0.value ≢ none)
take_all_ends_example = take_all_ends three_arguments (omega arith) three_accepted
