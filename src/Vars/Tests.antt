-- ===== src/Vars/Tests.antt =====
-- uritemplates/vars.go: runs on concrete arguments, and the theorems at them.
use joe_cli_http.Prelude.{[], ◌∷◌, some, ◌≡◌, ◌≢◌, refl}
use joe_cli_http.Prelude.Text.{codes, cut, equal, has_prefix, ends_in}
use joe_cli_http.Prelude.Assoc.{lookup}
use joe_cli_http.Template.Types.{Atom}
use joe_cli_http.Vars.{text, items, Vars, set, set_cut, set_map, map_over, string_not_map, or_empty}
use joe_cli_http.Vars.Frame.{lookup-set_other}

abbrev some_vars : Vars
some_vars = (codes "tags", items (Atom.text (codes "x") ∷ [])) ∷ (codes "q", text (codes "a")) ∷ []

tags_other : codes "tags" ≢ (cut b'=' (codes "q={k:v}")).0
unfolding cut
tags_other e = cc

lookup-set_other_example :
    lookup (codes "tags") (set (some some_vars) (codes "q={k:v}")).0
    ≡ lookup (codes "tags") (or_empty (some some_vars))
lookup-set_other_example =
    lookup-set_other (some some_vars) (codes "q={k:v}") (codes "tags") tags_other

-- A map is not put over a text.
text_refused : (set (some some_vars) (codes "q={k:v}")).1 ≡ some string_not_map
unfolding set set_cut set_map map_over cut lookup equal has_prefix ends_in
text_refused = refl
