-- ===== src/Vars/Update.antt =====
-- uritemplates/vars.go: `Add`, `Update` and `Items`. A map that is stored stays shared with the caller
-- in the source; here each call stores its own.
use joe_cli_http.Prelude.{List, [], ◌∷◌, Option, none, some, Bytes, Outcome, ok, panics}
use joe_cli_http.Vars.{Variable, text, items, dict, Vars, Error, set_string, set_array, set_map}
use joe_cli_http.Vars.Var.{Var}

-- An `any`: one of the values that the setters store, or another by the text that it prints as.
pub data Given : Type 0 where
  known : Variable → Given
  other : Bytes → Given

-- `NewVar`, with `MapVar`, `ArrayVar` and `StringVar`
unfoldable pub new_var : Bytes → Given → Var
new_var name (known v) = record { name = name; value = some v; state = none }
new_var name (other shown) = record { name = name; value = some (text shown); state = none }

-- The `switch` on the type of a value, with what the setter returns.
unfoldable pub set_any : Vars → Bytes → Variable → Vars × Option Error
set_any t name (dict m) = set_map t name m
set_any t name (items a) = (set_array t name a, none)
set_any t name (text s) = (set_string t name s, none)

-- `Add`, which panics on a variable without a value and drops the setters' errors
unfoldable pub add : Vars → List Var → Outcome Error Vars
add t [] = ok t
add t (u ∷ us) = elim u.value [ none ↦ panics | some v ↦ add (set_any t u.name v).0 us ]

-- `Update`, over the entries in the order in which `range` visits them
unfoldable pub update : Vars → Vars → Vars × Option Error
update t [] = (t, none)
update t ((k, v) ∷ u) =
    let r = set_any t k v in
    let rest = update r.0 u in elim r.1 [ none ↦ rest | some e ↦ (r.0, some e) ]

-- `Items`
unfoldable pub vars_items : Vars → List Var
vars_items [] = []
vars_items ((k, v) ∷ t) = new_var k (known v) ∷ vars_items t
