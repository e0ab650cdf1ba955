-- ===== src/Vars/Var.antt =====
-- uritemplates/var.go: a variable that is read from one, two or three command line arguments. A nil
-- value is `none`. The expression `inlineFormat` lists the names that `varTypes` knows.
pub mod Progress
pub mod Forms
mod Tests
use joe_cli_http.Prelude.{
  Bool, true, false, not, ◌&&◌, ◌||◌, List, [], ◌∷◌, Option, none, some, ◌==◌, if◌then◌else◌, Bytes,
}
use joe_cli_http.Prelude.Text.{codes, equal, contains, cut, split}
use joe_cli_http.Template.Types.{Atom}
use joe_cli_http.Vars.{Variable, text, items, dict}

pub data VarType : Type 0 where
  string array map : VarType

-- `varStateEnum`
pub data Phase : Type 0 where
  initial saw_type saw_name end_state : Phase

pub data Error : Type 0 where
  invalid_var : Bytes → Error

-- `varState`
pub record VarState : Type 0 where
  pub name : Bytes
  pub value : Option Variable
  pub my_type : VarType
  pub state : Phase

-- `new(varState)`
unfoldable pub new_state : VarState
new_state = record { name = []; value = none; my_type = string; state = initial }

unfoldable pub var_types : Bytes → Option VarType
unfolding equal
var_types m =
    if equal m (codes "A") || equal m (codes "a") || equal m (codes "array")
    then some array
    else if equal m (codes "S") || equal m (codes "s") || equal m (codes "string")
    then some string
    else if equal m (codes "M") || equal m (codes "m") || equal m (codes "map")
    then some map
    else none

-- An equals sign with something behind it.
unfoldable pub equals_then_more : Bytes → Bool
equals_then_more [] = false
equals_then_more (c ∷ []) = false
equals_then_more (c ∷ d ∷ s) = c == b'=' || equals_then_more (d ∷ s)

-- `^(.+)=(.+)$`; the dot matches no line feed.
unfoldable pub is_pair : Bytes → Bool
unfolding equals_then_more
is_pair [] = false
is_pair (c ∷ s) = equals_then_more s && not (contains (c ∷ s) 10)

abbrev is_some : Option VarType → Bool
is_some none = false
is_some (some t) = true

-- `inlineFormat.MatchString`; no type's name has a comma.
unfoldable pub matches_inline : Bytes → Bool
unfolding var_types is_pair
matches_inline arg =
    let (t, rest, found) = cut b',' arg in found && is_some (var_types t) && is_pair rest

unfoldable pub untyped : List Bytes → List Atom
untyped [] = []
untyped (s ∷ ss) = Atom.text s ∷ untyped ss

abbrev value_of : VarType → Bytes → Variable
value_of map value = let (k, v, found) = cut b'=' value in dict ((k, Atom.text v) ∷ [])
value_of string value = text value
value_of array value = items (untyped (split b',' value))

unfoldable pub set_value : VarState → Bytes → VarState
set_value c value = record c { value = some (value_of c.my_type value) }

-- What `varTypes` returns for a name that it does not know is 0, the first type.
abbrev or_string : Option VarType → VarType
or_string none = string
or_string (some t) = t

-- The part of `parseInlineFormat` behind its test.
unfoldable pub parse_inline : VarState → Bytes → VarState
unfolding set_value var_types
parse_inline c arg =
    let (t, rest, found) = cut b',' arg in
    let (name, value, paired) = cut b'=' rest in
    record (set_value (record c { my_type = or_string (var_types t); name = name }) value) {
      state = end_state;
    }

unfoldable pub parse_nvp : VarState → Bytes → VarState
unfolding set_value
parse_nvp c arg =
    let (name, value, paired) = cut b'=' arg in
    record (set_value (record c { name = name }) value) { state = end_state }

unfoldable pub parse_type : VarState → VarType → VarState
parse_type c t = record c { my_type = t; state = saw_type }

unfoldable pub parse_name : VarState → Bytes → VarState
parse_name c arg = record c { name = arg; state = saw_name }

unfoldable pub parse_value : VarState → Bytes → VarState
unfolding set_value
parse_value c arg = record (set_value c arg) { state = end_state }

-- The `switch` of `next` on the state.
unfoldable pub next_at : Phase → VarState → Bytes → VarState × Option Error
next_at initial c arg =
    if matches_inline arg
    then (parse_inline c arg, none)
    else if contains arg b'='
    then (parse_nvp c arg, none)
    else elim (var_types arg) [
      | some t ↦ (parse_type c t, none)
      | none ↦ (c, some (invalid_var arg))
    ]
next_at end_state c arg = (c, none)
next_at saw_name c arg = (parse_value c arg, none)
next_at saw_type c arg =
    if contains arg b'=' then (parse_nvp c arg, none) else (parse_name c arg, none)

-- `next`, and `Take`
unfoldable pub next : VarState → Bytes → VarState × Option Error
unfolding next_at
next c arg = next_at c.state c arg

-- `Done`, which accepts every state
unfoldable pub done : VarState → Option Error
done c = none

-- `Var`
pub record Var : Type 0 where
  pub name : Bytes
  pub value : Option Variable
  pub state : Option VarState

-- `Set`
unfoldable pub set : Var → Bytes → Var × Option Error
unfolding next new_state
set v arg =
    let r = next (elim v.state [ none ↦ new_state | some c ↦ c ]) arg in
    (record { name = r.0.name; value = r.0.value; state = some r.0 }, r.1)

-- `Reset`
unfoldable pub reset : Var → Var
reset v = record { name = []; value = none; state = none }

-- `Type`
unfoldable pub type_of : Var → VarType
type_of v = elim v.value [
  | some x ↦ elim x [ dict m ↦ map | items a ↦ array | text s ↦ string ]
  | none ↦ string
]

-- `VarType.String`
unfoldable pub type_name : VarType → Bytes
type_name string = codes "string"
type_name array = codes "array"
type_name map = codes "map"
