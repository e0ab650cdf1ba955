-- ===== src/Vars.antt =====
-- uritemplates/vars.go: the variables of a template, as command line arguments set them. A nil map is
-- `none`; the map is changed in place, so the map is what a call leaves, and an error is beside it.
pub mod Frame
pub mod Append
pub mod Var
pub mod Update
mod Tests
use joe_cli_http.Prelude.{
  Bool, not, List, [], ◌∷◌, ◌++◌, Option, none, some, if◌then◌else◌, Bytes, ℕ,
}
use joe_cli_http.Prelude.Text.{codes, has_prefix, ends_in, drop_last, cut, split, trim_space}
use joe_cli_http.Prelude.Assoc.{lookup, insert, copy}
use joe_cli_http.Template.Types.{Atom}
use joe_cli_http.Template.Expand.{sprint}

-- The values that the setters store. An element is an `any`.
pub data Variable : Type 0 where
  text : Bytes → Variable
  items : List Atom → Variable
  dict : List (Bytes × Atom) → Variable

abbrev pub Vars : Type 0
Vars = List (Bytes × Variable)

pub data Error : Type 0 where
  array_not_map string_not_map open_array open_map : Error

-- `setStringHelper`, which never fails
unfoldable pub set_string : Vars → Bytes → Bytes → Vars
set_string t name value = insert name (text value) t

-- The loop of `setArrayHelper` over a map: each element becomes a key.
unfoldable pub add_keys : List (Bytes × Atom) → List Atom → List (Bytes × Atom)
add_keys c [] = c
add_keys c (v ∷ vs) = add_keys (insert (sprint v) (Atom.text []) c) vs

-- What `setArrayHelper` stores over a value.
unfoldable pub array_over : Option Variable → List Atom → Variable
unfolding add_keys
array_over none values = items values
array_over (some (items c)) values = items (c ++ values)
array_over (some (text c)) values = items (Atom.text c ∷ values)
array_over (some (dict c)) values = dict (add_keys c values)

-- `setArrayHelper`, which never fails
unfoldable pub set_array : Vars → Bytes → List Atom → Vars
set_array t name values = insert name (array_over (lookup name t) values) t

-- What `setMapHelper` does over a value.
unfoldable pub map_over : Vars → Bytes → List (Bytes × Atom) → Option Variable → Vars × Option Error
map_over t name values none = (insert name (dict values) t, none)
map_over t name values (some (items c)) = (t, some array_not_map)
map_over t name values (some (text c)) = (t, some string_not_map)
map_over t name values (some (dict c)) = (insert name (dict (copy c values)) t, none)

-- `setMapHelper`
unfoldable pub set_map : Vars → Bytes → List (Bytes × Atom) → Vars × Option Error
unfolding map_over
set_map t name values = map_over t name values (lookup name t)

-- `trimAffix`, for affixes of one byte.
unfoldable pub trim_affix : Bytes → ℕ → ℕ → Bytes
trim_affix [] l r = []
trim_affix (c ∷ s) l r =
    let rest = if has_prefix (c ∷ s) (l ∷ []) then s else c ∷ s in
    if ends_in rest r then drop_last rest else rest

-- The loop over the tokens of an array.
unfoldable pub array_items : List Bytes → List Atom
array_items [] = []
array_items (t ∷ ts) = Atom.text (trim_space t) ∷ array_items ts

-- The loop over the tokens of a map.
unfoldable pub map_items : List (Bytes × Atom) → List Bytes → List (Bytes × Atom)
map_items m [] = m
map_items m (t ∷ ts) = let (k, v, found) = cut b':' t in map_items (insert k (Atom.text v) m) ts

abbrev pub or_empty : Option Vars → Vars
or_empty none = []
or_empty (some t) = t

-- `Set`, with the argument cut at the equals sign.
unfoldable pub set_cut : Vars → Bytes × Bytes × Bool → Vars × Option Error
set_cut p (k, value, found) =
    if not found
    then (set_string p k k, none)
    else if has_prefix value (codes "[")
    then if not (ends_in value b']')
      then (p, some open_array)
      else (set_array p k (array_items (split b',' (trim_affix value b'[' b']'))), none)
    else if has_prefix value (codes "{")
    then if not (ends_in value b'}')
      then (p, some open_map)
      else set_map p k (map_items [] (split b',' (trim_affix value b'{' b'}')))
    else (set_string p k value, none)

-- `Set`
unfoldable pub set : Option Vars → Bytes → Vars × Option Error
set t arg = set_cut (or_empty t) (cut b'=' arg)
