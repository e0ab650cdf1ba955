-- ===== src/Template/Expand.antt =====
-- internal/uritemplates/uritemplates.go: `Expand`, `PartialExpand` and what they call. The buffer is
-- passed along, and each function returns it with what was written.
pub mod Spec
mod Written
pub mod Refines
pub mod Complete
pub mod Partial
pub mod Operators
use joe_cli_http.Prelude.{
  ℕ, zero, suc, Bool, true, false, not, ◌&&◌, ◌||◌, List, [], ◌∷◌, ◌++◌, Option, none, some, leb,
  ltb, ◌==◌, if◌then◌else◌, Bytes, length, take, drop, Outcome, ok, err, panics, ◌>>=◌,
}
use joe_cli_http.Prelude.Text.{codes, contains, trim_space}
use joe_cli_http.Prelude.Assoc.{lookup, insert}
use joe_cli_http.Prelude.Decimal.{ℤ, pos, negsuc}
use joe_cli_http.Template.Types.{
  Term, Part, blank, Template, Error, truncated_map, not_values, Atom, Field, Value, Values, Input,
}
use joe_cli_http.Template.Escape.{escape}
use joe_cli_http.Template.Parse.{is_positive}

-- `len(s) > truncate && truncate > 0`, and the cut.
unfoldable pub clip : ℤ → Bytes → Bytes
clip (pos n) s = if ltb n (length s) && ltb 0 n then take n s else s
clip (negsuc n) s = s

abbrev pub is_empty {ℓ} : {A : Type ℓ} → List A → Bool
is_empty [] = true
is_empty (x ∷ xs) = false

unfoldable pub expand_name : Part → Bytes → Bytes → Bool → Bytes
expand_name t buf name empty =
    if t.named then (buf ++ name) ++ (if empty then t.ifemp else codes "=") else buf

unfoldable pub expand_string : Part → Bytes → Term → Bytes → Bytes
expand_string t buf term s =
    let s' = clip term.truncate s in
    expand_name t buf term.name (is_empty s') ++ escape s' t.allow_reserved

-- The loop of `expandArray`; the flag is `i > 0`.
unfoldable pub expand_elements : Part → Bytes → Term → Bool → List Bytes → Bytes
expand_elements t buf term later [] = buf
expand_elements t buf term later (s ∷ rest) =
    let separated =
      (if term.explode && later then buf ++ t.sep else if later then buf ++ codes "," else buf) in
    let s' = clip term.truncate s in
    let headed =
      (if t.named && term.explode
        then expand_name t separated term.name (is_empty s')
        else separated) in
    expand_elements t (headed ++ escape s' t.allow_reserved) term true rest

unfoldable pub expand_array : Part → Bytes → Term → List Bytes → Bytes
expand_array t buf term [] = buf
expand_array t buf term (s ∷ rest) =
    expand_elements t (if not term.explode then expand_name t buf term.name false else buf) term
      false (s ∷ rest)

-- `fmt.Sprint` of an element.
abbrev pub sprint : Atom → Bytes
sprint (Atom.text s) = s
sprint (Atom.other s) = s

-- The loop of `expandMap`, with the length of the buffer before it.
unfoldable pub expand_entries : Part → ℕ → Bytes → Term → List (Bytes × Atom) → Bytes
expand_entries t first_len buf term [] = buf
expand_entries t first_len buf term ((k, v) ∷ m) =
    let separated =
      (if not (first_len == length buf)
        then if term.explode then buf ++ t.sep else buf ++ codes ","
        else buf) in
    let keyed =
      (separated ++ escape k t.allow_reserved) ++ (if term.explode then codes "=" else codes ",") in
    expand_entries t first_len (keyed ++ escape (sprint v) t.allow_reserved) term m

unfoldable pub expand_map : Part → Bytes → Term → List (Bytes × Atom) → Bytes
expand_map t buf term [] = buf
expand_map t buf term ((k, v) ∷ m) =
    let headed = if not term.explode then expand_name t buf term.name false else buf in
    expand_entries t (length headed) headed term ((k, v) ∷ m)

-- The key of a struct field: its tag, or its name.
field_key {ℓ} : {A : Type ℓ} → Field A → Bytes
field_key f =
    let name = if contains f.tag b':' then f.uri else trim_space f.tag in
    if is_empty name then f.name else name

-- An entry among others, at this place, or behind them all.
put_at {ℓ} : {A : Type ℓ} → ℕ → Bytes → A → List (Bytes × A) → List (Bytes × A)
put_at zero k v m = (k, v) ∷ m
put_at (suc n) k v [] = (k, v) ∷ []
put_at (suc n) k v (e ∷ m) = e ∷ put_at n k v m

-- `m[name] = …`: a new key gets the place that the order of `range` gives it.
add_entry {ℓ} : {A : Type ℓ} → ℕ → Bytes → A → List (Bytes × A) → List (Bytes × A)
unfolding insert lookup put_at
add_entry n k v m = elim (lookup k m) [ some old ↦ insert k v m | none ↦ put_at n k v m ]

-- The loop over the fields; `Interface` panics on a field that is not exported.
fill {ℓ} : {A : Type ℓ} → List (Bytes × A) → List (Field A) → Outcome Error (List (Bytes × A))
unfolding field_key add_entry
fill m [] = ok m
fill m (f ∷ fs) =
    let rest = fill (add_entry f.place (field_key f) f.content m) fs in
    if f.exported then rest else panics

-- `struct2map`: a struct, or a pointer that leads to one; reflection panics on nil.
unfoldable pub struct2map : Value → Outcome Error (Option (List (Bytes × Atom)))
unfolding fill
struct2map (Value.structure fs) = do m ← fill [] fs; ok (some m)
struct2map (Value.reference shown v) = struct2map v
struct2map Value.null = panics
struct2map _ = ok none

input2map : Input → Outcome Error (Option Values)
unfolding fill
input2map (Input.structure fs) = do m ← fill [] fs; ok (some m)
input2map (Input.reference i) = input2map i
input2map Input.null = panics
input2map _ = ok none

or_not_values : Option Values → Outcome Error Values
or_not_values (some m) = ok m
or_not_values none = err not_values

unfoldable pub convert_to_values : Input → Outcome Error Values
unfolding input2map or_not_values
convert_to_values (Input.mapping m) = ok m
convert_to_values (Input.structure fs) = input2map (Input.structure fs) >>= or_not_values
convert_to_values (Input.reference i) = input2map (Input.reference i) >>= or_not_values
convert_to_values Input.null = input2map Input.null >>= or_not_values
convert_to_values Input.unusable = input2map Input.unusable >>= or_not_values

-- A map, unless the term has a prefix modifier.
unfoldable pub expand_dict : Part → Bytes → Term → List (Bytes × Atom) → Outcome Error Bytes
expand_dict t buf term m =
    if is_positive term.truncate then err truncated_map else ok (expand_map t buf term m)

abbrev pub sprint_all : List Atom → List Bytes
sprint_all [] = []
sprint_all (a ∷ as') = sprint a ∷ sprint_all as'

-- The `default` of the type switch, on what `struct2map` found and what `%v` prints.
abbrev pub expand_default :
    Part → Bytes → Term → Bytes → Option (List (Bytes × Atom)) → Outcome Error Bytes
expand_default t buf term shown (some m) = expand_dict t buf term m
expand_default t buf term shown none = ok (expand_string t buf term shown)

-- The type switch in the loop of `expand`.
unfoldable pub expand_value : Part → Bytes → Term → Value → Outcome Error Bytes
expand_value t buf term (Value.text s) = ok (expand_string t buf term s)
expand_value t buf term (Value.items a) = ok (expand_array t buf term (sprint_all a))
expand_value t buf term (Value.texts a) = ok (expand_array t buf term a)
expand_value t buf term (Value.dict m) = expand_dict t buf term m
expand_value t buf term (Value.structure fs) =
    struct2map (Value.structure fs) >>= expand_default t buf term []
expand_value t buf term (Value.reference shown v) =
    struct2map (Value.reference shown v) >>= expand_default t buf term shown
expand_value t buf term (Value.other shown) =
    struct2map (Value.other shown) >>= expand_default t buf term shown
expand_value t buf term Value.null = struct2map Value.null >>= expand_default t buf term []

-- The loop of `expand`; it returns the buffer and the terms that have no value.
unfoldable pub expand_terms :
    Part → Values → ℕ → Bytes → List Term → Outcome Error (Bytes × List Term)
expand_terms t values first_len buf [] = ok (buf, [])
expand_terms t values first_len buf (term ∷ terms) = elim (lookup term.name values) [
  | none ↦ do r ← expand_terms t values first_len buf terms; ok (r.0, term ∷ r.1)
  | some v ↦ do
    buf' ← expand_value t (if not (length buf == first_len) then buf ++ t.sep else buf) term v
    expand_terms t values first_len buf' terms
]

-- `expand`
unfoldable pub expand_part : Part → Bytes → Values → Outcome Error (Bytes × List Term)
expand_part t buf values =
    let headed = buf ++ t.first in
    let written = (do
      r ← expand_terms t values (length headed) headed t.terms
      ok ((if length r.0 == length headed then take (length buf) r.0 else r.0), r.1)) in
    if ltb 0 (length t.raw) then ok (buf ++ t.raw, []) else written

unfoldable pub expand_parts : List Part → Bytes → Values → Outcome Error Bytes
expand_parts [] buf values = ok buf
expand_parts (p ∷ ps) buf values = do r ← expand_part p buf values; expand_parts ps r.0 values

-- `Expand`
unfoldable pub expand : Template → Input → Outcome Error Bytes
expand u value = do values ← convert_to_values value; expand_parts u.parts [] values

unfoldable pub write_missing : Bool → Bytes → List Term → Bytes
write_missing later buf [] = buf
write_missing later buf (m ∷ ms) =
    let named = (if later then buf ++ codes "," else buf) ++ m.name in
    write_missing true (if m.explode then named ++ codes "*" else named) ms

-- One turn of the loop of `PartialExpand`, behind the call of `expand`.
unfoldable pub keep_missing : Part → ℕ → Bytes → List Term → Bytes × Part
keep_missing p from buf [] = (buf, record blank { raw = drop from buf })
keep_missing p from buf (m ∷ ms) =
    let opened =
      (buf ++ codes "{") ++ (if length (m ∷ ms) == length p.terms then p.first else p.sep) in
    (write_missing false opened (m ∷ ms) ++ codes "}", p)

unfoldable pub partial_parts : List Part → Bytes → Values → Outcome Error (Bytes × List Part)
partial_parts [] buf values = ok (buf, [])
partial_parts (p ∷ ps) buf values = do
  r ← expand_part p buf values
  let kept = keep_missing p (length buf) r.0 r.1
  rest ← partial_parts ps kept.0 values
  ok (rest.0, kept.1 ∷ rest.1)

-- `PartialExpand`
unfoldable pub partial_expand : Template → Input → Outcome Error Template
partial_expand u value = do
  values ← convert_to_values value
  r ← partial_parts u.parts [] values
  ok (record { raw = r.0; parts = r.1 })
