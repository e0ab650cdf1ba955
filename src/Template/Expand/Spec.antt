-- ===== src/Template/Expand/Spec.antt =====
-- What an expansion writes, said with no buffer: RFC 6570, section 3.2.
use joe_cli_http.Prelude.{
  Bool, false, List, [], ◌∷◌, ◌++◌, Option, none, some, ltb, if◌then◌else◌, Bytes, length, Outcome,
  ok, err, ◌>>=◌,
}
use joe_cli_http.Prelude.Text.{codes, join}
use joe_cli_http.Prelude.Assoc.{lookup}
use joe_cli_http.Template.Types.{Term, Part, Error, truncated_map, Atom, Value, Values}
use joe_cli_http.Template.Escape.{escape}
use joe_cli_http.Template.Parse.{is_positive}
use joe_cli_http.Template.Expand.{clip, is_empty, sprint, sprint_all, struct2map}

abbrev pub name_text : Part → Bytes → Bool → Bytes
name_text t name empty = if t.named then name ++ (if empty then t.ifemp else codes "=") else []

abbrev pub string_text : Part → Term → Bytes → Bytes
string_text t term s =
    name_text t term.name (is_empty (clip term.truncate s))
    ++ escape (clip term.truncate s) t.allow_reserved

-- An element repeats the name if the term is exploded.
abbrev pub element_text : Part → Term → Bytes → Bytes
element_text t term s =
    (if term.explode then name_text t term.name (is_empty (clip term.truncate s)) else [])
    ++ escape (clip term.truncate s) t.allow_reserved

abbrev pub element_texts : Part → Term → List Bytes → List Bytes
element_texts t term [] = []
element_texts t term (s ∷ ss) = element_text t term s ∷ element_texts t term ss

-- The separator between elements, and the name before them.
abbrev pub inner_sep : Part → Term → Bytes
inner_sep t term = if term.explode then t.sep else codes ","

abbrev pub outer_name : Part → Term → Bytes
outer_name t term = if term.explode then [] else name_text t term.name false

abbrev pub array_text : Part → Term → List Bytes → Bytes
array_text t term [] = []
array_text t term (s ∷ ss) =
    outer_name t term ++ join (inner_sep t term) (element_texts t term (s ∷ ss))

abbrev pub entry_text : Part → Term → Bytes → Atom → Bytes
entry_text t term k v =
    escape k t.allow_reserved
    ++ ((if term.explode then codes "=" else codes ",") ++ escape (sprint v) t.allow_reserved)

abbrev pub entry_texts : Part → Term → List (Bytes × Atom) → List Bytes
entry_texts t term [] = []
entry_texts t term ((k, v) ∷ m) = entry_text t term k v ∷ entry_texts t term m

abbrev pub map_text : Part → Term → List (Bytes × Atom) → Bytes
map_text t term [] = []
map_text t term (e ∷ m) = outer_name t term ++ join (inner_sep t term) (entry_texts t term (e ∷ m))

abbrev pub dict_text : Part → Term → List (Bytes × Atom) → Outcome Error Bytes
dict_text t term m = if is_positive term.truncate then err truncated_map else ok (map_text t term m)

abbrev pub default_text : Part → Term → Bytes → Option (List (Bytes × Atom)) → Outcome Error Bytes
default_text t term shown (some m) = dict_text t term m
default_text t term shown none = ok (string_text t term shown)

-- The text of a variable that has a value.
abbrev pub value_text : Part → Term → Value → Outcome Error Bytes
value_text t term (Value.text s) = ok (string_text t term s)
value_text t term (Value.items a) = ok (array_text t term (sprint_all a))
value_text t term (Value.texts a) = ok (array_text t term a)
value_text t term (Value.dict m) = dict_text t term m
value_text t term (Value.structure fs) = struct2map (Value.structure fs) >>= default_text t term []
value_text t term (Value.reference shown v) =
    struct2map (Value.reference shown v) >>= default_text t term shown
value_text t term (Value.other shown) = struct2map (Value.other shown) >>= default_text t term shown
value_text t term Value.null = struct2map Value.null >>= default_text t term []

-- The texts of the terms that have a value, in order.
abbrev pub texts : Part → Values → List Term → Outcome Error (List Bytes)
texts t values [] = ok []
texts t values (term ∷ terms) = elim (lookup term.name values) [
  | none ↦ texts t values terms
  | some v ↦ do s ← value_text t term v; ss ← texts t values terms; ok (s ∷ ss)
]

-- The terms that have none, in order.
abbrev pub missing : Values → List Term → List Term
missing values [] = []
missing values (term ∷ terms) = elim (lookup term.name values) [
  | none ↦ term ∷ missing values terms
  | some v ↦ missing values terms
]

-- The texts from the first that is not empty.
abbrev pub skip_empty : List Bytes → List Bytes
skip_empty [] = []
skip_empty ([] ∷ ss) = skip_empty ss
skip_empty ((c ∷ s) ∷ ss) = (c ∷ s) ∷ ss

-- `first` stands before a text that is not empty.
abbrev pub headed : Bytes → Bytes → Bytes
headed first [] = []
headed first (c ∷ s) = first ++ c ∷ s

-- The text of an expression, or of a literal.
abbrev pub part_text : Part → Values → Outcome Error Bytes
part_text t values =
    if ltb 0 (length t.raw)
    then ok t.raw
    else (do ss ← texts t values t.terms; ok (headed t.first (join t.sep (skip_empty ss))))

abbrev pub template_text : List Part → Values → Outcome Error Bytes
template_text [] values = ok []
template_text (p ∷ ps) values = do
  s ← part_text p values
  rest ← template_text ps values
  ok (s ++ rest)
