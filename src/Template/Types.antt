-- ===== src/Template/Types.antt =====
-- internal/uritemplates/uritemplates.go: the parsed template, and the values it is expanded with.
use joe_cli_http.Prelude.{ℕ, Bool, false, List, [], Bytes}
use joe_cli_http.Prelude.Decimal.{ℤ, NumError}

-- `templateTerm`
pub record Term : Type 0 where
  pub name : Bytes
  pub explode : Bool
  pub truncate : ℤ

-- `templatePart`
pub record Part : Type 0 where
  pub raw : Bytes
  pub terms : List Term
  pub first : Bytes
  pub sep : Bytes
  pub named : Bool
  pub ifemp : Bytes
  pub allow_reserved : Bool

-- The zero value of `templatePart`.
abbrev pub blank : Part
blank = record {
  raw = [];
  terms = [];
  first = [];
  sep = [];
  named = false;
  ifemp = [];
  allow_reserved = false;
}

-- `URITemplate`
pub record Template : Type 0 where
  pub raw : Bytes
  pub parts : List Part

pub data Error : Type 0 where
  unexpected_brace malformed_template multiple_colons explode_and_prefix : Error
  truncated_map not_values : Error
  bad_number : NumError → Error
  invalid_name : Bytes → Error

-- An `any` inside a slice, a map or a struct: a string, or another value by the text that `%v`
-- prints for it. Nothing else of it is ever observed.
pub data Atom : Type 0 where
  text : Bytes → Atom
  other : Bytes → Atom

-- A struct field: its tag, what `tag.Get("uri")` returns, its name, whether it is exported, and its
-- value. `range` visits a map in any order: `place` is where this field's entry comes among those of
-- the fields before it.
pub record Field {ℓ} (A : Type ℓ) : Type ℓ where
  pub tag : Bytes
  pub uri : Bytes
  pub name : Bytes
  pub exported : Bool
  pub place : ℕ
  pub content : A

-- A variable's value. A map lists its entries in the order in which `range` visits them; a pointer
-- carries the text that `%v` prints for it, and a nil pointer is one to `null`.
pub data Value : Type 0 where
  null : Value
  text : Bytes → Value
  texts : List Bytes → Value
  items : List Atom → Value
  dict : List (Bytes × Atom) → Value
  structure : List (Field Atom) → Value
  reference : Bytes → Value → Value
  other : Bytes → Value

abbrev pub Values : Type 0
Values = List (Bytes × Value)

-- The argument of `Expand`: a map, a struct, a pointer, nil, or a value of no such kind.
pub data Input : Type 0 where
  mapping : Values → Input
  structure : List (Field Value) → Input
  reference : Input → Input
  null : Input
  unusable : Input
