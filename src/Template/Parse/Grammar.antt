-- ===== src/Template/Parse/Grammar.antt =====
-- The grammar of RFC 6570: templates as the RFC writes them, and the parts that they stand for.
use joe_cli_http.Prelude.{
  ℕ, true, false, List, [], ◌∷◌, ◌++◌, Option, none, some, ◌==◌, Bytes, ◌≡◌, ◌≤◌, ◌<◌, All,
}
use joe_cli_http.Prelude.Text.{codes, contains}
use joe_cli_http.Prelude.Decimal.{pos, show_nat, max_int64}
use joe_cli_http.Template.Types.{Term, Part}
use joe_cli_http.Template.Parse.{
  is_valid_name, literal, plain_part, plus_part, dot_part, slash_part, semicolon_part, query_part,
  ampersand_part, hash_part,
}

-- The modifiers of RFC 6570: a prefix has a length from 1 up to what an `int` holds.
pub data Modifier : Type 0 where
  whole explode : Modifier
  prefix : ℕ → Modifier

pub data Operator : Type 0 where
  plus dot slash semicolon query ampersand hash : Operator

pub record Variable : Type 0 where
  pub name : Bytes
  pub modifier : Modifier

-- An expression, and the literal text behind it.
pub record Expression : Type 0 where
  pub operation : Option Operator
  pub variable : Variable
  pub variables : List Variable
  pub rest : Bytes

abbrev pub show_modifier : Modifier → Bytes
show_modifier whole = []
show_modifier explode = b'*' ∷ []
show_modifier (prefix n) = b':' ∷ show_nat n

abbrev pub show_variable : Variable → Bytes
show_variable v = v.name ++ show_modifier v.modifier

abbrev pub show_variables : Variable → List Variable → Bytes
show_variables v [] = show_variable v
show_variables v (w ∷ ws) = show_variable v ++ b',' ∷ show_variables w ws

abbrev pub show_operator : Option Operator → Bytes
show_operator none = []
show_operator (some plus) = codes "+"
show_operator (some dot) = codes "."
show_operator (some slash) = codes "/"
show_operator (some semicolon) = codes ";"
show_operator (some query) = codes "?"
show_operator (some ampersand) = codes "&"
show_operator (some hash) = codes "#"

abbrev pub show_body : Expression → Bytes
show_body e = show_operator e.operation ++ show_variables e.variable e.variables

abbrev pub show_rest : List Expression → Bytes
show_rest [] = []
show_rest (e ∷ es) = b'{' ∷ (show_body e ++ b'}' ∷ (e.rest ++ show_rest es))

-- What the parser makes of each.
abbrev pub term_of : Variable → Term
term_of v = elim v.modifier [
  | whole ↦ record { name = v.name; explode = false; truncate = pos 0 }
  | explode ↦ record { name = v.name; explode = true; truncate = pos 0 }
  | prefix n ↦ record { name = v.name; explode = false; truncate = pos n }
]

abbrev pub terms_of : List Variable → List Term
terms_of [] = []
terms_of (v ∷ vs) = term_of v ∷ terms_of vs

abbrev pub part_of : Option Operator → Part
part_of none = plain_part
part_of (some plus) = plus_part
part_of (some dot) = dot_part
part_of (some slash) = slash_part
part_of (some semicolon) = semicolon_part
part_of (some query) = query_part
part_of (some ampersand) = ampersand_part
part_of (some hash) = hash_part

abbrev pub expression_part : Expression → Part
expression_part e = record (part_of e.operation) {
  terms = term_of e.variable ∷ terms_of e.variables;
}

abbrev pub parts_of : List Expression → List Part
parts_of [] = []
parts_of (e ∷ es) = expression_part e ∷ literal e.rest ∷ parts_of es

abbrev pub IsInt : Modifier → Type 0
IsInt (prefix n) = (0 < n) × (n ≤ max_int64)
IsInt _ = Unit

pub record IsVariable (v : Variable) : Type 0 where
  pub name_valid : is_valid_name v.name ≡ true
  pub length_fits : IsInt v.modifier

-- Text between expressions holds no brace.
abbrev pub IsText : Bytes → Type 0
IsText s = (contains s b'{' ≡ false) × (contains s b'}' ≡ false)

-- Without an operator, the first name must not begin with one: a name may begin with a dot.
abbrev pub IsPlain : Bytes → Type 0
IsPlain [] = Unit
IsPlain (c ∷ s) = (c == b'.') ≡ false

abbrev pub IsUnambiguous : Option Operator → Bytes → Type 0
IsUnambiguous none name = IsPlain name
IsUnambiguous (some o) name = Unit

pub record IsShown (e : Expression) : Type 0 where
  pub unambiguous : IsUnambiguous e.operation e.variable.name
  pub variable_valid : IsVariable e.variable
  pub variables_valid : All IsVariable e.variables
  pub rest_text : IsText e.rest

-- A template: literal text, and then expressions with literal text behind each.
abbrev pub show_template : Bytes → List Expression → Bytes
show_template s es = s ++ show_rest es
