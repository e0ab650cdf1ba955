-- ===== src/Client/Content.antt =====
-- httpclient/content.go, form_content.go, json_content.go and content_type.go: the body of a request.
-- The encoding of JSON is not the program's, and is a parameter.
use joe_cli_http.Prelude.{
  List, [], ◌∷◌, Option, none, some, if◌then◌else◌, Bytes, Outcome, ok, err, panics,
}
use joe_cli_http.Prelude.Text.{codes, equal, contains}
use joe_cli_http.Prelude.Assoc.{insert}

-- `ContentType`; the source's `int` may be any other number too.
pub data ContentType : Type 0 where
  form_data raw url_encoded multipart json out_of_range : ContentType

-- A `Content` of these files. A JSON body is nil or a map of texts.
pub data Content : Type 0 where
  raw_content : Bytes → Content
  form_content multipart_content url_encoded_content : Content
  json_content : Option (List (Bytes × Bytes)) → Content

pub data Error : Type 0 where
  raw_set unsupported_conversion unknown_type : Error

-- `NewContent`
unfoldable pub new_content : ContentType → Outcome Error Content
new_content raw = ok (raw_content [])
new_content form_data = ok form_content
new_content json = ok (json_content none)
new_content multipart = ok multipart_content
new_content url_encoded = ok url_encoded_content
new_content out_of_range = panics

-- `Read`; the parameter is `json.MarshalIndent`.
unfoldable pub read_content : (Option (List (Bytes × Bytes)) → Bytes) → Content → Bytes
read_content marshal (raw_content b) = b
read_content marshal (json_content m) = marshal m
read_content marshal _ = []

-- `convertContent`
unfoldable pub convert_content :
    (Option (List (Bytes × Bytes)) → Bytes) → Content → ContentType → Outcome Error Content
unfolding read_content
convert_content marshal (raw_content b) raw = ok (raw_content b)
convert_content marshal from raw = ok (raw_content (read_content marshal from))
convert_content marshal from to = err unsupported_conversion

-- `Set` of a JSON body
unfoldable pub set_json : Option (List (Bytes × Bytes)) → Bytes → Bytes → Outcome Error Content
unfolding contains insert
set_json m name value = if contains name b'.' then panics else elim m [
  | none ↦ ok (json_content (some ((name, value) ∷ [])))
  | some entries ↦ ok (json_content (some (insert name value entries)))
]

-- `Set`, which the three kinds of forms do not implement
unfoldable pub set_content : Content → Bytes → Bytes → Outcome Error Content
unfolding set_json
set_content (raw_content b) name value = err raw_set
set_content (json_content m) name value = set_json m name value
set_content _ name value = panics

-- `ContentType` of a body
unfoldable pub content_type : Content → Bytes
content_type (json_content m) = codes "application/json"
content_type _ = []

-- `String`; a number out of range panics.
unfoldable pub show_type : ContentType → Outcome Error Bytes
show_type form_data = ok (codes "FORM_DATA")
show_type raw = ok (codes "RAW")
show_type url_encoded = ok (codes "URL_ENCODED_FORM_DATA")
show_type multipart = ok (codes "MULTIPART_FORM_DATA")
show_type json = ok (codes "JSON")
show_type out_of_range = panics

-- The loop over `contentTypeStrings`
unfoldable pub from_name : Bytes → Option ContentType
unfolding equal
from_name arg =
    if equal arg (codes "FORM_DATA")
    then some form_data
    else if equal arg (codes "RAW")
    then some raw
    else if equal arg (codes "URL_ENCODED_FORM_DATA")
    then some url_encoded
    else if equal arg (codes "MULTIPART_FORM_DATA")
    then some multipart
    else if equal arg (codes "JSON")
    then some json
    else none

-- The `switch` of `Set` on the short names
unfoldable pub from_short_name : Bytes → Option ContentType
unfolding equal
from_short_name arg =
    if equal arg (codes "form")
    then some form_data
    else if equal arg (codes "raw")
    then some raw
    else if equal arg (codes "urlencoded")
    then some url_encoded
    else if equal arg (codes "multipart")
    then some multipart
    else if equal arg (codes "json")
    then some json
    else none

-- `UnmarshalText`, which accepts an unknown name and leaves the type as it was
unfoldable pub unmarshal_type : ContentType → Bytes → ContentType
unfolding from_name
unmarshal_type c b = elim (from_name b) [ some t ↦ t | none ↦ c ]

-- `ContentType.Set`
unfoldable pub set_type : ContentType → Bytes → Outcome Error ContentType
unfolding from_name from_short_name
set_type c [] = ok c
set_type c (x ∷ arg) = elim (from_short_name (x ∷ arg)) [
  | some t ↦ ok t
  | none ↦ elim (from_name (x ∷ arg)) [ some t ↦ ok t | none ↦ err unknown_type ]
]
