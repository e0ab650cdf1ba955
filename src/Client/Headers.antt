-- ===== src/Client/Headers.antt =====
-- httpclient/middleware.go and httpclient/request_id_generator.go: the middleware that writes a method
-- or a header. A function of the caller's that takes nothing stands for what it returns.
use joe_cli_http.Prelude.{List, [], ◌∷◌, none, some, Bytes, Outcome, ok, err, panics}
use joe_cli_http.Prelude.Text.{codes}
use joe_cli_http.Prelude.Assoc.{insert}
use joe_cli_http.Client.Middleware.{Handler}
use joe_cli_http.Client.Fetch.{Request, Fault, failed, panicked, Multi}

-- The argument of `WithMethod`.
pub data MethodSource : Type 0 where
  text : Bytes → MethodSource
  computed : (Request → Outcome Fault Bytes) → MethodSource
  unexpected : MethodSource

-- The argument of `WithHeader`; `other` has its default string format.
pub data HeaderSource : Type 0 where
  text : Bytes → HeaderSource
  texts : List Bytes → HeaderSource
  computed : (Request → Outcome Fault Bytes) → HeaderSource
  computed_all : (Request → Outcome Fault (List Bytes)) → HeaderSource
  other : Bytes → HeaderSource

-- `WithMethod`
unfoldable pub with_method : MethodSource → Handler Request Fault
with_method (MethodSource.text v) r = (record r { method = v }, none)
with_method (MethodSource.computed f) r = elim (f r) [
  | ok v ↦ (record r { method = v }, none)
  | err e ↦ (r, some e)
  | panics ↦ (r, some panicked)
]
with_method unexpected r = (r, some (failed (codes "unexpected type for method")))

-- The `switch` of `WithHeader`
unfoldable pub header_values : HeaderSource → Request → Outcome Fault (List Bytes)
header_values (HeaderSource.text v) r = ok (v ∷ [])
header_values (HeaderSource.texts v) r = ok v
header_values (HeaderSource.computed f) r = elim (f r) [
  | ok v ↦ ok (v ∷ [])
  | err e ↦ err e
  | panics ↦ panics
]
header_values (HeaderSource.computed_all f) r = f r
header_values (HeaderSource.other shown) r = ok (shown ∷ [])

-- `WithHeader`; the parameter is `http.CanonicalHeaderKey`.
unfoldable pub with_header : (Bytes → Bytes) → Bytes → HeaderSource → Handler Request Fault
unfolding header_values
with_header canonical name value r = elim (header_values value r) [
  | ok v ↦ (record r { header = insert (canonical name) v r.header }, none)
  | err e ↦ (r, some e)
  | panics ↦ (r, some panicked)
]

-- The loop of `WithHeaders`
unfoldable pub set_headers : (Bytes → Bytes) → Multi → Multi → Multi
set_headers canonical to [] = to
set_headers canonical to ((k, v) ∷ headers) =
    set_headers canonical (insert (canonical k) v to) headers

-- `WithHeaders`
unfoldable pub with_headers : (Bytes → Bytes) → Multi → Handler Request Fault
unfolding set_headers
with_headers canonical headers r =
    (record r { header = set_headers canonical r.header headers }, none)

-- The argument of `NewRequestIDMiddleware`: none, a text, a function, or a value of another type.
pub data IdSource : Type 0 where
  absent : IdSource
  static : Bytes → IdSource
  generated : (Request → Outcome Fault Bytes) → IdSource
  unusable : IdSource

-- `defaultRequestIDGenerator`: what `rand.Read` fills 12 bytes with, and the encoding in base 64.
unfoldable pub default_generator : Outcome Fault Bytes → (Bytes → Bytes) → Outcome Fault Bytes
default_generator (ok b) encode = ok (encode b)
default_generator (err e) encode = err e
default_generator panics encode = panics

-- `asRequestIDGenerator`, and `generate` of what it returns; it panics on a type that is unusable.
unfoldable pub generator :
    Outcome Fault Bytes → (Bytes → Bytes) → IdSource → Outcome Fault (Request → Outcome Fault Bytes)
unfolding default_generator
generator random encode absent = ok (λ r. default_generator random encode)
generator random encode (static s) = ok (λ r. ok s)
generator random encode (generated f) = ok f
generator random encode unusable = panics

unfoldable pub request_id :
    (Bytes → Bytes)
    → Outcome Fault (Request → Outcome Fault Bytes)
    → Outcome Fault (Handler Request Fault)
unfolding with_header
request_id canonical (ok f) =
    ok (with_header canonical (codes "X-Request-ID") (HeaderSource.computed f))
request_id canonical (err e) = err e
request_id canonical panics = panics

-- `NewRequestIDMiddleware`
unfoldable pub new_request_id :
    (Bytes → Bytes)
    → Outcome Fault Bytes
    → (Bytes → Bytes)
    → List IdSource
    → Outcome Fault (Handler Request Fault)
unfolding generator request_id
new_request_id canonical random encode [] = request_id canonical (generator random encode absent)
new_request_id canonical random encode (s ∷ []) = request_id canonical (generator random encode s)
new_request_id canonical random encode (s ∷ t ∷ more) = panics
