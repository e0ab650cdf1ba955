-- ===== src/Server/Handlers.antt =====
-- httpserver/handler.go: the handlers of the registry, the specifications that make them, and the
-- access log. The handlers of net/http are constructors of `Handler`; the registry and the expressions
-- of the joe-cli package are parameters.
use joe_cli_http.Prelude.{
  ℕ, Bool, List, [], ◌∷◌, ◌++◌, Option, none, some, ◌==◌, if◌then◌else◌, Bytes, Outcome, ok, err,
  panics,
}
use joe_cli_http.Prelude.Text.{codes, equal, ends_in}
use joe_cli_http.Prelude.Decimal.{show_nat}
use joe_cli_http.Prelude.Assoc.{copy}
use joe_cli_http.Client.Values.{VirtualPath}
use joe_cli_http.Server.Writer.{Writer, new_writer, status, bytes_written}
use joe_cli_http.Server.Writer.Counts.{Op, run}
use joe_cli_http.Server.Mux.{Server, reload_all}

-- An `http.Handler` of the registry. `file_server` and `redirect` are those of net/http.
pub data Handler : Type 0 where
  ping reload : Handler
  file_server : Bytes → Handler
  redirect : Bytes → ℕ → Handler
  echo : Bool → Handler
  hide_listing : Handler → Handler
  strip_prefix : Bytes → Handler → Handler
  other : ℕ → Handler

-- The calls that a handler makes of the response writer.
pub data Reply : Type 0 where
  add_header : Bytes → Bytes → Reply
  write_header : ℕ → Reply
  write : Bytes → Reply
  not_found : Reply

-- `NewReloadHandler`, at the method of the request
unfoldable pub serve_reload : {H : Type 0} → Server H → Bytes → Server H × List Reply
serve_reload s method =
    if equal method (codes "POST")
    then (reload_all s, write_header 204 ∷ [])
    else (s, write_header 405 ∷ [])

-- `NewPingHandler`
unfoldable pub serve_ping : List Reply
serve_ping = write (codes "ping\n") ∷ []

-- `NewHeaderMiddleware`, around what the inner handler does
unfoldable pub serve_header : Bytes → Bytes → List Reply → List Reply
serve_header name value inner = add_header name value ∷ inner

-- `hideListing`, at the path of the request; the first branch is `http.Error`.
unfoldable pub serve_hidden : Bytes → List Reply → List Reply
serve_hidden path inner = if ends_in path b'/' then not_found ∷ [] else inner

-- `newFileServerHandler`
unfoldable pub new_file_server : Bytes → Bool → Handler
new_file_server dir hide = if hide then hide_listing (file_server dir) else file_server dir

-- `newRedirectServerHandlerWithOpts`
unfoldable pub new_redirect : Bytes → ℕ → Handler
new_redirect to code = redirect to (if code == 0 then 307 else code)

-- The defaults of `HandlerRegistry`
abbrev pub file_defaults : List (Bytes × Bytes)
file_defaults =
    (codes "directory", codes ".") ∷ (codes "hide_directory_listing", codes "false") ∷ []

abbrev pub redirect_defaults : List (Bytes × Bytes)
redirect_defaults = (codes "to", codes "/") ∷ (codes "code", show_nat 307) ∷ []

abbrev pub echo_defaults : List (Bytes × Bytes)
echo_defaults = (codes "failsafe", codes "false") ∷ []

-- An entry of `HandlerRegistry`
pub record Provider : Type 0 where
  pub name : Bytes
  pub aliases : List Bytes
  pub defaults : List (Bytes × Bytes)

-- `HandlerRegistry`, in the order of the source
abbrev pub handler_registry : List Provider
handler_registry =
    record { name = codes "ping"; aliases = []; defaults = [] }
    ∷ record { name = codes "file"; aliases = []; defaults = file_defaults }
    ∷ record { name = codes "reload"; aliases = []; defaults = [] }
    ∷ record { name = codes "redirect"; aliases = []; defaults = redirect_defaults }
    ∷ record { name = codes "echo"; aliases = codes "reflect" ∷ []; defaults = echo_defaults }
    ∷ []

-- `update`
unfoldable pub update : List (Bytes × Bytes) → List (Bytes × Bytes) → List (Bytes × Bytes)
unfolding copy
update dst src = copy dst src

pub data Error : Type 0 where
  no_handler : Bytes → Error
  refused : Error

-- What a factory makes of its options: a handler, or an error. What the registry looks up may be nil,
-- a handler, or a `HandlerSpec`.
abbrev pub HandlerSpec : Type 0
HandlerSpec = VirtualPath → Outcome Error Handler

pub data Provided : Type 0 where
  nil : Provided
  handler : Handler → Provided
  spec : HandlerSpec → Provided

abbrev pub Options : Type 0
Options = List (Bytes × Bytes)

abbrev pub strip_result : Bytes → Outcome Error Handler → Outcome Error Handler
strip_result path (ok h) = ok (strip_prefix path h)
strip_result path (err e) = err e
strip_result path panics = panics

-- `FileServerHandlerSpec`; the parameter is the factory of `newFileServerHandlerWithOpts`.
unfoldable pub file_server_spec : (Options → Outcome Error Handler) → HandlerSpec
unfolding update
file_server_spec factory vp =
    strip_result vp.request_path
      (factory (update ((codes "directory", vp.physical_path) ∷ []) vp.options))

-- The last part of `RegistryHandlerSpec`
unfoldable pub provided_handler : Bytes → VirtualPath → Provided → Outcome Error Handler
provided_handler name vp nil = err (no_handler name)
provided_handler name vp (handler h) = ok (strip_prefix vp.request_path h)
provided_handler name vp (spec f) = f vp

-- `RegistryHandlerSpec`; the parameter is the registry of that name, if there is one.
unfoldable pub registry_spec :
    Option (Bytes → Options → Outcome Error Provided) → Bytes → HandlerSpec
unfolding provided_handler
registry_spec none name vp = err (no_handler name)
registry_spec (some make) name vp = elim (make vp.physical_path vp.options) [
  | ok p ↦ provided_handler name vp p
  | err e ↦ err e
  | panics ↦ panics
]

-- A request, as far as the access log prints it
pub record Request : Type 0 where
  pub method : Bytes
  pub proto : Bytes
  pub path : Bytes

-- What a name in a format stands for
pub data Expansion : Type 0 where
  number http_status : ℕ → Expansion
  text http_method : Bytes → Expansion
  unknown : Expansion

-- `ExpandRequest`, of the writer behind the handler; the parameters are `http.StatusText` and the
-- printed header.
unfoldable pub expand_request : (ℕ → Bytes) → Bytes → Request → Writer → Bytes → Expansion
unfolding equal
expand_request status_text header r ww s =
    if equal s (codes "bytesWritten")
    then number (bytes_written ww)
    else if equal s (codes "method")
    then http_method r.method
    else if equal s (codes "protocol")
    then text r.proto
    else if equal s (codes "statusCode")
    then http_status (status ww)
    else if equal s (codes "status")
    then text (show_nat (status ww) ++ (codes " " ++ status_text (status ww)))
    else if equal s (codes "urlPath")
    then text r.path
    else if equal s (codes "header")
    then text header
    else unknown

-- `expandTiming`; a time is a number, and `sub` is its difference.
unfoldable pub expand_timing : (ℕ → ℕ → ℕ) → ℕ → ℕ → Bytes → Expansion
unfolding equal
expand_timing sub start end' s =
    if equal s (codes "duration")
    then number (sub end' start)
    else if equal s (codes "end")
    then number end'
    else if equal s (codes "start")
    then number start
    else unknown

-- `NewRequestLogger`: an empty format is the default one.
unfoldable pub logger_format : Bytes → Bytes → Bytes
logger_format default [] = default
logger_format default (c ∷ s) = c ∷ s

-- `ServeHTTP` of the logger: the handler's calls reach a new proxy, and one line is printed behind
-- them. The parameter prints a format at what its names stand for.
unfoldable pub serve_logged :
    (Bytes → (Bytes → Expansion) → Bytes)
    → (ℕ → Bytes)
    → Bytes
    → Bytes
    → Request
    → List Op
    → Writer × Bytes
unfolding expand_request
serve_logged print status_text header format r calls =
    let ww = run new_writer calls in (ww, print format (expand_request status_text header r ww))
