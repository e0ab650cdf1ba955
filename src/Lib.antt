-- ===== src/Lib.antt =====
-- joe-cli-http: HTTP clients and servers for command line programs.
--
-- The program's parts and their files
--
-- internal/uritemplates/uritemplates.go is the RFC 6570 engine, modelled in full by Template.
-- Template/Types has `URITemplate`, `templatePart`, `templateTerm`, and the values that a template
-- is expanded with; Template/Escape has `pctEncode` and `escape`; Template/Parse has `Parse`,
-- `parseExpression`, `parseTerm`, `String` and `Names`; Template/Expand has `Expand`,
-- `PartialExpand`, and every function below them. A buffer is passed along and returned. A call
-- that returns an error or panics is a value of `Outcome` (Prelude/Results). Template/Expand/Spec
-- says with no buffer what an expansion writes, and Template/Parse/Grammar writes templates as the
-- RFC does; the proofs are the other children of each module.
--
-- uritemplates/vars.go keeps the variables that command line arguments set, for the engine to
-- expand
-- a template with: Vars, with `Set`, and Vars/Update, with `Add`, `Update` and `Items`.
-- uritemplates/
-- var.go reads one variable from one to three arguments: Vars/Var, a state machine. uritemplates/
-- uritemplate.go hands its calls to the engine: Template/Wrapper.
--
-- httpserver/wrap_writer.go is the proxy around `http.ResponseWriter` that the access log reads the
-- status and the size from: Server/Writer, with one function per method. httpserver/
-- reloadable_handler.go builds a handler on first use and after each `Invalidate`: Server/Reload,
-- and Server/Reload/Interleaved for `ensureHandler` as steps between which other goroutines run.
-- httpserver/server.go is the server that owns the mux and the middleware: Server/Mux, which calls
-- the reloadable handlers' `Invalidate` through `ReloadAll`, at the places of a heap, since the
-- handlers are shared by pointer. httpserver/ready_func.go and the reports of the server are
-- Server/Ready; httpserver/handler.go is Server/Handlers, whose access log reads Server/Writer
-- behind
-- the handler; httpserver/echo_handler.go is Server/Echo.
--
-- httpserver/options.go and the options of httpserver/server.go set the fields of that server:
-- Server/Options, with the setters they call in Server/Setters.
--
-- httpclient/client.go makes the requests: Client/Fetch has `Do`, `doOne` and the middleware that
-- prepares a request, from httpclient/middleware.go, composed by Client/Middleware; Client/Fetch/
-- Setters has what the flags set, Client/Cacheable the values that the client makes once, and
-- Client/Redact what a trace hides. httpclient/auth.go is Client/Auth, which `processAuth` calls;
-- httpclient/content.go and its companions are Client/Content, the bodies; Client/Headers has the
-- middleware that writes a method, a header or a request identifier (httpclient/middleware.go and
-- request_id_generator.go). httpclient/resolver.go is Client/Location, which expands templates by
-- the
-- engine; httpclient/value.go is Client/Values; httpclient/downloader.go is Client/Download,
-- with what opens a file in Client/Download/Open and what the client chooses in
-- Client/Download/Chosen. httpclient/integrity.go parses an expected hash and
-- checks a download against it: Client/Integrity. httpclient/expr.go and httpclient/expr are
-- Client/Expr, what the names in an expression stand for. httpclient/http_trace.go is
-- Client/Trace, the
-- levels, and Client/Trace/Log, the loggers. httpclient/interface_resolver.go,
-- httpclient/transport.go
-- and the setters of the dialers are Client/Network.
--
-- tls/cipher_suites.go and tls/tls.go are Tls.
--
-- httpserver/server_commands.go runs the server: Server/Run has `execContext` as steps of the
-- goroutines, the timer and the signal, in any order, over the server of Server/Mux and the ready
-- functions of Server/Ready, which run one after another beside the rest; each step uses up something,
-- so that no fuel is needed.
-- uritemplates/command.go is the expander that the rug command runs: Commands/Expander. The flags of
-- httpclient/command.go, httpclient/auth.go, httpclient/http_trace.go, httpserver/server_commands.go,
-- tls/tls_command.go and uritemplates/command.go are tables in Commands/Flags, and Commands/Flags/Apps
-- has what the commands of internal/cmd take. Commands/Interfaces lists the network's interfaces.
--
-- Prelude has what the parts share: tests on numbers, lists, results, and what the program uses of
-- Go's strings, strconv and maps, as the documentation of those packages has it.
--
-- Conventions
--
-- A string is a list of bytes. A map is an association list, in the order in which `range` visits
-- it; where the program makes a map that it ranges over, that order is part of the input. What a function of another package returns, where the program only passes it on, is an
-- argument: the answers of the proxied writer, the function that builds a handler, the hash
-- functions, the pattern check of `http.ServeMux`, `net/url` and `path`, the terminal, and the
-- splits
-- of the joe-cli package. A reflected value is a data type of the kinds
-- that the code tells apart.
--
-- `int` has 64 bits: `parse_int` reports what is out of range, and the lengths of strings are taken
-- to be within it. Two functions run on fuel. `digits_onto` (Prelude/Decimal) has one more than the
-- number it prints, which has fewer digits than that. `yielder` (Client/Middleware) has the length
-- of the list whose indices it visits, and at fuel 0 does what the code does behind the last index.
--
-- Not modelled
--
-- What joe-cli does with flags and pipelines, and the entry points in cmd; generated test doubles; the
-- copying of a response (httpclient/http_adapter.go). The hook of `RunServer` that shuts down: `Shutdown`
-- is that of net/http, and the shutdown functions are given a context without a server. Middleware of
-- a client that is not a `MiddlewareFunc`: Client/Middleware composes it, but Client/Fetch has none.
-- The printed forms that another package quotes; the text templates of the trace, of which the
-- model
-- keeps the name and the data; the actions and the contexts of the joe-cli package.
pub mod Prelude
pub mod Template
pub mod Vars
pub mod Server
pub mod Client
pub mod Commands
pub mod Tls
