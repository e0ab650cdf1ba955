-- ===== src/Server/Writer.antt =====
-- httpserver/wrap_writer.go: the proxy around `http.ResponseWriter`. The proxied writer and the
-- tee'd one are not the program's: a trace keeps the calls that reach them, and what the proxied
-- writer's `Write` and `ReadFrom` return is taken from the caller; a count is at most what was given,
-- as `io.Writer` documents.
pub mod Counts
pub mod Tee
pub mod Flush
use joe_cli_http.Prelude.{
  ℕ, Bool, true, false, not, ◌&&◌, ◌||◌, List, [], ◌∷◌, ◌++◌, Option, none, some, ◌+◌, ◌==◌,
  if◌then◌else◌, Bytes, length, take, drop, zero, suc,
}

-- The calls that reach the proxied writer.
pub data Call : Type 0 where
  write_header : ℕ → Call
  write : Bytes → Call
  read_from : Bytes → Call
  flush hijack push : Call

-- An error, as the proxied or the tee'd writer reports it.
abbrev pub Failure : Type 0
Failure = Option ℕ

-- `basicWriter`: its fields, and the trace of both writers. `tee` says whether one is set.
pub record Writer : Type 0 where
  pub wrote_header : Bool
  pub code : ℕ
  pub bytes : ℕ
  pub tee : Bool
  pub calls : List Call
  pub copied : List Bytes

-- What the proxied writer's `Write`, and the tee'd one's, answer: the count and the errors.
pub record Answer : Type 0 where
  pub count : ℕ
  pub failure : Failure
  pub tee_failure : Failure

abbrev pub status_ok : ℕ
status_ok = 200

-- `basicWriter{ResponseWriter: w}`
unfoldable pub new_writer : Writer
new_writer = record {
  wrote_header = false;
  code = 0;
  bytes = 0;
  tee = false;
  calls = [];
  copied = [];
}

abbrev pub call : Writer → Call → Writer
call b c = record b { calls = b.calls ++ c ∷ [] }

-- `WriteHeader`
unfoldable pub send_header : Writer → ℕ → Writer
send_header b code =
    if not b.wrote_header
    then call (record b { code = code; wrote_header = true }) (write_header code)
    else b

-- `maybeWriteHeader`
unfoldable pub maybe_send_header : Writer → Writer
maybe_send_header b = if not b.wrote_header then send_header b status_ok else b

-- An error of the proxied writer stands before one of the tee'd writer.
abbrev pub prefer : Failure → Failure → Failure
prefer none e = e
prefer (some x) e = some x

-- `Write`
unfoldable pub write_body : Writer → Bytes → Answer → Writer × ℕ × Failure
write_body b buf a =
    let c = call (maybe_send_header b) (write buf) in
    let (d, e) : Writer × Failure =
      if c.tee
      then (record c { copied = c.copied ++ take a.count buf ∷ [] }, prefer a.failure a.tee_failure)
      else (c, a.failure) in
    (record d { bytes = d.bytes + a.count }, a.count, e)

-- `Status`
unfoldable pub status : Writer → ℕ
status b = b.code

-- `BytesWritten`
unfoldable pub bytes_written : Writer → ℕ
bytes_written b = b.bytes

-- `Tee`
unfoldable pub set_tee : Writer → Bool → Writer
set_tee b w = record b { tee = w }

-- `Flush`, the same for the four writers that have it.
unfoldable pub flush_writer : Writer → Writer
flush_writer b = call (record b { wrote_header = true }) flush

-- `Hijack`, the same for the three writers that have it.
unfoldable pub hijack_writer : Writer → Writer
hijack_writer b = call b hijack

-- `http2FancyWriter.Push`
unfoldable pub push_writer : Writer → Writer
push_writer b = call b push

-- `io.ErrShortWrite`
abbrev pub short_write : ℕ
short_write = 0

-- `io.Copy` to the `basicWriter`, which has no `ReadFrom` of its own: a write for each chunk that
-- the reader gives, up to an error of the writer or a short write, and then the reader's end, or its
-- error.
unfoldable pub copy_to : Writer → List (Bytes × Answer) → Failure → ℕ → Writer × ℕ × Failure
copy_to b [] ending n = (b, n, ending)
copy_to b ((buf, a) ∷ rest) ending n =
    let r = write_body b buf a in
    let next = copy_to r.0 rest ending (n + a.count) in
    elim r.2 [
      | some e ↦ (r.0, n + a.count, some e)
      | none ↦ if a.count == length buf then next else (r.0, n + a.count, some short_write)
    ]

-- `httpFancyWriter.ReadFrom`: with a tee the chunks are copied, up to the reader's `failure`; without,
-- the proxied writer's `ReadFrom` is called, and answers how much it has read, and its `failure`.
unfoldable pub read_from_reader :
    Writer → List (Bytes × Answer) → Bytes → ℕ → Failure → Writer × ℕ × Failure
read_from_reader b chunks whole n failure =
    if b.tee
    then (let r = copy_to b chunks failure 0 in
        (record (r.0) { bytes = r.0.bytes + r.1 }, r.1, r.2))
    else (let c = call (maybe_send_header b) (read_from whole) in
        (record c { bytes = c.bytes + n }, n, failure))

-- What `newWrapResponseWriter` gives back.
pub data Kind : Type 0 where
  basic flusher hijacker flush_hijacker fancy fancy2 : Kind

-- `newWrapResponseWriter`: the type assertions on the proxied writer are Booleans.
unfoldable pub wrap_kind : ℕ → Bool → Bool → Bool → Bool → Kind
wrap_kind proto_major fl ps hj rf =
    let plain = if fl then flusher else basic in
    if proto_major == 2
    then if fl && ps then fancy2 else plain
    else if fl && hj && rf
    then fancy
    else if fl && hj
    then flush_hijacker
    else if hj
    then hijacker
    else plain
