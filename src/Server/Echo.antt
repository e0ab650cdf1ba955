-- ===== src/Server/Echo.antt =====
-- httpserver/echo_handler.go: the handler that reflects a request. What net/http reads of the request,
-- and encoding/json says of its body, comes with the request and in `Library`.
pub mod Answers
mod Tests
use joe_cli_http.Prelude.{
  ℕ, Bool, true, false, not, ◌&&◌, ◌||◌, List, [], ◌∷◌, ◌++◌, Option, none, some, leb,
  if◌then◌else◌, Bytes, length, take, drop, Outcome, ok, err, panics,
}
use joe_cli_http.Prelude.Text.{codes, has_prefix}
use joe_cli_http.Prelude.Assoc.{lookup, insert}
use joe_cli_http.Server.Writer.{Writer, Answer, new_writer, status}
use joe_cli_http.Server.Writer.Counts.{Op, header, body, run}

-- `http.DetectContentType`, the digest of `crypto/sha1` in hex, `base64`, `json.Valid`, the error of
-- `json.Unmarshal` if there is one, and the host of `net.SplitHostPort`.
pub record Library : Type 0 where
  pub detect : Bytes → Bytes
  pub sha1_hex : Bytes → Bytes
  pub base64 : Bytes → Bytes
  pub json_valid : Bytes → Bool
  pub unmarshal_error : Bytes → Option Bytes
  pub split_host : Bytes → Option Bytes

pub record FileInfo : Type 0 where
  pub filename : Bytes
  pub sniff : Bytes
  pub sha1 : Bytes
  pub first_32_base : Bytes

-- `tlsConnectionState`, with the names that `crypto/tls` gives
pub record TlsState : Type 0 where
  pub version : Bytes
  pub curve_id : Bytes
  pub cipher_suite : Bytes
  pub server_name : Bytes

-- A reader: what it gives, and the error that ends it, if it is not the end of the data.
abbrev pub Reader : Type 0
Reader = Bytes × Option Bytes

-- An uploaded file: its name, the error of `Open` if there is one, and its reader.
pub record Upload : Type 0 where
  pub filename : Bytes
  pub open_error : Option Bytes
  pub reader : Reader

-- The request. `form_error` is that of `ParseMultipartForm`, if it is not `ErrNotMultipart`; `uploads`
-- are those of the multipart form, if there is one.
pub record Request : Type 0 where
  pub method : Bytes
  pub url : Bytes
  pub remote_addr : Bytes
  pub tls : Option TlsState
  pub cookies : List (Bytes × Bytes)
  pub content_type : Bytes
  pub form_error : Option Bytes
  pub reader : Reader
  pub uploads : Option (List (Bytes × List Upload))

-- `reflectedRequest`, but for the header, the query and the form, which are the request's own. A JSON
-- value is its text. `sent` is the codes that `WriteHeader` was called with so far.
pub record Reflected : Type 0 where
  pub method : Bytes
  pub url : Bytes
  pub remote : Bytes
  pub tls : Option TlsState
  pub cookies : List (Bytes × Bytes)
  pub json : Option Bytes
  pub has_form : Bool
  pub files : List (Bytes × List FileInfo)
  pub errors : List Bytes
  pub body : Option FileInfo
  pub sent : List ℕ

-- `getRemoteIP`
unfoldable pub remote_ip : Library → Bytes → Bytes
remote_ip lib addr = elim (lib.split_host addr) [ none ↦ addr | some ip ↦ ip ]

-- `handleError`, of either kind
unfoldable pub handle_error : Bool → Reflected → Bytes → Reflected
handle_error failsafe resp e = record resp {
  errors = resp.errors ++ e ∷ [];
  sent = if failsafe then resp.sent else resp.sent ++ 400 ∷ [];
}

-- `io.ReadFull` of 32 bytes: what it reads, and its error but for the end of the data.
unfoldable pub read_full : Reader → Bytes × Option Bytes
read_full (content, failure) =
    if leb 32 (length content) then (take 32 content, none) else (content, failure)

abbrev pub empty_info : FileInfo
empty_info = record { filename = []; sniff = []; sha1 = []; first_32_base = [] }

-- `sniffAndSum`; with an error the result is empty.
unfoldable pub sniff_and_sum : Library → Bytes → Reader → FileInfo × Option Bytes
unfolding read_full
sniff_and_sum lib name r =
    let (buf, e) = read_full r in
    elim e [
      | some x ↦ (empty_info, some x)
      | none ↦ elim r.1 [
        | some x ↦ (empty_info, some x)
        | none ↦ (
          record {
            filename = name;
            sniff = lib.detect buf;
            sha1 = lib.sha1_hex (buf ++ drop (length buf) r.0);
            first_32_base = lib.base64 buf;
          },
          none,
        )
      ]
    ]

-- `resp.Body`, if the body is not empty; its error is dropped.
unfoldable pub set_body : Library → Bytes → Reflected → Reflected
set_body lib [] resp = resp
set_body lib (c ∷ s) resp = record resp { body = some (sniff_and_sum lib [] (c ∷ s, none)).0 }

-- The body as JSON, if it is said to be, or is.
unfoldable pub set_json : Library → Bool → Bytes → Bytes → Reflected → Reflected
set_json lib failsafe ct content resp =
    if has_prefix ct (codes "application/json") || lib.json_valid content
    then elim (lib.unmarshal_error content) [
      | some e ↦ handle_error failsafe resp (codes "invalid JSON in body: " ++ e)
      | none ↦ record resp { json = some content }
    ]
    else resp

unfoldable pub is_form : Bytes → Bool
is_form ct =
    has_prefix ct (codes "application/x-www-form-urlencoded")
    || has_prefix ct (codes "multipart/form-data")

-- The branch of a form
unfoldable pub read_form : Bool → Request → Reflected → Reflected
read_form failsafe r resp = elim r.form_error [
  | some e ↦ handle_error failsafe resp (codes "form parse error: " ++ e)
  | none ↦ record resp { has_form = true }
]

-- The other branch, of `io.ReadAll`
unfoldable pub read_body : Library → Bool → Request → Reflected → Reflected
unfolding set_json set_body
read_body lib failsafe r resp = elim r.reader.1 [
  | some e ↦ handle_error failsafe resp (codes "read body error: " ++ e)
  | none ↦ set_body lib r.reader.0 (set_json lib failsafe r.content_type r.reader.0 resp)
]

unfoldable pub read_content : Library → Bool → Request → Reflected → Reflected
unfolding read_form read_body is_form
read_content lib failsafe r resp =
    if is_form r.content_type then read_form failsafe r resp else read_body lib failsafe r resp

abbrev pub or_no_files : Option (List FileInfo) → List FileInfo
or_no_files none = []
or_no_files (some fs) = fs

-- `append` to the files of a field
unfoldable pub add_file : Bytes → FileInfo → Reflected → Reflected
add_file field fi resp = record resp {
  files = insert field (or_no_files (lookup field resp.files) ++ fi ∷ []) resp.files;
}

-- `if err != nil` behind `sniffAndSum`
unfoldable pub note_read_error : Bool → Upload → Option Bytes → Reflected → Reflected
note_read_error failsafe fh none resp = resp
note_read_error failsafe fh (some e) resp =
    handle_error failsafe resp (codes "file read error (" ++ (fh.filename ++ (codes "): " ++ e)))

-- An upload that is open: a file that cannot be read is added with nothing in it, beside the error.
unfoldable pub add_upload : Library → Bool → Bytes → Upload → Reflected → Reflected
add_upload lib failsafe field fh resp =
    let (fi, e) = sniff_and_sum lib fh.filename fh.reader in
    add_file field fi (note_read_error failsafe fh e resp)

-- One upload, behind the error of `Open`
unfoldable pub read_opened : Library → Bool → Bytes → Upload → Option Bytes → Reflected → Reflected
read_opened lib failsafe field fh (some e) resp =
    handle_error failsafe resp (codes "file open error (" ++ (fh.filename ++ (codes "): " ++ e)))
read_opened lib failsafe field fh none resp = add_upload lib failsafe field fh resp

-- One upload
unfoldable pub read_upload : Library → Bool → Bytes → Upload → Reflected → Reflected
unfolding read_opened
read_upload lib failsafe field fh resp = read_opened lib failsafe field fh fh.open_error resp

unfoldable pub read_field : Library → Bool → Bytes → List Upload → Reflected → Reflected
unfolding read_upload
read_field lib failsafe field [] resp = resp
read_field lib failsafe field (fh ∷ fhs) resp =
    read_field lib failsafe field fhs (read_upload lib failsafe field fh resp)

-- The loop over the fields, in the order in which `range` visits them
unfoldable pub read_fields : Library → Bool → List (Bytes × List Upload) → Reflected → Reflected
unfolding read_field
read_fields lib failsafe [] resp = resp
read_fields lib failsafe ((field, fhs) ∷ rest) resp =
    read_fields lib failsafe rest (read_field lib failsafe field fhs resp)

unfoldable pub read_uploads : Library → Bool → Request → Reflected → Reflected
unfolding read_fields
read_uploads lib failsafe r resp = elim r.uploads [
  | none ↦ resp
  | some fields ↦ read_fields lib failsafe fields (record resp { files = [] })
]

-- The literal at the head of `ServeHTTP`, with the cookies
unfoldable pub start_reflected : Library → Request → Reflected
unfolding remote_ip
start_reflected lib r = record {
  method = r.method;
  url = r.url;
  remote = remote_ip lib r.remote_addr;
  tls = r.tls;
  cookies = r.cookies;
  json = none;
  has_form = false;
  files = [];
  errors = [];
  body = none;
  sent = [];
}

-- `ServeHTTP` up to the output
unfoldable pub reflect : Library → Bool → Request → Reflected
unfolding read_uploads read_content start_reflected
reflect lib failsafe r =
    read_uploads lib failsafe r (read_content lib failsafe r (start_reflected lib r))

-- What is encoded
pub data Output : Type 0 where
  whole : Reflected → Output
  only_errors : List Bytes → Output

unfoldable pub output : Bool → Reflected → Output
output failsafe resp = elim resp.errors [
  | [] ↦ whole resp
  | e ∷ es ↦ if failsafe then whole resp else only_errors (e ∷ es)
]

abbrev pub headers : List ℕ → List Op
headers [] = []
headers (c ∷ cs) = header c ∷ headers cs

-- The calls that `ServeHTTP` makes of the writer: the codes, and the one write of the encoder, of the
-- text and with the answer that are given.
unfoldable pub echo_calls : Library → Bool → Request → (Output → Bytes) → Answer → List Op
echo_calls lib failsafe r encode a =
    let resp = reflect lib failsafe r in
    headers resp.sent ++ body (encode (output failsafe resp)) a ∷ []
