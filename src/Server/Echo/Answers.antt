-- ===== src/Server/Echo/Answers.antt =====
-- What the echo handler answers, behind the proxy of the access log.
use joe_cli_http.Prelude.{
  ℕ, Bool, true, false, ◌||◌, List, [], ◌∷◌, ◌++◌, Option, none, some, if◌then◌else◌, Bytes, ◌≡◌,
  refl, ap, ◌∙◌, arith, Bool-cases, Option-cases, inl, inr,
}
use joe_cli_http.Prelude.Text.{codes, has_prefix}
use joe_cli_http.Server.Writer.{
  Answer, Writer, new_writer, send_header, maybe_send_header, write_body, status,
}
use joe_cli_http.Server.Writer.Counts.{body, run, run_op}
use joe_cli_http.Server.Echo.{
  Library, Request, Reflected, Upload, FileInfo, handle_error, sniff_and_sum, set_body, set_json,
  is_form, note_read_error, add_upload, read_opened, read_form, read_body, read_content, add_file,
  read_upload, read_field, read_fields, read_uploads, start_reflected, reflect, Output, whole,
  only_errors, output, headers, echo_calls,
}

abbrev refusals : List Bytes → List ℕ
refusals [] = []
refusals (e ∷ es) = 400 ∷ refusals es

refusals-append : (es : List Bytes) (e : Bytes) → refusals (es ++ e ∷ []) ≡ refusals es ++ 400 ∷ []
refusals-append [] e = refl
refusals-append (x ∷ es) e = ap (λ cs. 400 ∷ cs) (refusals-append es e)

-- The same reflection, with a refusal sent for each error, or none at all
abbrev answered : Bool → Reflected → Reflected
answered failsafe resp = record resp { sent = if failsafe then [] else refusals resp.errors }

handle_error-answered :
    (fs : Bool) (resp : Reflected) (e : Bytes)
    → handle_error fs (answered fs resp) e ≡ answered fs (handle_error true resp e)
unfolding handle_error
handle_error-answered true resp e = refl
handle_error-answered false resp e = rw (refusals-append resp.errors e) refl

module _ (lib : Library) (fs : Bool) where
  set_json-answered :
      (ct s : Bytes) (resp : Reflected)
      → set_json lib fs ct s (answered fs resp) ≡ answered fs (set_json lib true ct s resp)
  unfolding set_json
  set_json-answered ct s resp =
      elim (Bool-cases (has_prefix ct (codes "application/json") || lib.json_valid s)) [
        | inr b ↦ rw b refl
        | inl b ↦ elim (Option-cases (lib.unmarshal_error s)) [
          | inl n ↦ rw (b, n) refl
          | inr (e, n) ↦ rw (b, n) (handle_error-answered fs resp _)
        ]
      ]

  set_body-answered :
      (s : Bytes) (resp : Reflected)
      → set_body lib s (answered fs resp) ≡ answered fs (set_body lib s resp)
  unfolding set_body
  set_body-answered [] resp = refl
  set_body-answered (c ∷ s) resp = refl

  read_form-answered :
      (r : Request) (resp : Reflected)
      → read_form fs r (answered fs resp) ≡ answered fs (read_form true r resp)
  unfolding read_form
  read_form-answered r resp = elim (Option-cases r.form_error) [
    | inl n ↦ rw n refl
    | inr (e, n) ↦ rw n (handle_error-answered fs resp _)
  ]

  read_body-answered :
      (r : Request) (resp : Reflected)
      → read_body lib fs r (answered fs resp) ≡ answered fs (read_body lib true r resp)
  unfolding read_body
  read_body-answered r resp = elim (Option-cases r.reader.1) [
    | inl n ↦
        rw
          (
            n,
            set_json-answered r.content_type r.reader.0 resp,
            set_body-answered r.reader.0 (set_json lib true r.content_type r.reader.0 resp),
          )
          refl
    | inr (e, n) ↦ rw n (handle_error-answered fs resp _)
  ]

  read_content-answered :
      (r : Request) (resp : Reflected)
      → read_content lib fs r (answered fs resp) ≡ answered fs (read_content lib true r resp)
  unfolding read_content
  read_content-answered r resp = elim (Bool-cases (is_form r.content_type)) [
    | inl b ↦ rw b (read_form-answered r resp)
    | inr b ↦ rw b (read_body-answered r resp)
  ]

  note_read_error-answered :
      (fh : Upload) (e : Option Bytes) (resp : Reflected)
      → note_read_error fs fh e (answered fs resp) ≡ answered fs (note_read_error true fh e resp)
  unfolding note_read_error
  note_read_error-answered fh none resp = refl
  note_read_error-answered fh (some e) resp = handle_error-answered fs resp _

  add_file-answered :
      (field : Bytes) (fi : FileInfo) (resp : Reflected)
      → add_file field fi (answered fs resp) ≡ answered fs (add_file field fi resp)
  unfolding add_file
  add_file-answered field fi resp = refl

  add_upload-answered :
      (field : Bytes) (fh : Upload) (resp : Reflected)
      → add_upload lib fs field fh (answered fs resp)
        ≡ answered fs (add_upload lib true field fh resp)
  unfolding add_upload
  add_upload-answered field fh resp =
      let r = sniff_and_sum lib fh.filename fh.reader in
      ap (add_file field r.0) (note_read_error-answered fh r.1 resp)
      ∙ add_file-answered field r.0 (note_read_error true fh r.1 resp)

  read_opened-answered :
      (field : Bytes) (fh : Upload) (e : Option Bytes) (resp : Reflected)
      → read_opened lib fs field fh e (answered fs resp)
        ≡ answered fs (read_opened lib true field fh e resp)
  unfolding read_opened
  read_opened-answered field fh none resp = add_upload-answered field fh resp
  read_opened-answered field fh (some e) resp = handle_error-answered fs resp _

  read_upload-answered :
      (field : Bytes) (fh : Upload) (resp : Reflected)
      → read_upload lib fs field fh (answered fs resp)
        ≡ answered fs (read_upload lib true field fh resp)
  unfolding read_upload
  read_upload-answered field fh resp = read_opened-answered field fh fh.open_error resp

  read_field-answered :
      (field : Bytes) (fhs : List Upload) (resp : Reflected)
      → read_field lib fs field fhs (answered fs resp)
        ≡ answered fs (read_field lib true field fhs resp)
  unfolding read_field
  read_field-answered field [] resp = refl
  read_field-answered field (fh ∷ fhs) resp =
      rw (read_upload-answered field fh resp)
        (read_field-answered field fhs (read_upload lib true field fh resp))

  read_fields-answered :
      (fields : List (Bytes × List Upload)) (resp : Reflected)
      → read_fields lib fs fields (answered fs resp)
        ≡ answered fs (read_fields lib true fields resp)
  unfolding read_fields
  read_fields-answered [] resp = refl
  read_fields-answered ((field, fhs) ∷ rest) resp =
      rw (read_field-answered field fhs resp)
        (read_fields-answered rest (read_field lib true field fhs resp))

  read_uploads-answered :
      (r : Request) (resp : Reflected)
      → read_uploads lib fs r (answered fs resp) ≡ answered fs (read_uploads lib true r resp)
  unfolding read_uploads
  read_uploads-answered r resp = elim (Option-cases r.uploads) [
    | inl n ↦ rw n refl
    | inr (fields, n) ↦ rw n (read_fields-answered fields (record resp { files = [] }))
  ]

  start-answered : (r : Request) → start_reflected lib r ≡ answered fs (start_reflected lib r)
  unfolding start_reflected
  start-answered r = elim fs as (λ b. start_reflected lib r ≡ answered b (start_reflected lib r)) [
    | true ↦ refl
    | false ↦ refl
  ]

  reflect-answered : (r : Request) → reflect lib fs r ≡ answered fs (reflect lib true r)
  unfolding reflect
  reflect-answered r =
      ap (λ s. read_uploads lib fs r (read_content lib fs r s)) (start-answered r)
      ∙ ap (λ s. read_uploads lib fs r s) (read_content-answered r (start_reflected lib r))
      ∙ read_uploads-answered r (read_content lib true r (start_reflected lib r))

send_header-again : (b : Writer) (c : ℕ) → b.wrote_header ≡ true → send_header b c ≡ b
unfolding send_header
send_header-again b c h = ground arith

run-headers-code :
    (b : Writer) (cs : List ℕ) (buf : Bytes) (a : Answer)
    → b.wrote_header ≡ true
    → (run b (headers cs ++ body buf a ∷ [])).code ≡ b.code
unfolding run run_op
run-headers-code b [] buf a h = unfold write_body maybe_send_header in ground arith
run-headers-code b (c ∷ cs) buf a h =
    rw (run, send_header-again b c h) (run-headers-code b cs buf a h)

abbrev pub is_none : List Bytes → Bool
is_none [] = true
is_none (e ∷ es) = false

refusals-status :
    (es : List Bytes) (buf : Bytes) (a : Answer)
    → status (run new_writer (headers (refusals es) ++ body buf a ∷ []))
      ≡ (if is_none es then 200 else 400)
unfolding run run_op status new_writer
refusals-status [] buf a = unfold write_body maybe_send_header send_header in refl
refusals-status (e ∷ es) buf a =
    run-headers-code (send_header new_writer 400) (refusals es) buf a (unfold send_header in refl)
    ∙ unfold send_header in refl

answered-status :
    (fs : Bool) (cs : List ℕ) (es : List Bytes) (buf : Bytes) (a : Answer)
    → cs ≡ (if fs then [] else refusals es)
    → status (run new_writer (headers cs ++ body buf a ∷ []))
      ≡ (if fs || is_none es then 200 else 400)
answered-status true cs es buf a c = rw c (refusals-status [] buf a)
answered-status false cs es buf a c = rw c (refusals-status es buf a)

output_lem :
    (fs : Bool) (s : Reflected) (es : List Bytes)
    → s.errors ≡ es
    → output fs s ≡ (if fs || is_none es then whole s else only_errors es)
unfolding output
output_lem true s [] h = rw h refl
output_lem true s (e ∷ es) h = rw h refl
output_lem false s [] h = rw h refl
output_lem false s (e ∷ es) h = rw h refl

-- A failsafe handler and one that is not find the same errors. The status that the proxy of the access
-- log reports is 400 if there are errors and the handler is not failsafe, and otherwise 200; what is
-- written is then the errors alone, and otherwise the whole reflection with its errors.
pub echo_calls-status :
    (lib : Library) (fs : Bool) (r : Request) (encode : Output → Bytes) (a : Answer)
    → let resp = reflect lib true r in
      let good = fs || is_none resp.errors in
      ((reflect lib fs r).errors ≡ resp.errors)
      × (status (run new_writer (echo_calls lib fs r encode a)) ≡ (if good then 200 else 400))
      × (output fs (reflect lib fs r)
          ≡ (if good then whole (reflect lib fs r) else only_errors resp.errors))
unfolding echo_calls
echo_calls-status lib fs r encode a =
    let resp = reflect lib true r in
    let e = reflect-answered lib fs r in
    let errors = ap (λ (s : Reflected). s.errors) e in
    (
      errors,
      answered-status fs (reflect lib fs r).sent resp.errors _ a (ap (λ (s : Reflected). s.sent) e),
      output_lem fs (reflect lib fs r) resp.errors errors,
    )
