-- ===== src/Server/Writer/Counts.antt =====
-- What the proxy has recorded after any calls of its methods.
use joe_cli_http.Prelude.{
  ℕ, Bool, true, false, List, [], ◌∷◌, ◌++◌, ◌+◌, ◌≡◌, refl, ap, ◌∙◌, arith, append-nil, ◌⊎◌, inl,
  inr, Bool-cases, Bytes,
}
use joe_cli_http.Server.Writer.{
  Call, write_header, write, read_from, flush, hijack, push, Failure, Writer, Answer, new_writer,
  call, send_header, maybe_send_header, write_body, status, set_tee, flush_writer, hijack_writer,
  push_writer, copy_to, read_from_reader, status_ok,
}

-- A call of one of the proxy's methods, with what the writers behind it answer.
pub data Op : Type 0 where
  header : ℕ → Op
  body : Bytes → Answer → Op
  tee_to : Bool → Op
  flushing hijacking pushing : Op
  reading : List (Bytes × Answer) → Bytes → ℕ → Failure → Op

unfoldable pub run_op : Writer → Op → Writer
unfolding set_tee flush_writer hijack_writer push_writer
run_op b (header code) = send_header b code
run_op b (body buf a) = (write_body b buf a).0
run_op b (tee_to w) = set_tee b w
run_op b flushing = flush_writer b
run_op b hijacking = hijack_writer b
run_op b pushing = push_writer b
run_op b (reading chunks whole n e) = (read_from_reader b chunks whole n e).0

unfoldable pub run : Writer → List Op → Writer
run b [] = b
run b (o ∷ os) = run (run_op b o) os

-- The codes of the headers that reached the proxied writer.
abbrev pub sent : List Call → List ℕ
sent [] = []
sent (write_header code ∷ cs) = code ∷ sent cs
sent (write buf ∷ cs) = sent cs
sent (read_from buf ∷ cs) = sent cs
sent (flush ∷ cs) = sent cs
sent (hijack ∷ cs) = sent cs
sent (push ∷ cs) = sent cs

pub sent-append : (cs ds : List Call) → sent (cs ++ ds) ≡ sent cs ++ sent ds
sent-append [] ds = refl
sent-append (write_header code ∷ cs) ds = ap (◌∷◌ code) (sent-append cs ds)
sent-append (write buf ∷ cs) ds = sent-append cs ds
sent-append (read_from buf ∷ cs) ds = sent-append cs ds
sent-append (flush ∷ cs) ds = sent-append cs ds
sent-append (hijack ∷ cs) ds = sent-append cs ds
sent-append (push ∷ cs) ds = sent-append cs ds

-- No header has been sent and the status is 0, or one has and the status is its code.
abbrev pub SentOnce : ℕ → List ℕ → Type 0
SentOnce code codes = ((codes ≡ []) × (code ≡ 0)) ⊎ (codes ≡ code ∷ [])

pub record IsConsistent (b : Writer) : Type 0 where
  pub sent_once : SentOnce b.code (sent b.calls)
  pub unsent : b.wrote_header ≡ false → sent b.calls ≡ []

send_header-IsConsistent :
    (b : Writer) (code : ℕ) → IsConsistent b → IsConsistent (send_header b code)
unfolding send_header
send_header-IsConsistent b code h =
    ground (arith, sent-append b.calls (write_header code ∷ []), append-nil (sent b.calls))

maybe_send_header-IsConsistent : (b : Writer) → IsConsistent b → IsConsistent (maybe_send_header b)
unfolding maybe_send_header
maybe_send_header-IsConsistent b h = ground (arith, send_header-IsConsistent b status_ok h)

-- After `maybeWriteHeader` the flag is set.
maybe_send_header-wrote : (b : Writer) → (maybe_send_header b).wrote_header ≡ true
unfolding maybe_send_header send_header
maybe_send_header-wrote b = ground arith

-- A call that is no `WriteHeader`.
call-IsConsistent :
    (b : Writer) (c : Call) → sent (c ∷ []) ≡ [] → IsConsistent b → IsConsistent (call b c)
call-IsConsistent b c e h =
    let same : sent (b.calls ++ c ∷ []) ≡ sent b.calls =
      sent-append b.calls (c ∷ []) ∙ rw e (append-nil (sent b.calls)) in
    record { sent_once = rw same h.sent_once; unsent = λ w. same ∙ h.unsent w }

write_body-IsConsistent :
    (b : Writer) (buf : Bytes) (a : Answer) → IsConsistent b → IsConsistent (write_body b buf a).0
unfolding write_body
write_body-IsConsistent b buf a h =
    let c = maybe_send_header b in
    let k = call-IsConsistent c (write buf) refl (maybe_send_header-IsConsistent b h) in
    elim (Bool-cases c.tee) [
      | inl e ↦ simp e (record { sent_once = k.sent_once; unsent = k.unsent })
      | inr e ↦ simp e (record { sent_once = k.sent_once; unsent = k.unsent })
    ]

copy_to-IsConsistent :
    (b : Writer) (chunks : List (Bytes × Answer)) (x : Failure) (n : ℕ)
    → IsConsistent b
    → IsConsistent (copy_to b chunks x n).0
unfolding copy_to
copy_to-IsConsistent b [] x n h = h
copy_to-IsConsistent b ((buf, a) ∷ rest) x n h =
    let k = write_body-IsConsistent b buf a h in
    ground (arith, k, copy_to-IsConsistent (write_body b buf a).0 rest x (n + a.count) k)

read_from_reader-IsConsistent :
    (b : Writer) (chunks : List (Bytes × Answer)) (whole : Bytes) (n : ℕ) (e : Failure)
    → IsConsistent b
    → IsConsistent (read_from_reader b chunks whole n e).0
unfolding read_from_reader
read_from_reader-IsConsistent b chunks whole n e h =
    let c = copy_to-IsConsistent b chunks e 0 h in
    let k =
      call-IsConsistent (maybe_send_header b) (read_from whole) refl
        (maybe_send_header-IsConsistent b h) in
    elim (Bool-cases b.tee) [
      | inl t ↦ simp t (record { sent_once = c.sent_once; unsent = c.unsent })
      | inr t ↦ simp t (record { sent_once = k.sent_once; unsent = k.unsent })
    ]

run_op-IsConsistent : (b : Writer) (o : Op) → IsConsistent b → IsConsistent (run_op b o)
unfolding run_op
run_op-IsConsistent b (header code) h = send_header-IsConsistent b code h
run_op-IsConsistent b (body buf a) h = write_body-IsConsistent b buf a h
run_op-IsConsistent b (tee_to w) h = record { sent_once = h.sent_once; unsent = h.unsent }
run_op-IsConsistent b flushing h =
    let k = call-IsConsistent b flush refl h in record { sent_once = k.sent_once; unsent = λ w. cc }
run_op-IsConsistent b hijacking h = call-IsConsistent b hijack refl h
run_op-IsConsistent b pushing h = call-IsConsistent b push refl h
run_op-IsConsistent b (reading chunks whole n e) h =
    read_from_reader-IsConsistent b chunks whole n e h

run-IsConsistent : (b : Writer) (os : List Op) → IsConsistent b → IsConsistent (run b os)
unfolding run
run-IsConsistent b [] h = h
run-IsConsistent b (o ∷ os) h = run-IsConsistent (run_op b o) os (run_op-IsConsistent b o h)

-- Whatever is called on a new proxy, at most one header reaches the proxied writer, and `Status`
-- is the code of that header, or 0 if there was none.
pub run-SentOnce :
    (os : List Op) → SentOnce (status (run new_writer os)) (sent (run new_writer os).calls)
unfolding status new_writer
run-SentOnce os =
    (run-IsConsistent new_writer os
      (record { sent_once = inl (refl, refl); unsent = λ w. refl })).sent_once
