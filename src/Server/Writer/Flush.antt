-- ===== src/Server/Writer/Flush.antt =====
-- `Flush` before a header, and the interfaces that the proxy keeps.
use joe_cli_http.Prelude.{
  ℕ, Bool, true, false, not, ◌&&◌, List, [], ◌∷◌, ◌+◌, ◌==◌, ◌≡◌, refl, ◌∙◌, arith, append-nil, inl,
  inr, Bool-cases, Bytes,
}
use joe_cli_http.Server.Writer.{
  Call, write, read_from, flush, hijack, push, Failure, Writer, Answer, new_writer, call,
  send_header, maybe_send_header, write_body, status, flush_writer, copy_to, read_from_reader, Kind,
  basic, hijacker, flush_hijacker, fancy, fancy2, wrap_kind,
}
use joe_cli_http.Server.Writer.Counts.{
  Op, header, body, tee_to, flushing, hijacking, pushing, reading, run_op, run, sent, sent-append,
}

-- What no call changes once the flag is set.
record IsSealed (code : ℕ) (codes : List ℕ) (b : Writer) : Type 0 where
  wrote : b.wrote_header ≡ true
  same_code : b.code ≡ code
  same_sent : sent b.calls ≡ codes

module _ {code : ℕ} {codes : List ℕ} where
  call-IsSealed :
      (b : Writer) (c : Call)
      → sent (c ∷ []) ≡ []
      → IsSealed code codes b
      → IsSealed code codes (call b c)
  call-IsSealed b c e h = record {
    wrote = h.wrote;
    same_code = h.same_code;
    same_sent = sent-append b.calls (c ∷ []) ∙ rw e (append-nil (sent b.calls)) ∙ h.same_sent;
  }

  send_header-IsSealed :
      (b : Writer) (c : ℕ) → IsSealed code codes b → IsSealed code codes (send_header b c)
  unfolding send_header
  send_header-IsSealed b c h = simp h.wrote h

  maybe_send_header-IsSealed :
      (b : Writer) → IsSealed code codes b → IsSealed code codes (maybe_send_header b)
  unfolding maybe_send_header
  maybe_send_header-IsSealed b h = simp h.wrote h

  write_body-IsSealed :
      (b : Writer) (buf : Bytes) (a : Answer)
      → IsSealed code codes b
      → IsSealed code codes (write_body b buf a).0
  unfolding write_body
  write_body-IsSealed b buf a h =
      let k =
        call-IsSealed (maybe_send_header b) (write buf) refl (maybe_send_header-IsSealed b h) in
      elim (Bool-cases (maybe_send_header b).tee) [
        | inl e ↦
            simp e (record { wrote = k.wrote; same_code = k.same_code; same_sent = k.same_sent })
        | inr e ↦
            simp e (record { wrote = k.wrote; same_code = k.same_code; same_sent = k.same_sent })
      ]

  copy_to-IsSealed :
      (b : Writer) (chunks : List (Bytes × Answer)) (x : Failure) (n : ℕ)
      → IsSealed code codes b
      → IsSealed code codes (copy_to b chunks x n).0
  unfolding copy_to
  copy_to-IsSealed b [] x n h = h
  copy_to-IsSealed b ((buf, a) ∷ rest) x n h =
      let k = write_body-IsSealed b buf a h in
      ground (arith, k, copy_to-IsSealed (write_body b buf a).0 rest x (n + a.count) k)

  read_from_reader-IsSealed :
      (b : Writer) (chunks : List (Bytes × Answer)) (whole : Bytes) (n : ℕ) (e : Failure)
      → IsSealed code codes b
      → IsSealed code codes (read_from_reader b chunks whole n e).0
  unfolding read_from_reader
  read_from_reader-IsSealed b chunks whole n e h =
      let c = copy_to-IsSealed b chunks e 0 h in
      let k =
        call-IsSealed (maybe_send_header b) (read_from whole) refl
          (maybe_send_header-IsSealed b h) in
      elim (Bool-cases b.tee) [
        | inl t ↦
            simp t (record { wrote = c.wrote; same_code = c.same_code; same_sent = c.same_sent })
        | inr t ↦
            simp t (record { wrote = k.wrote; same_code = k.same_code; same_sent = k.same_sent })
      ]

  run_op-IsSealed : (b : Writer) (o : Op) → IsSealed code codes b → IsSealed code codes (run_op b o)
  unfolding run_op
  run_op-IsSealed b (header c) h = send_header-IsSealed b c h
  run_op-IsSealed b (body buf a) h = write_body-IsSealed b buf a h
  run_op-IsSealed b (tee_to w) h = record {
    wrote = h.wrote;
    same_code = h.same_code;
    same_sent = h.same_sent;
  }
  run_op-IsSealed b flushing h =
      let k = call-IsSealed b flush refl h in
      record { wrote = refl; same_code = k.same_code; same_sent = k.same_sent }
  run_op-IsSealed b hijacking h = call-IsSealed b hijack refl h
  run_op-IsSealed b pushing h = call-IsSealed b push refl h
  run_op-IsSealed b (reading chunks whole n e) h = read_from_reader-IsSealed b chunks whole n e h

  run-IsSealed :
      (b : Writer) (os : List Op) → IsSealed code codes b → IsSealed code codes (run b os)
  unfolding run
  run-IsSealed b [] h = h
  run-IsSealed b (o ∷ os) h = run-IsSealed (run_op b o) os (run_op-IsSealed b o h)

-- After a `Flush` on a new proxy no later call sends a header, `WriteHeader` and `Write` among them,
-- and `Status` stays 0.
pub flush_seals :
    (os : List Op)
    → (status (run (flush_writer new_writer) os) ≡ 0)
      × (sent (run (flush_writer new_writer) os).calls ≡ [])
unfolding status flush_writer new_writer
flush_seals os =
    let h =
      run-IsSealed (flush_writer new_writer) os
        (record { wrote = refl; same_code = refl; same_sent = refl }) in
    (h.same_code, h.same_sent)

abbrev pub can_flush : Kind → Bool
can_flush basic = false
can_flush hijacker = false
can_flush _ = true

abbrev pub can_hijack : Kind → Bool
can_hijack hijacker = true
can_hijack flush_hijacker = true
can_hijack fancy = true
can_hijack _ = false

abbrev pub can_push : Kind → Bool
can_push fancy2 = true
can_push _ = false

abbrev pub can_read_from : Kind → Bool
can_read_from fancy = true
can_read_from _ = false

-- The proxy can flush exactly if the proxied writer can; it can hijack exactly if the proxied
-- writer can and the protocol is not HTTP/2; it can push exactly over HTTP/2, if the proxied writer
-- can push and flush; and it can read from a reader exactly off HTTP/2, if the proxied writer can
-- do so, flush and hijack.
pub wrap_kind_lem :
    (proto : ℕ) (fl ps hj rf : Bool)
    → let k = wrap_kind proto fl ps hj rf in
      (can_flush k ≡ fl)
      × (can_hijack k ≡ (hj && not (proto == 2)))
      × (can_push k ≡ (fl && ps && (proto == 2)))
      × (can_read_from k ≡ (fl && hj && rf && not (proto == 2)))
unfolding wrap_kind
wrap_kind_lem proto fl ps hj rf = ground arith
