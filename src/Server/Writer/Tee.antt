-- ===== src/Server/Writer/Tee.antt =====
-- The byte count, with and without a tee.
use joe_cli_http.Prelude.{
  ℕ, List, [], ◌∷◌, ◌++◌, ◌+◌, ◌*◌, ◌≡◌, refl, arith, if◌then◌else◌, Bytes, take,
}
use joe_cli_http.Server.Writer.{
  Failure, Writer, Answer, send_header, maybe_send_header, write_body, bytes_written, copy_to,
  read_from_reader, prefer,
}

maybe_send_header_keeps :
    (b : Writer)
    → ((maybe_send_header b).bytes ≡ b.bytes)
      × ((maybe_send_header b).tee ≡ b.tee)
      × ((maybe_send_header b).copied ≡ b.copied)
unfolding maybe_send_header send_header
maybe_send_header_keeps b = ground arith

-- `Write` counts what the proxied writer took, and hands the tee'd writer exactly that.
pub write_body_lem :
    (b : Writer) (buf : Bytes) (a : Answer)
    → ((write_body b buf a).0.bytes ≡ b.bytes + a.count)
      × ((write_body b buf a).1 ≡ a.count)
      × ((write_body b buf a).0.copied
          ≡ (if b.tee then b.copied ++ take a.count buf ∷ [] else b.copied))
      × ((write_body b buf a).0.tee ≡ b.tee)
      × ((write_body b buf a).2 ≡ (if b.tee then prefer a.failure a.tee_failure else a.failure))
unfolding write_body
write_body_lem b buf a = ground (arith, maybe_send_header_keeps b)

copy_to-bytes :
    (b : Writer) (chunks : List (Bytes × Answer)) (e : Failure) (n : ℕ)
    → (copy_to b chunks e n).0.bytes + n ≡ b.bytes + (copy_to b chunks e n).1
unfolding copy_to
copy_to-bytes b [] e n = refl
copy_to-bytes b ((buf, a) ∷ rest) e n =
    ground
      (arith, write_body_lem b buf a, copy_to-bytes (write_body b buf a).0 rest e (n + a.count))

-- With a tee, `ReadFrom` adds twice the number of bytes that it reports to `BytesWritten`; without
-- one, it adds that number once.
pub read_from_reader-bytes :
    (b : Writer) (chunks : List (Bytes × Answer)) (whole : Bytes) (n : ℕ) (e : Failure)
    → let r = read_from_reader b chunks whole n e in
      bytes_written r.0 ≡ bytes_written b + (if b.tee then 2 * r.1 else r.1)
unfolding read_from_reader bytes_written
read_from_reader-bytes b chunks whole n e =
    ground (arith, copy_to-bytes b chunks e 0, maybe_send_header_keeps b)
