-- ===== src/Tests/Streams.antt =====
-- Requests and responses on a stream in memory, and frames of events.
use blueboat_cpp.Http.Limits.{read_request-FitsLength}
use blueboat_cpp.Http.Body.{Reads, read_body-Reads}
use blueboat_cpp.Http.Text.{stoul, to_lower, trim, getlines, words}
use blueboat_cpp.Http.Lines.{Request, pop_cr, request_line, header_lines}
use blueboat_cpp.Http.{
  read_until_double_crlf, read_body, max_body_size, ends_head, read_head, read_rest, read_request,
  max_header_size,
}
use blueboat_cpp.Http.Head
use blueboat_cpp.Socket.{StreamLaws, Socket}
use blueboat_cpp.Base.{
  ℕ, zero, suc, ◌≤◌, ◌<◌, ◌≡◌, refl, Option, none, some, [], ◌∷◌, ◌++◌, arith, Bytes, codes,
  bytes_eq, split_at_first, length, take, find, put,
}

-- A stream that gives two bytes at most at a time, and takes one; the first bytes are those still
-- to come, the second those sent.
abbrev read_two : ℕ → Bytes → Bytes → Option (Bytes × (Bytes × Bytes))
read_two zero incoming sent = none
read_two (suc n) [] sent = none
read_two (suc n) (b ∷ []) sent = some (b ∷ [], ([], sent))
read_two (suc zero) (b ∷ c ∷ rest) sent = some (b ∷ [], (c ∷ rest, sent))
read_two (suc (suc n)) (b ∷ c ∷ rest) sent = some (b ∷ c ∷ [], (rest, sent))

abbrev write_one : Bytes → Bytes → Bytes → Option (ℕ × (Bytes × Bytes))
write_one [] incoming sent = none
write_one (b ∷ bs) incoming sent = some (1, (incoming, sent ++ b ∷ []))

abbrev pub stream : Socket
stream = record {
  State = Bytes × Bytes;
  read = λ n s. read_two n s.0 s.1;
  write = λ bs s. write_one bs s.0 s.1;
}

read_two-Reads :
    (n : ℕ) (i o i' o' bs : Bytes)
    → read_two n i o ≡ some (bs, (i', o'))
    → 0 < n
    → (i ≡ bs ++ i') × (0 < length bs) × (length bs ≤ n)
read_two-Reads zero i o i' o' bs e h = cc
read_two-Reads (suc n) [] o i' o' bs e h = cc
read_two-Reads (suc n) (b ∷ []) o i' o' bs e h = ground arith
read_two-Reads (suc zero) (b ∷ c ∷ rest) o i' o' bs e h = ground arith
read_two-Reads (suc (suc n)) (b ∷ c ∷ rest) o i' o' bs e h = ground arith

read_two-none : (n : ℕ) (i o : Bytes) → read_two n i o ≡ none → 0 < n → i ≡ []
read_two-none zero i o e h = absurd (omega arith)
read_two-none (suc n) [] o e h = refl
read_two-none (suc n) (b ∷ []) o e h = cc
read_two-none (suc zero) (b ∷ c ∷ rest) o e h = cc
read_two-none (suc (suc n)) (b ∷ c ∷ rest) o e h = cc

write_one-sent :
    (bs i o i' o' : Bytes) (n : ℕ)
    → write_one bs i o ≡ some (n, (i', o'))
    → (o' ≡ o ++ take n bs) × (0 < n) × (n ≤ length bs)
write_one-sent [] i o i' o' n e = cc
write_one-sent (b ∷ bs) i o i' o' n e = ground arith

abbrev stream_laws : StreamLaws stream
stream_laws = record {
  incoming = λ s. s.0;
  sent = λ s. s.1;
  read-incoming = λ n s s' bs e h. read_two-Reads n s.0 s.1 s'.0 s'.1 bs e h;
  read_none = λ n s e h lt. read_two-none n s.0 s.1 e h;
  write-sent = λ bs s s' n e. write_one-sent bs s.0 s.1 s'.0 s'.1 n e;
}

read_body-Reads_example :
    Reads stream stream_laws 3 [] (codes "abcde", []) (some (codes "abc", (codes "de", [])))
unfolding read_body read_rest
read_body-Reads_example = read_body-Reads stream stream_laws 3 (codes "abcde", []) (omega arith)

abbrev posted : Request
posted = record {
  method = codes "POST";
  path = codes "/";
  query = [];
  headers = (codes "content-length", codes "2") ∷ [];
  body = codes "hi";
}

request_read :
    read_request stream (codes "POST / X\r\nContent-Length: 2\r\n\r\nhi!", [])
    ≡ some (posted, (codes "!", []))
unfolding read_request read_until_double_crlf read_head ends_head bytes_eq getlines request_line
    pop_cr words header_lines split_at_first put to_lower trim find stoul read_body read_rest
request_read = refl

read_request-FitsLength_example :
    (n : ℕ) × (stoul (codes "2") ≡ some n) × (n ≤ max_body_size) × (2 ≡ n)
unfolding find bytes_eq
read_request-FitsLength_example =
    read_request-FitsLength stream stream_laws
      (codes "POST / X\r\nContent-Length: 2\r\n\r\nhi!", []) (codes "!", []) posted request_read

read_until_double_crlf-FindsHead_example :
    Head.FindsHead stream stream_laws max_header_size []
      (codes "GET / X\r\n\r\nhi", [])
      (read_until_double_crlf stream (codes "GET / X\r\n\r\nhi", []))
read_until_double_crlf-FindsHead_example =
    Head.read_until_double_crlf-FindsHead stream stream_laws (codes "GET / X\r\n\r\nhi", [])
