-- ===== src/Http/Limits.antt =====
-- What holds of every request that was read.
use blueboat_cpp.Base.{
  ℕ, ◌≤◌, ◌≡◌, refl, inl, inr, Option, none, some, List, [], ◌∷◌, arith, ltb, Bool-cases,
  Option-cases, Bytes, codes, length, length-take, find,
}
use blueboat_cpp.Socket.{Socket, StreamLaws}
use blueboat_cpp.Http.{
  read_request, max_body_size, add_body, read_until_double_crlf, with_length, with_body,
  with_headers, from_lines,
}
use blueboat_cpp.Http.Text.{stoul, getlines, words}
use blueboat_cpp.Http.Lines.{Request, request_line, pop_cr, header_lines, from_words}
use blueboat_cpp.Http.Body.{read_body-Reads, Reads}

-- The body is as long as the header says, which is 8 MiB at most, or is empty where there is no
-- such header.
abbrev pub FitsLength : Bytes → Option Bytes → Type 0
FitsLength body none = body ≡ []
FitsLength body (some value) =
    (n : ℕ) × (stoul value ≡ some n) × (n ≤ max_body_size) × (length body ≡ n)

from_words-body : (ws : List Bytes) (req : Request) → from_words ws ≡ some req → req.body ≡ []
from_words-body [] req e = cc
from_words-body (a ∷ []) req e = cc
from_words-body (a ∷ b ∷ []) req e = cc
from_words-body (a ∷ b ∷ c ∷ ws) req e = ground arith

request_line-body : (line : Bytes) (req : Request) → request_line line ≡ some req → req.body ≡ []
unfolding request_line
request_line-body line req e = from_words-body (words (pop_cr line)) req e

module _ (socket : Socket) (laws : StreamLaws socket) where
  open socket use {State}

  add_body-lem :
      (req out : Request) (s s' : State) (n : ℕ) (o : Option (Bytes × State))
      → Reads socket laws n [] s o
      → add_body socket req o ≡ some (out, s')
      → (length out.body ≡ n) × (out.headers ≡ req.headers)
  add_body-lem req out s s' n none r e = cc
  add_body-lem req out s s' n (some (b, t)) r e =
      (ground (arith, length-take n (laws.incoming s)), ground arith)

  with_length-lem :
      (req out : Request) (s s' : State) (value : Bytes) (o : Option ℕ)
      → stoul value ≡ o
      → with_length socket req s o ≡ some (out, s')
      → FitsLength out.body (some value) × (out.headers ≡ req.headers)
  with_length-lem req out s s' value none h e = cc
  with_length-lem req out s s' value (some n) h e = elim (Bool-cases (ltb max_body_size n)) [
    | inl long ↦ cc (rw long at e)
    | inr fits ↦
        let (len, same) =
          add_body-lem req out s s' n _ (read_body-Reads socket laws n s (ground arith))
            (rw fits at e) in
        ((n, h, ground arith, len), same)
  ]

  with_body-lem :
      (req out : Request) (s s' : State) (o : Option Bytes)
      → req.body ≡ []
      → with_body socket req s o ≡ some (out, s')
      → FitsLength out.body o × (out.headers ≡ req.headers)
  with_body-lem req out s s' none h e = (ground arith, ground arith)
  with_body-lem req out s s' (some value) h e =
      with_length-lem req out s s' value (stoul value) refl e

  with_headers-lem :
      (lines : List Bytes) (out : Request) (s s' : State) (o : Option Request)
      → ((req : Request) → o ≡ some req → req.body ≡ [])
      → with_headers socket lines s o ≡ some (out, s')
      → FitsLength out.body (find (codes "content-length") out.headers)
  with_headers-lem lines out s s' none h e = cc
  with_headers-lem lines out s s' (some req) h e =
      let headers = header_lines [] lines in
      let (fits, same) =
        with_body-lem (record req { headers = headers }) out s s'
          (find (codes "content-length") headers) (h req refl) e in
      rw same fits

  from_lines-lem :
      (lines : List Bytes) (out : Request) (s s' : State)
      → from_lines socket s lines ≡ some (out, s')
      → FitsLength out.body (find (codes "content-length") out.headers)
  from_lines-lem [] out s s' e = cc
  from_lines-lem (first ∷ lines) out s s' e =
      with_headers-lem lines out s s' (request_line first) (request_line-body first) e

  -- On a socket that is a stream, every request that is read has a body of the length that its
  -- Content-Length header gives, 8 MiB at most, and an empty body where it has no such header.
  pub read_request-FitsLength :
      (s s' : State) (req : Request)
      → read_request socket s ≡ some (req, s')
      → FitsLength req.body (find (codes "content-length") req.headers)
  unfolding read_request
  read_request-FitsLength s s' req e = elim (Option-cases (read_until_double_crlf socket s)) [
    | inl none_read ↦ cc (rw none_read at e)
    | inr ((raw, t), found) ↦ from_lines-lem (getlines b'\n' raw) req t s' (rw found at e)
  ]
