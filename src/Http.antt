-- ===== src/Http.antt =====
-- common/include/blueboat/common/http.hpp and common/src/http.cpp: one HTTP request is read from a
-- socket, and one response written. Text is in Http/Text, the request's lines in Http/Lines.
-- The loops run on the number of bytes that may still come; `none` is std::nullopt.
pub mod Text
pub mod Lines
pub mod Body
pub mod Head
pub mod Query
pub mod Limits
use blueboat_cpp.Base.{
  ℕ, zero, suc, ◌-◌, ◌*◌, Bool, true, false, ◌&&◌, Option, none, some, List, [], ◌∷◌, ◌++◌, ltb,
  leb, if◌then◌else◌, Bytes, codes, bytes_eq, length, drop, Assoc, find,
}
use blueboat_cpp.Socket.{Socket}
use Text.{getlines, stoul, to_string}
use Lines.{Request, request_line, header_lines}

abbrev pub max_header_size : ℕ
max_header_size = 64 * 1024

abbrev pub max_body_size : ℕ
max_body_size = 8 * 1024 * 1024

abbrev pub double_crlf : Bytes
double_crlf = codes "\r\n\r\n"

-- buf.size() >= 4 && buf.compare(buf.size() - 4, 4, "\r\n\r\n") == 0
unfoldable pub ends_head : Bytes → Bool
unfolding bytes_eq
ends_head buf = leb 4 (length buf) && bytes_eq (drop (length buf - 4) buf) double_crlf

module _ (socket : Socket) where
  open socket use {State}

  -- The first argument is `MAX_HEADER_SIZE - buf.size()`.
  unfoldable pub read_head : ℕ → Bytes → State → Option (Bytes × State)
  unfolding ends_head
  read_head zero buf s = none
  read_head (suc room) buf s = elim (socket.read 1 s) [
    | none ↦ none
    | some (got, s') ↦
        let buf' = buf ++ got in
        elim (ends_head buf') [ true ↦ some (buf', s') | false ↦ read_head room buf' s' ]
  ]

  unfoldable pub read_until_double_crlf : State → Option (Bytes × State)
  unfolding read_head
  read_until_double_crlf s = read_head max_header_size [] s

  -- The body's bytes received so far, and `content_length - received`; a read gives at least one
  -- byte, so that the missing number is fuel enough.
  unfoldable pub read_rest : ℕ → ℕ → Bytes → State → Option (Bytes × State)
  read_rest fuel zero body s = some (body, s)
  read_rest zero (suc missing) body s = none
  read_rest (suc fuel) (suc missing) body s = elim (socket.read (suc missing) s) [
    | none ↦ none
    | some (got, s') ↦ read_rest fuel (suc missing - length got) (body ++ got) s'
  ]

  unfoldable pub read_body : ℕ → State → Option (Bytes × State)
  unfolding read_rest
  read_body content_length s = read_rest content_length content_length [] s

  abbrev add_body : Request → Option (Bytes × State) → Option (Request × State)
  add_body req none = none
  add_body req (some (body, s)) = some (record req { body = body }, s)

  abbrev with_length : Request → State → Option ℕ → Option (Request × State)
  with_length req s none = none
  with_length req s (some content_length) =
      if ltb max_body_size content_length then none else add_body req (read_body content_length s)

  abbrev with_body : Request → State → Option Bytes → Option (Request × State)
  with_body req s none = some (req, s)
  with_body req s (some value) = with_length req s (stoul value)

  abbrev with_headers : List Bytes → State → Option Request → Option (Request × State)
  with_headers lines s none = none
  with_headers lines s (some req) =
      let headers = header_lines [] lines in
      with_body (record req { headers = headers }) s (find (codes "content-length") headers)

  abbrev from_lines : State → List Bytes → Option (Request × State)
  from_lines s [] = none
  from_lines s (first ∷ lines) = with_headers lines s (request_line first)

  unfoldable pub read_request : State → Option (Request × State)
  unfolding read_until_double_crlf getlines find
  read_request s = elim (read_until_double_crlf s) [
    | none ↦ none
    | some (raw, s') ↦ from_lines s' (getlines b'\n' raw)
  ]

  -- What is left to send; a failed write ends the loop, and the response, without a word.
  unfoldable pub write_rest : ℕ → Bytes → State → State
  write_rest fuel [] s = s
  write_rest zero (c ∷ rest) s = s
  write_rest (suc fuel) (c ∷ rest) s = elim (socket.write (c ∷ rest) s) [
    | none ↦ s
    | some (n, s') ↦ write_rest fuel (drop n (c ∷ rest)) s'
  ]

unfoldable pub extra_lines : Assoc Bytes → Bytes
extra_lines [] = []
extra_lines ((key, value) ∷ extra) = key ++ codes ": " ++ value ++ codes "\r\n" ++ extra_lines extra

unfoldable pub response : ℕ → Bytes → Bytes → Bytes → Assoc Bytes → Bytes
unfolding to_string extra_lines
response status status_text content_type body extra =
    codes "HTTP/1.1 "
    ++ to_string status
    ++ codes " "
    ++ status_text
    ++ codes "\r\nContent-Type: "
    ++ content_type
    ++ codes "\r\nContent-Length: "
    ++ to_string (length body)
    ++ codes "\r\nConnection: close\r\n"
    ++ extra_lines extra
    ++ codes "\r\n"
    ++ body

module _ (socket : Socket) where
  unfoldable pub write_response :
      ℕ → Bytes → Bytes → Bytes → Assoc Bytes → socket.State → socket.State
  unfolding response write_rest
  write_response status status_text content_type body extra s =
      let text = response status status_text content_type body extra in
      write_rest socket (length text) text s
