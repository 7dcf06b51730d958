-- ===== src/Client/Handshaking.antt =====
-- The path of a client's handshake, as the server reads it: client/src/client.cpp against
-- common/src/http.cpp and server/src/server.cpp.
use blueboat_cpp.RandomId.{random_id, alphabet, random_id-Lacks}
use blueboat_cpp.Client.Connection.{handshake_target}
use blueboat_cpp.Http.Text.{getlines}
use blueboat_cpp.Http.Query.{render, put_all, parse_query-render}
use blueboat_cpp.Server.Connection.{is_socket_path, client_info}
use blueboat_cpp.Http.Lines.{from_words, Request, query_pairs, parse_query}
use blueboat_cpp.Base.{
  ℕ, ◌<◌, ◌≡◌, refl, inl, inr, true, false, Option, none, some, List, [], ◌∷◌, ◌++◌, arith, ◌==◌,
  if◌then◌else◌, Bool-cases, Bytes, codes, bytes_eq, is_empty, split_at_first, Lacks, any, Assoc,
  find, put,
}

abbrev first_line : Bytes → List Bytes
first_line target = codes "GET" ∷ target ∷ codes "HTTP/1.1" ∷ []

-- What the server makes of the request line of a client that has this id.
abbrev pub Understood : Bytes → Bytes → Bytes → Bytes → Option Request → Type 0
Understood id random session_id ip none = ⊥
Understood id random session_id ip (some request) =
    (is_socket_path request.path ≡ true)
    × (bytes_eq request.method (codes "GET") ≡ true)
    × ((client_info random session_id ip request).id ≡ (if is_empty id then random else id))

abbrev pairs : Bytes → Assoc Bytes
pairs id = (codes "transport", codes "websocket") ∷ (codes "id", id) ∷ []

any-Lacks : (c : ℕ) (xs : Bytes) → any (λ x. x == c) xs ≡ false → Lacks c xs
any-Lacks c [] h = tt
any-Lacks c (x ∷ xs) h = elim (Bool-cases (x == c)) [
  | inl e ↦ absurd (ground arith)
  | inr e ↦ (e, any-Lacks c xs (ground arith))
]

plain_pair :
    (k v : Bytes)
    → any (λ x. x == b'=') k ≡ false
    → any (λ x. x == b'&') k ≡ false
    → Lacks b'&' v
    → Lacks b'=' k × Lacks b'&' k × Lacks b'&' v
plain_pair k v h₁ h₂ h₃ = (any-Lacks b'=' k h₁, any-Lacks b'&' k h₂, h₃)

query-pairs :
    (id : Bytes)
    → Lacks b'&' id
    → parse_query (codes "EIO=3&transport=websocket&id=" ++ id)
      ≡ put_all [] ((codes "EIO", codes "3") ∷ pairs id)
unfolding render
query-pairs id h = parse_query-render (codes "EIO") (codes "3") (pairs id) (
  plain_pair (codes "EIO") (codes "3") refl refl (any-Lacks b'&' (codes "3") refl),
  (
    plain_pair (codes "transport") (codes "websocket") refl refl
        (any-Lacks b'&' (codes "websocket") refl),
    (plain_pair (codes "id") id refl refl h, tt),
  ),
)

-- The handshake of a client whose id holds no `&`, put as the words of a request line, is read as a
-- GET of the web socket's path, and the server takes the client's id for its own, or its random
-- one where the client has none yet.
pub client_info-handshake_target :
    (id random session_id ip : Bytes)
    → Lacks b'&' id
    → Understood id random session_id ip (from_words (first_line (handshake_target id)))
unfolding client_info parse_query query_pairs getlines split_at_first find put bytes_eq
client_info-handshake_target [] random session_id ip h = (refl, refl, refl)
client_info-handshake_target (c ∷ id) random session_id ip h =
    (refl, refl, rw (query-pairs (c ∷ id) h) refl)

-- A client whose id is one that `random_id` makes from at least one draw, as the server's are, is
-- known by that id when it connects again: the handshake's path is the web socket's, and the server
-- reads the id out of it.
pub client_info-random_id :
    (n : ℕ) (draws : ℕ → ℕ) (random session_id ip : Bytes)
    → 0 < n
    → ((i : ℕ) → draws i < 64)
    → Understood
        (random_id n draws)
        random
        session_id
        ip
        (from_words (first_line (handshake_target (random_id n draws))))
client_info-random_id n draws random session_id ip pos h =
    client_info-handshake_target (random_id n draws) random session_id ip
      (random_id-Lacks n b'&' draws h (any-Lacks b'&' alphabet refl)).1
