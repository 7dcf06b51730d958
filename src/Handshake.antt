-- ===== src/Handshake.antt =====
-- common/src/ws_handshake.cpp: the keys of the web socket handshake. OpenSSL's EVP_Digest with
-- SHA-1 and EVP_EncodeBlock are parameters, and random bytes an argument.
use blueboat_cpp.Base.{ℕ, ◌%◌, List, [], ◌∷◌, ◌++◌, Bytes, codes}

-- WS_GUID
abbrev pub ws_guid : Bytes
ws_guid = codes "258EAFA5-E914-47DA-95CA-C5AB0DC85B11"

module _ (encode_block : Bytes → Bytes) where
  -- `out` has room for the block and its final zero, and is cut to what was written.
  unfoldable pub base64_encode : Bytes → Bytes
  base64_encode bytes = encode_block bytes

  abbrev low_bytes : List ℕ → Bytes
  low_bytes [] = []
  low_bytes (n ∷ ns) = n % 256 ∷ low_bytes ns

  -- The arguments are the 16 numbers that the random device gives.
  unfoldable pub generate_client_key : List ℕ → Bytes
  unfolding base64_encode
  generate_client_key numbers = base64_encode (low_bytes numbers)

  unfoldable pub compute_accept : (Bytes → Bytes) → Bytes → Bytes
  unfolding base64_encode
  compute_accept sha1 client_key = base64_encode (sha1 (client_key ++ ws_guid))
