-- ===== src/Server/Auth.antt =====
-- Basic authentication of the admin API in server/src/server.cpp. OpenSSL's EVP_DecodeBlock is a
-- parameter: the bytes that it writes, or `none` where it fails.
use blueboat_cpp.Http.Lines.{Request}
use blueboat_cpp.Base.{
  ℕ, ◌+◌, ◌-◌, ◌%◌, ◌≡◌, refl, inl, inr, Bool, true, false, not, ◌||◌, Option, none, some, [], ◌∷◌,
  ◌++◌, ltb, ◌==◌, if◌then◌else◌, Bool-cases, Bytes, codes, bytes_eq, is_empty, strip_prefix,
  split_at_first, Lacks, split_at_first-append, length, take, Assoc, find, Result, ◌>>=◌, ok,
  throws,
}

module _ (decode_block : Bytes → Option Bytes) where
  -- A last or a last but one byte that is `=` counts as padding.
  abbrev padding : Bytes → ℕ
  padding (a ∷ b ∷ []) = (if b == b'=' then 1 else 0) + (if a == b'=' then 1 else 0)
  padding (a ∷ s) = padding s
  padding [] = 0

  -- `resize` to a negative number of bytes throws.
  abbrev resized : Bytes → Option Bytes → Result Bytes
  resized text none = ok []
  resized text (some written) =
      if ltb (length written) (padding text)
      then throws (codes "basic_string::_M_replace_aux")
      else ok (take (length written - padding text) written)

  unfoldable pub base64_decode : Bytes → Result Bytes
  base64_decode text =
      if is_empty text || not (length text % 4 == 0)
      then ok []
      else resized text (decode_block text)

  abbrev pub has_password : Option Bytes → Bytes → Bool
  has_password none pass = false
  has_password (some expected) pass = bytes_eq expected pass

  abbrev knows : Assoc Bytes → Option (Bytes × Bytes) → Bool
  knows admins none = false
  knows admins (some (user, pass)) = has_password (find user admins) pass

  abbrev with_credentials : Assoc Bytes → Option Bytes → Result Bool
  with_credentials admins none = ok false
  with_credentials admins (some text) = do
    decoded ← base64_decode text
    ok (knows admins (split_at_first b':' decoded))

  abbrev authorization : Option Bytes → Option Bytes
  authorization none = none
  authorization (some value) = strip_prefix (codes "Basic ") value

  unfoldable pub check_basic_auth : Assoc Bytes → Request → Result Bool
  unfolding base64_decode find split_at_first strip_prefix
  check_basic_auth admins request =
      if is_empty admins
      then ok true
      else with_credentials admins (authorization (find (codes "authorization") request.headers))

  -- A request with the credentials of a user, whose name has no colon, in an encoding that decodes
  -- to them, is let in if there are no admins or the user is one with that password, and it is not
  -- let in otherwise.
  pub check_basic_auth-credentials :
      (admins : Assoc Bytes) (request : Request) (text user pass : Bytes)
      → find (codes "authorization") request.headers ≡ some (codes "Basic " ++ text)
      → base64_decode text ≡ ok (user ++ b':' ∷ pass)
      → Lacks b':' user
      → check_basic_auth admins request
        ≡ ok (if is_empty admins then true else has_password (find user admins) pass)
  unfolding check_basic_auth strip_prefix
  check_basic_auth-credentials admins request text user pass sent decodes plain =
      elim (Bool-cases (is_empty admins)) [
        | inl nobody ↦ rw nobody refl
        | inr some_admins ↦
            rw (some_admins, sent, decodes, split_at_first-append b':' user pass plain) refl
      ]
