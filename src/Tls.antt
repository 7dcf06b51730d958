-- ===== src/Tls.antt =====
-- common/include/blueboat/common/tls_socket.hpp and common/src/tls_socket.cpp: TLS contexts and
-- sockets. OpenSSL and the kernel are a parameter.
pub mod Contexts
pub mod Stream
use blueboat_cpp.Base.{
  ℕ, ◌%◌, ◌^◌, Bool, true, false, Option, none, some, ◌++◌, Bytes, codes, length, Result, ok,
  throws,
}
use blueboat_cpp.Socket.{Link, Transfer, moved, ended, failed}

-- What SSL_get_error tells, as far as it matters.
pub data SslError : Type 0 where
  want_read want_write zero_return other_error : SslError

-- A null pointer is `none`. SSL_read and SSL_write take an `int`, given as its 32 bits, and give
-- `none` for a result of 0 or below.
pub record OpenSsl : Type 1 where
  pub State : Type 0
  -- SSL_library_init, SSL_load_error_strings and OpenSSL_add_all_algorithms
  pub init : State → State
  pub ctx_new : State → Option ℕ × State
  pub use_certificate_chain_file : ℕ → Bytes → State → Bool × State
  pub use_private_key_file : ℕ → Bytes → State → Bool × State
  pub check_private_key : ℕ → State → Bool × State
  pub ctx_free : ℕ → State → State
  pub ssl_new : ℕ → State → Option ℕ × State
  pub set_fd : ℕ → ℕ → State → State
  pub ssl_accept : ℕ → State → Bool × State
  pub ssl_read : ℕ → ℕ → State → Option Bytes × State
  pub ssl_write : ℕ → Bytes → ℕ → State → Option ℕ × State
  pub get_error : ℕ → State → SslError
  pub ssl_shutdown : ℕ → State → State
  pub ssl_free : ℕ → State → State
  pub close : ℕ → State → State
  pub shutdown : ℕ → State → State

module _ (ssl : OpenSsl) where
  open ssl use {State}

  -- the library's state, and whether `once` has run
  abbrev pub Library : Type 0
  Library = Bool × State

  unfoldable pub ensure_openssl_init : Library → Library
  ensure_openssl_init (true, s) = (true, s)
  ensure_openssl_init (false, s) = (true, ssl.init s)

  abbrev or_throw : ℕ → Bytes → (State → Result ℕ × State) → Bool × State → Result ℕ × State
  or_throw ctx what next (true, s) = next s
  or_throw ctx what next (false, s) = (throws what, ssl.ctx_free ctx s)

  abbrev checked : Bytes → ℕ → State → Result ℕ × State
  checked key_file ctx s =
      or_throw ctx (codes "blueboat: TLS private key does not match certificate: " ++ key_file)
        (λ q. (ok ctx, q)) (ssl.check_private_key ctx s)

  abbrev with_key : Bytes → ℕ → State → Result ℕ × State
  with_key key_file ctx s =
      or_throw ctx (codes "blueboat: failed to load TLS private key: " ++ key_file)
        (checked key_file ctx) (ssl.use_private_key_file ctx key_file s)

  abbrev on_context : Bytes → Bytes → Option ℕ × State → Result ℕ × State
  on_context cert_file key_file (none, s) = (throws (codes "blueboat: failed to create SSL_CTX"), s)
  on_context cert_file key_file (some ctx, s) =
      or_throw ctx (codes "blueboat: failed to load TLS certificate: " ++ cert_file)
        (with_key key_file ctx) (ssl.use_certificate_chain_file ctx cert_file s)

  abbrev in_world : Library → (State → Result ℕ × State) → Result ℕ × Library
  in_world (once, s) f = let (r, s') = f s in (r, (once, s'))

  -- The context that a TlsContext holds.
  unfoldable pub create_server : Bytes → Bytes → Library → Result ℕ × Library
  unfolding ensure_openssl_init
  create_server cert_file key_file w =
      in_world (ensure_openssl_init w) (λ s. on_context cert_file key_file (ssl.ctx_new s))

  -- TlsContext::~TlsContext
  unfoldable pub destroy_context : Option ℕ → State → State
  destroy_context none s = s
  destroy_context (some ctx) s = ssl.ctx_free ctx s

  -- The constructor. Where SSL_new gives a null pointer, SSL_set_fd is called with it: `none`.
  abbrev pub attached : ℕ → Option ℕ × State → Option (ℕ × State)
  attached fd (none, s) = none
  attached fd (some p, s) = some (p, ssl.set_fd p fd s)

  unfoldable pub construct : ℕ → ℕ → State → Option (ℕ × State)
  construct fd ctx s = attached fd (ssl.ssl_new ctx s)

  abbrev close_if : Option ℕ → State → State
  close_if none s = s
  close_if (some fd) s = ssl.close fd s

  -- TlsSocket::~TlsSocket
  unfoldable pub destroy : Option ℕ → Option ℕ → State → State
  destroy none fd s = close_if fd s
  destroy (some p) fd s = close_if fd (ssl.ssl_free p (ssl.ssl_shutdown p s))

  unfoldable pub accept_server : ℕ → State → Bool × State
  accept_server p s = ssl.ssl_accept p s

  abbrev read_error : SslError → Transfer Bytes
  read_error want_read = failed true
  read_error want_write = failed true
  read_error zero_return = ended
  read_error other_error = failed false

  abbrev read_result : ℕ → Option Bytes × State → Transfer Bytes × State
  read_result p (some bs, s) = (moved bs, s)
  read_result p (none, s) = (read_error (ssl.get_error p s), s)

  unfoldable pub read : ℕ → ℕ → State → Transfer Bytes × State
  read p len s = read_result p (ssl.ssl_read p (len % 2 ^ 32) s)

  abbrev write_error : SslError → Transfer ℕ
  write_error want_read = failed true
  write_error want_write = failed true
  write_error zero_return = failed false
  write_error other_error = failed false

  abbrev write_result : ℕ → Option ℕ × State → Transfer ℕ × State
  write_result p (some n, s) = (moved n, s)
  write_result p (none, s) = (write_error (ssl.get_error p s), s)

  unfoldable pub write : ℕ → Bytes → State → Transfer ℕ × State
  write p bs s = write_result p (ssl.ssl_write p bs (length bs % 2 ^ 32) s)

  unfoldable pub shutdown_close : Option ℕ → State → State
  shutdown_close none s = s
  shutdown_close (some fd) s = ssl.shutdown fd s

  -- The virtual methods.
  abbrev pub tls_link : ℕ → Link
  tls_link p = record { State = State; read = λ n s. read p n s; write = λ bs s. write p bs s }
