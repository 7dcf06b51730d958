-- ===== src/Tls/Stream.antt =====
-- What a TLS socket does to the data of its session.
use blueboat_cpp.Tls.{
  OpenSsl, SslError, want_read, want_write, zero_return, other_error, read_error, read_result, read,
  write_error, write_result, write, tls_link,
}
use blueboat_cpp.Base.{
  ℕ, ◌%◌, ◌^◌, ◌≤◌, ◌<◌, ◌≡◌, refl, sym, ap, ◌∙◌, ◌≢◌, ◌⊎◌, inl, inr, true, Option, none, some, [],
  ◌++◌, arith, Bytes, length, take,
}
use blueboat_cpp.Socket.{Transfer, moved, ended, failed, TransferLaws}

module _ (ssl : OpenSsl) where
  open ssl use {State}

  -- SSL_get_error tells that the call is to be made again.
  abbrev pub IsToRetry : SslError → Type 0
  IsToRetry e = (e ≡ want_read) ⊎ (e ≡ want_write)

  -- What SSL_read and SSL_write are documented to do to the data of a session: a read for a number
  -- of bytes that is positive as an `int`, and that gives none, has come to the end of the data where
  -- SSL_get_error tells SSL_ERROR_ZERO_RETURN; a call that is to be made again has moved nothing.
  pub record SessionLaws (p : ℕ) (plain sent : State → Bytes) : Type 0 where
    pub ssl_read-plain :
        (n : ℕ) (s : State) (bs : Bytes) (s' : State)
        → ssl.ssl_read p n s ≡ (some bs, s')
        → (plain s ≡ bs ++ plain s') × (0 < length bs) × (length bs ≤ n)
    pub ssl_read-zero_return :
        (n : ℕ) (s s' : State)
        → ssl.ssl_read p n s ≡ (none, s')
        → ssl.get_error p s' ≡ zero_return
        → 0 < n
        → n < 2 ^ 31
        → plain s ≡ []
    pub ssl_read-retry :
        (n : ℕ) (s s' : State)
        → ssl.ssl_read p n s ≡ (none, s')
        → IsToRetry (ssl.get_error p s')
        → plain s' ≡ plain s
    pub ssl_write-sent :
        (bs : Bytes) (n : ℕ) (s s' : State) (m : ℕ)
        → ssl.ssl_write p bs n s ≡ (some m, s')
        → (sent s' ≡ sent s ++ take m bs) × (0 < m) × (m ≤ n)
    pub ssl_write-retry :
        (bs : Bytes) (n : ℕ) (s s' : State)
        → ssl.ssl_write p bs n s ≡ (none, s')
        → IsToRetry (ssl.get_error p s')
        → sent s' ≡ sent s

  read_error-moved : (e : SslError) (bs : Bytes) → read_error ssl e ≡ moved bs → ⊥
  read_error-moved want_read bs h = cc
  read_error-moved want_write bs h = cc
  read_error-moved zero_return bs h = cc
  read_error-moved other_error bs h = cc

  read_error-ended : (e : SslError) → read_error ssl e ≡ ended → e ≡ zero_return
  read_error-ended want_read h = cc
  read_error-ended want_write h = cc
  read_error-ended zero_return h = refl
  read_error-ended other_error h = cc

  read_error-again : (e : SslError) → read_error ssl e ≡ failed true → IsToRetry e
  read_error-again want_read h = inl refl
  read_error-again want_write h = inr refl
  read_error-again zero_return h = cc
  read_error-again other_error h = cc

  write_error-moved : (e : SslError) (n : ℕ) → write_error ssl e ≡ moved n → ⊥
  write_error-moved want_read n h = cc
  write_error-moved want_write n h = cc
  write_error-moved zero_return n h = cc
  write_error-moved other_error n h = cc

  write_error-again : (e : SslError) → write_error ssl e ≡ failed true → IsToRetry e
  write_error-again want_read h = inl refl
  write_error-again want_write h = inr refl
  write_error-again zero_return h = cc
  write_error-again other_error h = cc

  read-moved :
      (p : ℕ) (r : Option Bytes × State) (bs : Bytes) (s : State)
      → read_result ssl p r ≡ (moved bs, s)
      → r ≡ (some bs, s)
  read-moved p (some b, t) bs s e = ground arith
  read-moved p (none, t) bs s e = absurd (read_error-moved (ssl.get_error p t) bs (ap (λ q. q.0) e))

  read-failed :
      (p : ℕ) (r : Option Bytes × State) (o : Transfer Bytes) (s : State)
      → read_result ssl p r ≡ (o, s)
      → ((bs : Bytes) → o ≢ moved bs)
      → (r ≡ (none, s)) × (read_error ssl (ssl.get_error p s) ≡ o)
  read-failed p (some b, t) o s e h = absurd (h b (sym (ap (λ q. q.0) e)))
  read-failed p (none, t) o s e h =
      let same : t ≡ s = ap (λ q. q.1) e in
      (
        ap (λ u. (none, u)) same,
        ap (λ u. read_error ssl (ssl.get_error p u)) (sym same) ∙ ap (λ q. q.0) e,
      )

  write-moved :
      (p : ℕ) (r : Option ℕ × State) (n : ℕ) (s : State)
      → write_result ssl p r ≡ (moved n, s)
      → r ≡ (some n, s)
  write-moved p (some b, t) n s e = ground arith
  write-moved p (none, t) n s e = absurd (write_error-moved (ssl.get_error p t) n (ap (λ q. q.0) e))

  write-again :
      (p : ℕ) (r : Option ℕ × State) (s : State)
      → write_result ssl p r ≡ (failed true, s)
      → (r ≡ (none, s)) × (write_error ssl (ssl.get_error p s) ≡ failed true)
  write-again p (some b, t) s e = cc
  write-again p (none, t) s e =
      let same : t ≡ s = ap (λ q. q.1) e in
      (
        ap (λ u. (none, u)) same,
        ap (λ u. write_error ssl (ssl.get_error p u)) (sym same) ∙ ap (λ q. q.0) e,
      )

  -- Where SSL_read and SSL_write do as documented, a TLS socket keeps the interface's promise for the
  -- data of its session: a read gives the next bytes, at least one and no more than asked for; it
  -- gives 0 only at their end, where fewer than 2 GiB are asked for, and -1 with EAGAIN only where
  -- nothing is lost; a write sends a prefix, at least a byte, or, with EAGAIN, nothing, also where a
  -- length does not fit the `int` that OpenSSL takes.
  pub tls_link-AreTransferLaws :
      (p : ℕ) (plain sent : State → Bytes)
      → SessionLaws p plain sent
      → TransferLaws (tls_link ssl p) plain sent
  unfolding read write
  tls_link-AreTransferLaws p plain sent laws = record {
    read-moved = λ n s s' bs e some_byte.
        let (a, b, c) =
          laws.ssl_read-plain (n % 2 ^ 32) s bs s'
            (read-moved p (ssl.ssl_read p (n % 2 ^ 32) s) bs s' e) in
        (a, b, omega arith);
    read-ended = λ n s s' e some_byte lt.
        let (none_read, told) =
          read-failed p (ssl.ssl_read p (n % 2 ^ 32) s) ended s' e (λ bs h. cc) in
        laws.ssl_read-zero_return (n % 2 ^ 32) s s' none_read (read_error-ended _ told)
          (omega arith) (omega arith);
    read-again = λ n s s' e.
        let (none_read, told) =
          read-failed p (ssl.ssl_read p (n % 2 ^ 32) s) (failed true) s' e (λ bs h. cc) in
        laws.ssl_read-retry (n % 2 ^ 32) s s' none_read (read_error-again _ told);
    write-moved = λ bs s s' n e.
        let (a, b, c) =
          laws.ssl_write-sent bs (length bs % 2 ^ 32) s s' n
            (write-moved p (ssl.ssl_write p bs (length bs % 2 ^ 32) s) n s' e) in
        (a, b, omega arith);
    write-again = λ bs s s' e.
        let (none_sent, told) = write-again p (ssl.ssl_write p bs (length bs % 2 ^ 32) s) s' e in
        laws.ssl_write-retry bs (length bs % 2 ^ 32) s s' none_sent (write_error-again _ told);
  }
