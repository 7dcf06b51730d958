-- ===== src/Socket.antt =====
-- common/include/blueboat/common/socket.hpp: the interface that plain and TLS sockets implement, with
-- what a result of 0 or below is, and as the parts see it that only ask whether a result is positive.
-- Socket/Plain and Tls are the two that implement it.
pub mod Plain
use blueboat_cpp.Base.{
  ℕ, ◌^◌, ◌≤◌, ◌<◌, ◌≡◌, refl, ◌≢◌, Bool, true, Option, none, some, [], ◌++◌, arith, Bytes, length,
  take,
}

-- A `long` that `read` and `write` return: a count, 0, or -1 and whether errno is set to EAGAIN.
pub data Transfer {ℓ} (A : Type ℓ) : Type ℓ where
  moved : A → Transfer A
  ended : Transfer A
  failed : Bool → Transfer A

pub record Link : Type 1 where
  pub State : Type 0
  pub read : ℕ → State → Transfer Bytes × State
  pub write : Bytes → State → Transfer ℕ × State

-- What the classes promise of the bytes still to come and the bytes sent: a read that gives bytes
-- gives at least one and at most as many of the next ones as were asked for; it gives 0 only where
-- none are left, or where more are asked for than an `int` holds, which is OpenSSL's type; one that is
-- to be tried again has lost none. A write takes a prefix of at least one byte; one that is to be
-- tried again has sent nothing.
pub record TransferLaws (link : Link) (incoming sent : link.State → Bytes) : Type 0 where
  pub read-moved :
      (n : ℕ) (s s' : link.State) (bs : Bytes)
      → link.read n s ≡ (moved bs, s')
      → 0 < n
      → (incoming s ≡ bs ++ incoming s') × (0 < length bs) × (length bs ≤ n)
  pub read-ended :
      (n : ℕ) (s s' : link.State)
      → link.read n s ≡ (ended, s')
      → 0 < n
      → n < 2 ^ 31
      → incoming s ≡ []
  pub read-again :
      (n : ℕ) (s s' : link.State) → link.read n s ≡ (failed true, s') → incoming s' ≡ incoming s
  pub write-moved :
      (bs : Bytes) (s s' : link.State) (n : ℕ)
      → link.write bs s ≡ (moved n, s')
      → (sent s' ≡ sent s ++ take n bs) × (0 < n) × (n ≤ length bs)
  pub write-again :
      (bs : Bytes) (s s' : link.State) → link.write bs s ≡ (failed true, s') → sent s' ≡ sent s

pub record Socket : Type 1 where
  pub State : Type 0
  -- `none` is a result of 0 or below: the end of the stream, an error or a timeout
  pub read : ℕ → State → Option (Bytes × State)
  pub write : Bytes → State → Option (ℕ × State)

-- A read gives at least one and at most as many of the next bytes as were asked for, and fails
-- only where none are left, or where more are asked for than an `int` holds, which is OpenSSL's
-- type. A write takes a prefix of at least one byte.
pub record StreamLaws (socket : Socket) : Type 0 where
  pub incoming : socket.State → Bytes
  pub sent : socket.State → Bytes
  pub read-incoming :
      (n : ℕ) (s s' : socket.State) (bs : Bytes)
      → socket.read n s ≡ some (bs, s')
      → 0 < n
      → (incoming s ≡ bs ++ incoming s') × (0 < length bs) × (length bs ≤ n)
  pub read_none :
      (n : ℕ) (s : socket.State) → socket.read n s ≡ none → 0 < n → n < 2 ^ 31 → incoming s ≡ []
  pub write-sent :
      (bs : Bytes) (s s' : socket.State) (n : ℕ)
      → socket.write bs s ≡ some (n, s')
      → (sent s' ≡ sent s ++ take n bs) × (0 < n) × (n ≤ length bs)

abbrev pub positive : {S A : Type 0} → Transfer A × S → Option (A × S)
positive (moved a, s) = some (a, s)
positive (ended, s) = none
positive (failed again, s) = none

-- A socket for those that take every result of 0 or below for the end.
abbrev pub seen : Link → Socket
seen link = record {
  State = link.State;
  read = λ n s. positive (link.read n s);
  write = λ bs s. positive (link.write bs s);
}

positive-some :
    {S A : Type 0} (r : Transfer A × S) (a : A) (s : S)
    → positive r ≡ some (a, s)
    → r ≡ (moved a, s)
positive-some (moved b, t) a s e = ground arith
positive-some (ended, t) a s e = cc
positive-some (failed again, t) a s e = cc

positive-none :
    {S A : Type 0} (r : Transfer A × S)
    → positive r ≡ none
    → ((again : Bool) → r.0 ≢ failed again)
    → r ≡ (ended, r.1)
positive-none (moved b, t) e h = cc
positive-none (ended, t) e h = refl
positive-none (failed again, t) e h = absurd (h again refl)

-- Where no read fails, by an error, a signal or a time limit, such a socket is a stream.
seen-IsStream :
    (link : Link) (incoming sent : link.State → Bytes)
    → TransferLaws link incoming sent
    → ((n : ℕ) (s : link.State) (again : Bool) → (link.read n s).0 ≢ failed again)
    → (stream : StreamLaws (seen link)) × (stream.incoming ≡ incoming) × (stream.sent ≡ sent)
seen-IsStream link incoming sent laws sound = (
  record {
    incoming = incoming;
    sent = sent;
    read-incoming =
        λ n s s' bs e. laws.read-moved n s s' bs (positive-some (link.read n s) bs s' e);
    read_none = λ n s e.
        laws.read-ended n s (link.read n s).1 (positive-none (link.read n s) e (sound n s));
    write-sent = λ bs s s' n e. laws.write-moved bs s s' n (positive-some (link.write bs s) n s' e);
  },
  refl,
  refl,
)
