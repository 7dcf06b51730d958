-- ===== src/WsConnection/Receiving.antt =====
-- The messages that a connection passes on, whatever the pieces in which its bytes arrive.
use mathlib.Core.Path.{subst}
use mathlib.Core.List.{append_assoc, append-nil}
use blueboat_cpp.Socket.{Socket}
use blueboat_cpp.WsConnection.{
  Wslay, Callbacks, Io, send_cb, on_msg_recv_cb, callbacks, recv_cb, buffer_size,
}
use blueboat_cpp.Base.{
  ℕ, zero, suc, ◌≤◌, ◌<◌, ◌≡◌, refl, sym, ap, ◌∙◌, inl, inr, Bool, true, Option, none, some, List,
  [], ◌∷◌, ◌++◌, arith, leb, if◌then◌else◌, Option-cases, Bytes, length, take, drop,
  length-take-drop, take-append-drop, length-take,
}

module _ {S : Type 0} (cbs : Callbacks S) where
  abbrev pub hand : List (ℕ × Bytes) → S → S
  hand [] s = s
  hand ((opcode, message) ∷ ms) s = hand ms (cbs.on_msg_recv opcode message s)

-- Reading until the callback has no more, which it is asked for at most one time more than the
-- number: each piece is fed to the frames, and the messages that it completes are handed over.
pub data Receives {S R : Type 0} (feed : Bytes → R → Option (List (ℕ × Bytes) × R)) (len : ℕ)
    (cbs : Callbacks S) : ℕ → R → S → R → S → Type 0 where
  blocked :
      {n : ℕ} {r : R} {s s' : S} → cbs.recv len s ≡ (none, s') → Receives feed len cbs n r s r s'
  got :
      {n : ℕ} {r r₁ r' : R} {s s₁ s' : S} (bs : Bytes) (ms : List (ℕ × Bytes))
      → cbs.recv len s ≡ (some bs, s₁)
      → feed bs r ≡ some (ms, r₁)
      → Receives feed len cbs n r₁ (hand cbs ms s₁) r' s'
      → Receives feed len cbs (suc n) r s r' s'

-- Sending calls nothing but the callback that writes.
pub data Sends {S : Type 0} (cbs : Callbacks S) : S → S → Type 0 where
  sent_all : {s : S} → Sends cbs s s
  sent : {s s' : S} (bs : Bytes) → Sends cbs (cbs.send bs s).1 s' → Sends cbs s s'

module _ {R : Type 0} (feed : Bytes → R → Option (List (ℕ × Bytes) × R)) where
  abbrev pub joined :
      List (ℕ × Bytes) → Option (List (ℕ × Bytes) × R) → Option (List (ℕ × Bytes) × R)
  joined ms none = none
  joined ms (some (ns, r)) = some (ms ++ ns, r)

  -- Feeding more bytes.
  abbrev pub then_feed : Bytes → Option (List (ℕ × Bytes) × R) → Option (List (ℕ × Bytes) × R)
  then_feed bs none = none
  then_feed bs (some (ms, r)) = joined ms (feed bs r)

  -- The two parts of what was fed in two pieces.
  pub record Parts (bs : Bytes) (o : Option (List (ℕ × Bytes) × R)) (ms : List (ℕ × Bytes)) (r' : R)
      : Type 0 where
    pub ms₁ : List (ℕ × Bytes)
    pub ms₂ : List (ℕ × Bytes)
    pub r₁ : R
    pub first : o ≡ some (ms₁, r₁)
    pub second : feed bs r₁ ≡ some (ms₂, r')
    pub together : ms₁ ++ ms₂ ≡ ms

  joined-Parts :
      (bs : Bytes) (ms₁ ms : List (ℕ × Bytes)) (r₁ r' : R) (p : Option (List (ℕ × Bytes) × R))
      → feed bs r₁ ≡ p
      → joined ms₁ p ≡ some (ms, r')
      → Parts bs (some (ms₁, r₁)) ms r'
  joined-Parts bs ms₁ ms r₁ r' none q e = absurd cc
  joined-Parts bs ms₁ ms r₁ r' (some (ms₂, r₂)) q e = record {
    ms₁ = ms₁;
    ms₂ = ms₂;
    r₁ = r₁;
    first = refl;
    second = q ∙ cc;
    together = cc;
  }

  pub then_feed-Parts :
      (bs : Bytes) (o : Option (List (ℕ × Bytes) × R)) (ms : List (ℕ × Bytes)) (r' : R)
      → then_feed bs o ≡ some (ms, r')
      → Parts bs o ms r'
  then_feed-Parts bs none ms r' e = absurd cc
  then_feed-Parts bs (some (ms₁, r₁)) ms r' e = joined-Parts bs ms₁ ms r₁ r' (feed bs r₁) refl e

-- What wslay's documentation says of an input without error: what its frames make of the bytes
-- depends on the bytes and not on the pieces; `event_recv` reads until there is no more; and
-- `event_send` leaves the reading alone.
pub record WslayLaws (wslay : Wslay) : Type 1 where
  pub Reading : Type 0
  pub reading : wslay.Context → Reading
  pub feed : Bytes → Reading → Option (List (ℕ × Bytes) × Reading)
  -- what a new context has read
  pub start : Bool → Reading
  pub context_init-reading : (b : Bool) → reading (wslay.context_init b) ≡ start b
  pub feed-nil : (r : Reading) → feed [] r ≡ some ([], r)
  pub feed-append :
      (bs' bs : Bytes) (r : Reading) → feed (bs' ++ bs) r ≡ then_feed feed bs (feed bs' r)
  pub len : ℕ
  pub len_pos : 0 < len
  pub event_recv-Receives :
      {S : Type 0} (cbs : Callbacks S) (ctx : wslay.Context) (r' : Reading) (s s' : S)
      → Receives feed len cbs buffer_size (reading ctx) s r' s'
      → (ctx' : wslay.Context) × (wslay.event_recv cbs ctx s ≡ (true, ctx', s'))
        × (reading ctx' ≡ r')
        × (wslay.read_enabled ctx' ≡ true)
  pub event_send-Sends :
      {S : Type 0} (cbs : Callbacks S) (ctx : wslay.Context) (s : S)
      → Sends cbs s (wslay.event_send cbs ctx s).1
        × (reading (wslay.event_send cbs ctx s).0 ≡ reading ctx)
        × (wslay.read_enabled (wslay.event_send cbs ctx s).0 ≡ wslay.read_enabled ctx)

module _ {socket : Socket} where
  abbrev pub io_of : socket.State → Bytes → List (ℕ × Bytes) → Io socket
  io_of stream pending waiting = record {
    stream = stream;
    pending_recv = pending;
    pending_messages = waiting;
  }

  hand-messages :
      (ms : List (ℕ × Bytes)) (io : Io socket)
      → hand callbacks ms io ≡ record io { pending_messages = io.pending_messages ++ ms }
  unfolding on_msg_recv_cb
  hand-messages [] io =
      ap (λ ms. record io { pending_messages = ms }) (sym (append-nil io.pending_messages))
  hand-messages ((opcode, message) ∷ ms) io =
      hand-messages ms (on_msg_recv_cb opcode message io)
      ∙ ap (λ ms. record io { pending_messages = ms })
          (append_assoc io.pending_messages ((opcode, message) ∷ []) ms)

  -- What waits to be read or passed on is the same.
  pub record Waits (io io' : Io socket) : Type 0 where
    pub recv : io'.pending_recv ≡ io.pending_recv
    pub messages : io'.pending_messages ≡ io.pending_messages

  send_cb-Waits : (bs : Bytes) (io : Io socket) → Waits io (send_cb bs io).1
  unfolding send_cb
  send_cb-Waits bs io = elim (Option-cases (socket.write bs io.stream)) [
    | inl e ↦ rw e (record { recv = refl; messages = refl })
    | inr (w, e) ↦ rw e (record { recv = refl; messages = refl })
  ]

  pub Sends-Waits : {io io' : Io socket} → Sends callbacks io io' → Waits io io'
  Sends-Waits sent_all = record { recv = refl; messages = refl }
  Sends-Waits {io} (sent bs more) =
      let first = send_cb-Waits bs io in
      let later = Sends-Waits more in
      record { recv = later.recv ∙ first.recv; messages = later.messages ∙ first.messages }

pub fed_same :
    {R : Type 0} (ms ms' : List (ℕ × Bytes)) (r r' : R) (o : Option (List (ℕ × Bytes) × R))
    → o ≡ some (ms, r)
    → o ≡ some (ms', r')
    → (ms ≡ ms') × (r ≡ r')
fed_same ms ms' r r' o e e' = (cc, cc)

abbrev at_most : ℕ → Bytes → ℕ
at_most n bs = if leb n (length bs) then n else length bs

length-drop-at_most :
    (n k : ℕ) (b : ℕ) (bs : Bytes)
    → 0 < n
    → length (b ∷ bs) ≤ suc k
    → length (drop (at_most n (b ∷ bs)) (b ∷ bs)) ≤ k
length-drop-at_most n k b bs pos few =
    let m = at_most n (b ∷ bs) in
    let small : m ≤ length (b ∷ bs) = ground arith in
    let some_taken : 0 < m = ground arith in
    omega (arith, length-take-drop m (b ∷ bs), length-take m (b ∷ bs) small)

module _ (socket : Socket) {R : Type 0} (feed : Bytes → R → Option (List (ℕ × Bytes) × R))
    (feed-nil : (r : R) → feed [] r ≡ some ([], r))
    (feed-append : (bs bs' : Bytes) (r : R) → feed (bs ++ bs') r ≡ then_feed feed bs' (feed bs r))
    (len : ℕ) (len_pos : 0 < len) where
  abbrev Reads : ℕ → R → Io socket → R → Io socket → Type 0
  Reads = Receives feed len (callbacks {socket = socket})

  none_left :
      (fuel : ℕ) (stream : socket.State) (waiting ms : List (ℕ × Bytes)) (r r' : R)
      → feed [] r ≡ some (ms, r')
      → Reads fuel r (io_of stream [] waiting) r' (io_of stream [] (waiting ++ ms))
  unfolding recv_cb
  none_left fuel stream waiting ms r r' e =
      let same = fed_same [] ms r r' (feed [] r) (feed-nil r) e in
      let stays : waiting ≡ waiting ++ ms = sym (append-nil waiting) ∙ ap (◌++◌ waiting) same.0 in
      subst (λ q. Reads fuel r (io_of stream [] waiting) q (io_of stream [] (waiting ++ ms))) same.1
        (blocked (ap (λ l. (none, io_of stream [] l)) stays))

  -- Reading with these callbacks takes all the bytes that are pending.
  pub drains :
      (fuel : ℕ) (stream : socket.State) (pending : Bytes) (waiting ms : List (ℕ × Bytes))
      (r r' : R)
      → length pending ≤ fuel
      → feed pending r ≡ some (ms, r')
      → Reads fuel r (io_of stream pending waiting) r' (io_of stream [] (waiting ++ ms))
  unfolding recv_cb
  drains fuel stream [] waiting ms r r' few e = none_left fuel stream waiting ms r r' e
  drains zero stream (b ∷ bs) waiting ms r r' few e = absurd (omega arith)
  drains (suc fuel) stream (b ∷ bs) waiting ms r r' few e =
      let m = at_most len (b ∷ bs) in
      let now = take m (b ∷ bs) in
      let later = drop m (b ∷ bs) in
      let parts =
        then_feed-Parts feed later (feed now r) ms r'
          (sym (feed-append now later r) ∙ ap (λ q. feed q r) (take-append-drop m (b ∷ bs)) ∙ e) in
      let rest =
        drains fuel stream later (waiting ++ parts.ms₁) parts.ms₂ parts.r₁ r'
          (length-drop-at_most len fuel b bs len_pos few) parts.second in
      let ends : (waiting ++ parts.ms₁) ++ parts.ms₂ ≡ waiting ++ ms =
        append_assoc waiting parts.ms₁ parts.ms₂ ∙ ap (◌++◌ waiting) parts.together in
      got now parts.ms₁ refl parts.first (
        subst (λ q. Reads fuel parts.r₁ q r' (io_of stream [] (waiting ++ ms)))
          (sym (hand-messages parts.ms₁ (io_of stream later waiting)))
          (subst
            (λ q.
              Reads fuel parts.r₁ (io_of stream later (waiting ++ parts.ms₁)) r'
                (io_of stream [] q))
            ends rest))
