-- ===== src/WsConnection/Delivery.antt =====
-- The receive loop of a connection, with handlers that keep what they are given.
use mathlib.Core.List.{append_assoc, append-nil}
use blueboat_cpp.Run.{modify, done}
use mathlib.Core.Path.{subst}
use blueboat_cpp.Socket.{Socket}
use blueboat_cpp.WsConnection.Receiving.{
  WslayLaws, io_of, Receives, then_feed-Parts, Sends-Waits, fed_same, drains,
}
use blueboat_cpp.WsConnection.{
  Wslay, Io, WsConnection, callbacks, dispatched, take_in, Arrival, chunk, Handlers, State,
  set_closed, pass_on, run_recv_loop, buffer_size, construct,
}
use blueboat_cpp.Base.{
  ℕ, ◌≤◌, ◌≡◌, refl, sym, ap, ◌∙◌, Bool, true, false, Option, some, List, [], ◌∷◌, ◌++◌, arith,
  Bytes, length, All, Result, ok,
}

module _ (wslay : Wslay) (laws : WslayLaws wslay) (socket : Socket) where
  open laws use {Reading, reading, feed}

  -- The connection is open, nothing waits, and its frames have been read so far.
  pub record IsReady (c : WsConnection wslay socket) (r : Reading) : Type 0 where
    pub is_open : c.closed ≡ false
    pub nothing_pending : c.io.pending_recv ≡ []
    pub nothing_waiting : c.io.pending_messages ≡ []
    pub so_far : reading c.ctx ≡ r

  -- A new connection is ready.
  pub construct-IsReady :
      (is_client : Bool) (stream : socket.State)
      → IsReady (construct is_client stream) (laws.start is_client)
  unfolding construct
  construct-IsReady is_client stream = record {
    is_open = refl;
    nothing_pending = refl;
    nothing_waiting = refl;
    so_far = laws.context_init-reading is_client;
  }

  abbrev with_bytes : Bytes → WsConnection wslay socket → Io socket
  with_bytes bytes c = record c.io { pending_recv = c.io.pending_recv ++ bytes }

  event_recv-feed :
      (bytes : Bytes) (c : WsConnection wslay socket) (r r' : Reading) (ms : List (ℕ × Bytes))
      → IsReady c r
      → length bytes ≤ buffer_size
      → feed bytes r ≡ some (ms, r')
      → (ctx' : wslay.Context) × (wslay.event_recv callbacks c.ctx (with_bytes bytes c)
          ≡ (true, ctx', io_of c.io.stream [] ms))
        × (reading ctx' ≡ r')
        × (wslay.read_enabled ctx' ≡ true)
  event_recv-feed bytes c r r' ms ready fits fed =
      let pending = c.io.pending_recv ++ bytes in
      let whole : feed pending (reading c.ctx) ≡ some (ms, r') =
        ap (λ p. feed (p ++ bytes) (reading c.ctx)) ready.nothing_pending
        ∙ ap (feed bytes) ready.so_far
        ∙ fed in
      let few : length pending ≤ buffer_size =
        subst (λ p. length (p ++ bytes) ≤ buffer_size) (sym ready.nothing_pending) fits in
      let reads =
        drains socket feed laws.feed-nil laws.feed-append laws.len laws.len_pos buffer_size
          c.io.stream pending c.io.pending_messages ms (reading c.ctx) r' few whole in
      laws.event_recv-Receives callbacks c.ctx r' (with_bytes bytes c) (io_of c.io.stream [] ms) (
        subst
          (λ l.
            Receives feed laws.len callbacks buffer_size (reading c.ctx) (with_bytes bytes c) r'
              (io_of c.io.stream [] (l ++ ms)))
          ready.nothing_waiting reads)

  -- What `take_in` gives for bytes that complete these messages.
  pub record Takes (bytes : Bytes) (c : WsConnection wslay socket) (r' : Reading)
      (ms : List (ℕ × Bytes)) : Type 0 where
    pub next : WsConnection wslay socket
    pub taken_in : take_in bytes c ≡ (dispatched ms, false, next)
    pub ready : IsReady next r'

  pub take_in-Takes :
      (bytes : Bytes) (c : WsConnection wslay socket) (r r' : Reading) (ms : List (ℕ × Bytes))
      → IsReady c r
      → length bytes ≤ buffer_size
      → feed bytes r ≡ some (ms, r')
      → Takes bytes c r' ms
  unfolding take_in
  take_in-Takes bytes c r r' ms ready fits fed =
      let received = event_recv-feed bytes c r r' ms ready fits fed in
      let io = io_of c.io.stream [] ms in
      let flush = wslay.event_send (callbacks {socket = socket}) received.0 io in
      let law = laws.event_send-Sends (callbacks {socket = socket}) received.0 io in
      let kept = Sends-Waits law.0 in
      record {
        next = record c { ctx = flush.0; io = record flush.1 { pending_messages = [] } };
        taken_in = rw (ready.is_open, received.1, kept.messages, law.2, received.3) refl;
        ready = record {
          is_open = ready.is_open;
          nothing_pending = kept.recv;
          nothing_waiting = refl;
          so_far = law.1 ∙ received.2;
        };
      }

  -- Handlers that keep each message, and do nothing else.
  abbrev pub Log : Type 0
  Log = State wslay socket (List (Bool × Bytes))

  abbrev keep : Bool → Bytes → Log → Log
  keep is_binary message t = record t { user = t.user ++ (is_binary, message) ∷ [] }

  abbrev pub keeping : Handlers Log
  keeping = record {
    on_message = λ is_binary message. modify (keep is_binary message);
    on_close = done;
    on_idle = some done;
  }

  abbrev pub chunks : List Bytes → List (Arrival Log)
  chunks [] = []
  chunks (b ∷ bs) = chunk b ∷ chunks bs

  abbrev pub whole : List Bytes → Bytes
  whole [] = []
  whole (b ∷ bs) = b ++ whole bs

  pass_on-keeping :
      (ms : List (Bool × Bytes)) (t : Log)
      → pass_on wslay socket (List (Bool × Bytes)) keeping ms t
        ≡ some (ok tt, record t { user = t.user ++ ms })
  unfolding pass_on
  pass_on-keeping [] t = ap (λ l. some (ok tt, record t { user = l })) (sym (append-nil t.user))
  pass_on-keeping ((b, m) ∷ ms) t =
      pass_on-keeping ms (keep b m t)
      ∙ ap (λ l. some (ok tt, record t { user = l })) (append_assoc t.user ((b, m) ∷ []) ms)

  pub dispatched-append :
      (ms ns : List (ℕ × Bytes)) → dispatched (ms ++ ns) ≡ dispatched ms ++ dispatched ns
  unfolding dispatched
  dispatched-append [] ns = refl
  dispatched-append ((op, m) ∷ ms) ns = ground (arith, dispatched-append ms ns)

  -- The loop has ended, the connection is closed, and these messages have been passed on.
  pub record Delivers (o : Option (Result (Unit {0}) × Log)) (messages : List (Bool × Bytes))
      : Type 0 where
    pub after_loop : Log
    pub returned : o ≡ some (ok tt, after_loop)
    pub closed : after_loop.connection.closed ≡ true
    pub passed_on : after_loop.user ≡ messages

  -- With wslay as documented and handlers that keep the messages: when what arrives, in whatever
  -- pieces that fit the buffer, is without error, the loop returns, the connection is closed, and the text and binary
  -- messages of the whole input have been passed on, each once and in order.
  run_recv_loop-Delivers :
      (pieces : List Bytes) (t : Log) (r r' : Reading) (ms : List (ℕ × Bytes))
      → IsReady t.connection r
      → All (λ b. length b ≤ buffer_size) pieces
      → feed (whole pieces) r ≡ some (ms, r')
      → Delivers
          (run_recv_loop wslay socket (List (Bool × Bytes)) keeping (chunks pieces) t)
          (t.user ++ dispatched ms)
  unfolding run_recv_loop dispatched
  run_recv_loop-Delivers [] t r r' ms ready fits fed =
      let same = fed_same ms [] r' r (feed [] r) fed (laws.feed-nil r) in
      record {
        after_loop = set_closed wslay socket (List (Bool × Bytes)) t;
        returned = refl;
        closed = refl;
        passed_on = sym (append-nil t.user) ∙ ap (λ l. t.user ++ dispatched l) (sym same.0);
      }
  run_recv_loop-Delivers (b ∷ bs) t r r' ms ready fits fed =
      let parts =
        then_feed-Parts feed (whole bs) (feed b r) ms r'
          (sym (laws.feed-append b (whole bs) r) ∙ fed) in
      let now = take_in-Takes b t.connection r parts.r₁ parts.ms₁ ready fits.0 parts.first in
      let t' : Log = record { connection = now.next; user = t.user ++ dispatched parts.ms₁ } in
      let rest = run_recv_loop-Delivers bs t' parts.r₁ r' parts.ms₂ now.ready fits.1 parts.second in
      record {
        after_loop = rest.after_loop;
        returned =
            rw
              (
                now.taken_in,
                pass_on-keeping (dispatched parts.ms₁) (record t { connection = now.next }),
              )
              rest.returned;
        closed = rest.closed;
        passed_on =
            rest.passed_on
            ∙ append_assoc t.user (dispatched parts.ms₁) (dispatched parts.ms₂)
            ∙ ap (◌++◌ t.user)
                (sym (dispatched-append parts.ms₁ parts.ms₂) ∙ ap dispatched parts.together);
      }
