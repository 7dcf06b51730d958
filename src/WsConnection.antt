-- ===== src/WsConnection.antt =====
-- common/include/blueboat/common/ws_connection.hpp and common/src/ws_connection.cpp: messages over a
-- socket. wslay, which keeps the frames and calls back, is a parameter, and so is the socket. The
-- mutex is held for one operation at a time; a step of another thread is one of the things that
-- arrive.
pub mod Receiving
pub mod Delivery
pub mod Serving
use blueboat_cpp.Run.{Run, done, modify, ◌>>◌}
use blueboat_cpp.Socket.{Socket}
use blueboat_cpp.Base.{
  ℕ, suc, Bool, true, false, not, ◌&&◌, Option, none, some, List, [], ◌∷◌, ◌++◌, leb, ◌==◌,
  if◌then◌else◌, Bytes, length, take, drop, Result,
}

-- What wslay is given to call, on the caller's state: bytes for at most a length, or none yet; bytes
-- to send, of which some number is taken, or none; a whole message and its opcode.
pub record Callbacks (S : Type 0) : Type 0 where
  pub recv : ℕ → S → Option Bytes × S
  pub send : Bytes → S → Option ℕ × S
  pub on_msg_recv : ℕ → Bytes → S → S

-- The calls of wslay. `queue_msg` fails or gives the context with the message; `event_recv` tells
-- whether it returned 0.
pub record Wslay : Type 1 where
  pub Context : Type 0
  -- wslay_event_context_client_init, or that for a server, with the callbacks
  pub context_init : Bool → Context
  pub queue_msg : ℕ → Bytes → Context → Option Context
  pub queue_close : ℕ → Context → Context
  pub event_send : {S : Type 0} → Callbacks S → Context → S → Context × S
  pub event_recv : {S : Type 0} → Callbacks S → Context → S → Bool × Context × S
  pub read_enabled : Context → Bool

abbrev pub text_frame : ℕ
text_frame = 1

abbrev pub binary_frame : ℕ
binary_frame = 2

-- The part of a connection that the callbacks work on.
pub record Io (socket : Socket) : Type 0 where
  pub stream : socket.State
  pub pending_recv : Bytes
  pub pending_messages : List (ℕ × Bytes)

pub record WsConnection (wslay : Wslay) (socket : Socket) : Type 0 where
  pub ctx : wslay.Context
  pub io : Io socket
  pub closed : Bool
  -- how often the socket was told to close
  pub shutdowns : ℕ

module _ {socket : Socket} where
  abbrev taken : ℕ → Io socket → Bytes → Option Bytes × Io socket
  taken n io [] = (none, io)
  taken n io (b ∷ bs) =
      let count = if leb n (length (b ∷ bs)) then n else length (b ∷ bs) in
      (some (take count (b ∷ bs)), record io { pending_recv = drop count (b ∷ bs) })

  unfoldable pub recv_cb : ℕ → Io socket → Option Bytes × Io socket
  recv_cb n io = taken n io io.pending_recv

  abbrev written : Io socket → Option (ℕ × socket.State) → Option ℕ × Io socket
  written io none = (none, io)
  written io (some (n, stream)) = (some n, record io { stream = stream })

  unfoldable pub send_cb : Bytes → Io socket → Option ℕ × Io socket
  send_cb bytes io = written io (socket.write bytes io.stream)

  unfoldable pub on_msg_recv_cb : ℕ → Bytes → Io socket → Io socket
  on_msg_recv_cb opcode message io = record io {
    pending_messages = io.pending_messages ++ (opcode, message) ∷ [];
  }

  abbrev pub callbacks : Callbacks (Io socket)
  callbacks = record { recv = recv_cb; send = send_cb; on_msg_recv = on_msg_recv_cb }

-- The messages of text and binary frames, and whether each is binary.
unfoldable pub dispatched : List (ℕ × Bytes) → List (Bool × Bytes)
dispatched [] = []
dispatched ((opcode, message) ∷ ms) =
    let rest = dispatched ms in
    if opcode == text_frame
    then (false, message) ∷ rest
    else if opcode == binary_frame
    then (true, message) ∷ rest
    else rest

module _ {wslay : Wslay} {socket : Socket} where
  -- WsConnection::WsConnection, of a socket in this state
  unfoldable pub construct : Bool → socket.State → WsConnection wslay socket
  construct is_client stream = record {
    ctx = wslay.context_init is_client;
    io = record { stream = stream; pending_recv = []; pending_messages = [] };
    closed = false;
    shutdowns = 0;
  }

  -- WsConnection::~WsConnection, but for the memory of the context
  unfoldable pub destroy : WsConnection wslay socket → WsConnection wslay socket
  destroy c = record c { shutdowns = suc c.shutdowns }

  abbrev flushed : WsConnection wslay socket → WsConnection wslay socket
  flushed c =
      let sent = wslay.event_send callbacks c.ctx c.io in record c { ctx = sent.0; io = sent.1 }

  abbrev queued :
      WsConnection wslay socket → Option wslay.Context → Bool × WsConnection wslay socket
  queued c none = (false, c)
  queued c (some ctx) = (true, flushed (record c { ctx = ctx }))

  unfoldable pub send_text : Bytes → WsConnection wslay socket → Bool × WsConnection wslay socket
  send_text text c =
      if c.closed then (false, c) else queued c (wslay.queue_msg text_frame text c.ctx)

  unfoldable pub send_binary : Bytes → WsConnection wslay socket → Bool × WsConnection wslay socket
  send_binary bytes c =
      if c.closed then (false, c) else queued c (wslay.queue_msg binary_frame bytes c.ctx)

  unfoldable pub close : ℕ → WsConnection wslay socket → WsConnection wslay socket
  close code c =
      let c' = if c.closed then c else flushed (record c { ctx = wslay.queue_close code c.ctx }) in
      record c' { shutdowns = suc c'.shutdowns }

  -- What the loop does with the bytes that were read, the mutex held: the messages to pass on,
  -- whether the loop is to stop, and the connection.
  unfoldable pub take_in :
      Bytes → WsConnection wslay socket → List (Bool × Bytes) × Bool × WsConnection wslay socket
  unfolding dispatched
  take_in bytes c =
      if c.closed
      then ([], true, c)
      else (let io = record c.io { pending_recv = c.io.pending_recv ++ bytes } in
          let got = wslay.event_recv callbacks c.ctx io in
          let c' = flushed (record c { ctx = got.1; io = got.2 }) in
          (
            dispatched c'.io.pending_messages,
            not (got.0 && wslay.read_enabled c'.ctx),
            record c' { io = record c'.io { pending_messages = [] } },
          ))

-- A connection, and what else its handlers work on.
pub record Held (wslay : Wslay) (socket : Socket) (A : Type 0) : Type 0 where
  pub connection : WsConnection wslay socket
  pub user : A

-- buf.size()
abbrev pub buffer_size : ℕ
buffer_size = 65536

-- A read that finds nothing in time, one that gives bytes, or a step of another thread. Behind the
-- last, a read gives no byte any more, or an error.
pub data Arrival (S : Type 0) : Type 0 where
  timeout : Arrival S
  chunk : Bytes → Arrival S
  acts : Run S (Unit {0}) → Arrival S

-- The handlers; a handler that is not set does nothing, but for the one of idle times.
pub record Handlers (S : Type 0) : Type 0 where
  pub on_message : Bool → Bytes → Run S (Unit {0})
  pub on_close : Run S (Unit {0})
  pub on_idle : Option (Run S (Unit {0}))

module _ (wslay : Wslay) (socket : Socket) (A : Type 0) where
  abbrev pub State : Type 0
  State = Held wslay socket A

  abbrev pub set_closed : State → State
  set_closed t = record t { connection = record t.connection { closed = true } }

  module _ (handlers : Handlers State) where
    unfoldable pub pass_on : List (Bool × Bytes) → Run State (Unit {0})
    pass_on [] = done
    pass_on ((is_binary, message) ∷ ms) = handlers.on_message is_binary message >> pass_on ms

    abbrev pub finish : Run State (Unit {0})
    finish = modify set_closed >> handlers.on_close

    abbrev pub or_finish : Bool → Run State (Unit {0}) → Run State (Unit {0})
    or_finish stop next = if stop then finish else next

    abbrev pub passed :
        Run State (Unit {0})
        → State
        → List (Bool × Bytes) × Bool × WsConnection wslay socket
        → Option (Result (Unit {0}) × State)
    passed next t (messages, stop, c) =
        (pass_on messages >> or_finish stop next) (record t { connection = c })

    abbrev pub idle : Option (Run State (Unit {0})) → Run State (Unit {0}) → Run State (Unit {0})
    idle none next = finish
    idle (some m) next = m >> next

    unfoldable pub run_recv_loop : List (Arrival State) → Run State (Unit {0})
    unfolding pass_on take_in
    run_recv_loop [] = finish
    run_recv_loop (timeout ∷ rest) = idle handlers.on_idle (run_recv_loop rest)
    run_recv_loop (chunk bytes ∷ rest) =
        λ t. passed (run_recv_loop rest) t (take_in bytes t.connection)
    run_recv_loop (acts m ∷ rest) = m >> run_recv_loop rest
