-- ===== src/Client/Connection.antt =====
-- Connecting and reconnecting: the loop of the manager thread in client/src/client.cpp. What the
-- network gives is an argument: one outcome for each round of the loop. The waits between
-- attempts, of 500 to 1500 milliseconds, are left out.
use blueboat_cpp.Http.Text.{to_string}
use blueboat_cpp.Client.Rooms.{handle_ws_payload, give}
use blueboat_cpp.Sio.{Msgpack}
use blueboat_cpp.Socket.{Socket}
use blueboat_cpp.Json.{Json}
use blueboat_cpp.Client.State.{Client, Listeners, set_joined}
use blueboat_cpp.Http.{read_head, max_header_size}
use blueboat_cpp.Run.{Run, done, modify, lift, hook, with_state, ◌>>=◌, ◌>>◌}
use blueboat_cpp.Base.{
  ℕ, zero, suc, ◌+◌, Bool, true, false, ◌||◌, Option, none, some, List, [], ◌∷◌, ◌++◌, leb,
  if◌then◌else◌, Bytes, codes, is_empty, strip_prefix, ok,
}

-- PING_PACKET
abbrev pub ping_packet : Bytes
ping_packet = codes "2"

-- What happens on a connection, in order: the receive loop finds nothing to read at this time, a
-- message arrives, or another thread calls the client.
pub data Incoming (V : Type 0) : Type 0 where
  idle : ℕ → Incoming V
  message : Bool → Bytes → Incoming V
  acts : Run (Client V) (Unit {0}) → Incoming V

-- One attempt to connect: no connection, the request is not sent, or a stream to read the answer
-- from, the time at which the connection is up, and what happens on it until it ends.
pub data Outcome (S V : Type 0) : Type 0 where
  unreachable : Outcome S V
  unsent : Outcome S V
  answered : S → ℕ → List (Incoming V) → Outcome S V

-- The path of the handshake, with the client's id as it is.
abbrev pub handshake_target : Bytes → Bytes
handshake_target id =
    codes "/blueboat/?EIO=3&transport=websocket" ++ (if is_empty id then [] else codes "&id=" ++ id)

unfoldable pub handshake_request : Bytes → Bytes → Bytes → Bytes
handshake_request host id key =
    codes "GET "
    ++ handshake_target id
    ++ codes " HTTP/1.1\r\nHost: "
    ++ host
    ++ codes "\r\nUpgrade: websocket\r\nConnection: Upgrade\r\nSec-WebSocket-Key: "
    ++ key
    ++ codes "\r\nSec-WebSocket-Version: 13\r\n\r\n"

-- The test of the first line: rfind("HTTP/1.1 101", 0) or rfind("HTTP/1.0 101", 0).
abbrev pub starts_with : Bytes → Bytes → Bool
starts_with prefix text = elim (strip_prefix prefix text) [ none ↦ false | some rest ↦ true ]

unfoldable pub is_upgrade : Bytes → Bool
unfolding strip_prefix
is_upgrade headers =
    starts_with (codes "HTTP/1.1 101") headers || starts_with (codes "HTTP/1.0 101") headers

-- `::recv` on the descriptor is the read of a plain socket.
unfoldable pub read_response_headers : (socket : Socket) → socket.State → Bytes
unfolding read_head
read_response_headers socket s = elim (read_head socket max_header_size [] s) [
  | none ↦ []
  | some (headers, s') ↦ headers
]

module _ {V : Type 0} where
  -- ws_->close(), where there is a connection
  abbrev pub close_link : Client V → Client V
  close_link c = if c.connected then record c { closes = suc c.closes } else c

  -- The manager thread, which `disconnect` waits for, ends when it next looks.
  unfoldable pub disconnect : Client V → Client V
  disconnect c = if c.running then close_link (record c { running = false }) else c

  -- Client::~Client
  unfoldable pub destroy : Client V → Client V
  unfolding disconnect
  destroy c = disconnect c

  -- Client::Client, before its manager thread runs the loop
  unfoldable pub construct : Bytes → Client V
  construct persisted_id = record {
    id = persisted_id;
    session_id = [];
    ping_interval_ms = some 25000;
    running = true;
    connected = false;
    rooms = [];
    event_handlers = [];
    heap = [];
    sent = [];
    closes = 0;
  }

  -- A client that was told to disconnect meanwhile closes its new connection.
  abbrev pub close_if_stopped : Client V → Client V
  close_if_stopped c = if c.running then c else close_link c

  abbrev pub set_connected : Bool → Client V → Client V
  set_connected b c = record c { connected = b }

  abbrev pub reset_ping_interval : Client V → Client V
  reset_ping_interval c = record c { ping_interval_ms = some 25000 }

-- now - last_ping >= ping_interval_ms_
abbrev pub ping_due : Option ℕ → ℕ → ℕ → Bool
ping_due none last now = true
ping_due (some interval) last now = leb (last + interval) now

module _ (json : Json) (msgpack : Msgpack json.Value) (listeners : Listeners json.Value)
    (socket : Socket) (host : Bytes) (port : ℕ) where
  open json use {Value}

  abbrev pub failure : Bytes → Value
  failure what = json.of_object ((codes "message", json.of_string what) ∷ [])

  abbrev pub retry : ℕ → Bytes → Run (Client Value) (Option ℕ)
  retry attempt what = do
    hook (listeners.on_connect_error (failure what))
    hook (listeners.on_reconnect_attempt (suc attempt))
    lift (ok (some (suc attempt)))

  -- The receive loop, with the time of the last ping.
  unfoldable pub receive : ℕ → List (Incoming Value) → Run (Client Value) (Unit {0})
  unfolding handle_ws_payload
  receive last [] = done
  receive last (idle now ∷ es) = with_state (λ c.
      let due = ping_due c.ping_interval_ms last now in
      modify (λ c. if due then give json msgpack false ping_packet c else c)
      >> receive (if due then now else last) es)
  receive last (message is_binary payload ∷ es) =
      handle_ws_payload json msgpack listeners is_binary payload >> receive last es
  receive last (acts m ∷ es) = m >> receive last es

  unfoldable pub leave_all : List ℕ → Run (Client Value) (Unit {0})
  leave_all [] = done
  leave_all (p ∷ ps) = modify (set_joined p false) >> hook (listeners.on_leave p) >> leave_all ps

  -- What follows the end of a connection; the next attempt counts from one.
  abbrev pub lost : Run (Client Value) (Option ℕ)
  lost = do
    hook (listeners.on_disconnect (codes "transport close"))
    with_state (λ c. leave_all c.rooms)
    hook (listeners.on_reconnect_attempt 1)
    lift (ok (some 1))

  abbrev pub greet : ℕ → Run (Client Value) (Unit {0})
  greet zero = done
  greet (suc attempt) =
      with_state (λ c. if c.running then hook (listeners.on_reconnect (suc attempt)) else done)

  unfoldable pub connection : ℕ → ℕ → List (Incoming Value) → Run (Client Value) (Option ℕ)
  unfolding receive leave_all
  connection attempt now es = do
    modify reset_ping_interval
    modify (set_connected true)
    modify close_if_stopped
    greet attempt
    receive now es
    modify (set_connected false)
    with_state (λ c. if c.running then lost else lift (ok none))

  -- One round of the loop: the number of attempts so far, and, unless the loop ends, after it.
  unfoldable pub round : ℕ → Outcome socket.State Value → Run (Client Value) (Option ℕ)
  unfolding connection is_upgrade read_response_headers to_string
  round attempt unreachable =
      retry attempt (codes "failed to connect to " ++ host ++ b':' ∷ to_string port)
  round attempt unsent = retry attempt (codes "failed to send handshake")
  round attempt (answered s now es) =
      if is_upgrade (read_response_headers socket s)
      then connection attempt now es
      else retry attempt (codes "server rejected the WebSocket upgrade")

  abbrev pub if_goes_on :
      (ℕ → Run (Client Value) (Unit {0})) → Option ℕ → Run (Client Value) (Unit {0})
  if_goes_on next none = done
  if_goes_on next (some attempt) = next attempt

  -- The loop, for as long as the network's outcomes are given.
  unfoldable pub connection_manager_loop :
      ℕ → List (Outcome socket.State Value) → Run (Client Value) (Unit {0})
  unfolding round
  connection_manager_loop attempt [] = done
  connection_manager_loop attempt (o ∷ os) = with_state (λ c.
      if c.running
      then round attempt o >>= if_goes_on (λ n. connection_manager_loop n os)
      else done)
