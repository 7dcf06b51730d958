-- ===== src/Server/Connection.antt =====
-- A connection to the server, from the request to its end: `handle_connection` of
-- server/src/server.cpp. The random ids, the peer's address and the clock are arguments, and so is
-- what arrives on the connection.
pub mod Departure
pub mod Served
use blueboat_cpp.Server.Requests.{handle_client_disconnect, handle_ws_payload, Draws}
use blueboat_cpp.Sio.{Msgpack, build_open_frame, build_connect_ack_frame, build_event_frame}
use blueboat_cpp.Json.{Json}
use blueboat_cpp.Snapshot.{SimpleClient}
use blueboat_cpp.Run.{Run, done, modify, lift, after, ◌>>=◌, ◌>>◌}
use blueboat_cpp.Http.Lines.{parse_query, Request}
use blueboat_cpp.Server.Admin.{Reply, plain}
use blueboat_cpp.Http.Text.{to_lower}
use blueboat_cpp.Base.{
  ℕ, suc, ◌+◌, Bool, true, false, not, ◌||◌, Option, none, some, List, [], ◌∷◌, ◌++◌, leb,
  if◌then◌else◌, Bytes, codes, bytes_eq, is_empty, strip_prefix, find, put, erase, Result, ok,
}
use blueboat_cpp.Protocol
use blueboat_cpp.Server.State.{Server}
use blueboat_cpp.Room.State.{Hooks}

abbrev pub ping_interval_ms : ℕ
ping_interval_ms = 25000

abbrev pub ping_timeout_ms : ℕ
ping_timeout_ms = 5000

-- value.find(token) != std::string::npos
unfoldable pub contains_text : Bytes → Bytes → Bool
unfolding strip_prefix
contains_text token [] = is_empty token
contains_text token (c ∷ rest) = elim (strip_prefix token (c ∷ rest)) [
  | some after ↦ true
  | none ↦ contains_text token rest
]

unfoldable pub header_contains_token : Bytes → Bytes → Bool
unfolding contains_text to_lower
header_contains_token value token = contains_text (to_lower token) (to_lower value)

abbrev pub bad_request : Reply
bad_request = plain 400 (codes "Bad Request") (codes "Expected a WebSocket upgrade request")

-- The key of the handshake, where the request is one for a web socket.
abbrev upgrade_key : Option Bytes → Option Bytes → Option Bytes
upgrade_key none key = none
upgrade_key (some upgrade) key =
    if header_contains_token upgrade (codes "websocket") then key else none

unfoldable pub client_key : Request → Option Bytes
unfolding header_contains_token find
client_key request =
    if bytes_eq request.method (codes "GET")
    then upgrade_key (find (codes "upgrade") request.headers)
        (find (codes "sec-websocket-key") request.headers)
    else none

unfoldable pub switching_protocols : Bytes → Bytes
switching_protocols accept =
    codes "HTTP/1.1 101 Switching Protocols\r\nUpgrade: websocket\r\nConnection: Upgrade\r\n"
    ++ codes "Sec-WebSocket-Accept: "
    ++ accept
    ++ codes "\r\n\r\n"

abbrev or_random : Bytes → Option Bytes → Bytes
or_random random none = random
or_random random (some id) = if is_empty id then random else id

abbrev or_empty : Option Bytes → Bytes
or_empty none = []
or_empty (some value) = value

-- What `getpeername` gives, with the address as `inet_ntop` writes it.
pub data PeerAddress : Type 0 where
  inet inet6 : Bytes → PeerAddress
  other_family : PeerAddress

-- `none` is a failure of `getpeername`.
unfoldable pub peer_ip : Option PeerAddress → Bytes
peer_ip none = []
peer_ip (some (inet text)) = text
peer_ip (some (inet6 text)) = text
peer_ip (some other_family) = []

-- `random` stands for the id of a client that gives none.
unfoldable pub client_info : Bytes → Bytes → Bytes → Request → SimpleClient
unfolding parse_query find
client_info random session_id ip request = record {
  id = or_random random (find (codes "id") (parse_query request.query));
  session_id = session_id;
  origin = or_empty (find (codes "origin") request.headers);
  ip = ip;
}

-- What the connection was given to send, and whether each message is binary; how often it was
-- told to close.
pub record Link : Type 0 where
  pub given : List (Bool × Bytes)
  pub closes : ℕ

pub record Session (V : Type 0) : Type 0 where
  pub server : Server V
  pub link : Link

-- Nothing to read for a second, at this time; a message, with the clock and the draws that its
-- handling takes; or a step of another thread on the server.
pub data Incoming (V D : Type 0) : Type 0 where
  idle : ℕ → Incoming V D
  message : ℕ → D → Bool → Bytes → Incoming V D
  acts : Run (Server V) (Unit {0}) → Incoming V D

-- PING_INTERVAL_MS + PING_TIMEOUT_MS without any message
abbrev timed_out : ℕ → Option ℕ → Bool
timed_out now none = false
timed_out now (some last) = leb (last + (ping_interval_ms + ping_timeout_ms)) now

module _ {V : Type 0} where
  abbrev with_link {ℓ} :
      {A : Type ℓ} → Link → Option (Result A × Server V) → Option (Result A × Session V)
  with_link l none = none
  with_link l (some (r, s)) = some (r, record { server = s; link = l })

  abbrev pub on_server {ℓ} : {A : Type ℓ} → Run (Server V) A → Run (Session V) A
  on_server m t = with_link t.link (m t.server)

  abbrev pub give : Bool → Bytes → Session V → Session V
  give is_binary payload t = record t {
    link = record t.link { given = t.link.given ++ (is_binary, payload) ∷ [] };
  }

  abbrev close : Session V → Session V
  close t = record t { link = record t.link { closes = suc t.link.closes } }

  -- The time that the connection shares with the server's table, where it stands until the end.
  unfoldable pub on_idle : Bytes → ℕ → Session V → Session V
  unfolding find
  on_idle session_id now t =
      if timed_out now (find session_id t.server.last_activity) then close t else t

  abbrev pub connect : SimpleClient → Server V → Server V
  connect client s = record s { connections = put client.session_id client s.connections }

  abbrev pub start_activity : Bytes → ℕ → Server V → Server V
  start_activity session_id now s = record s { last_activity = put session_id now s.last_activity }

  abbrev pub end_activity : Bytes → Server V → Server V
  end_activity session_id s = record s { last_activity = erase session_id s.last_activity }

module _ (json : Json) (hooks : Bytes → Hooks json.Value) (msgpack : Msgpack json.Value) where
  open json use {Value}

  abbrev pub Event : Type 0
  Event = Incoming Value (Draws json hooks)

  -- The three messages that open a connection.
  unfoldable pub welcome : SimpleClient → Run (Session Value) (Unit {0})
  unfolding build_open_frame build_connect_ack_frame build_event_frame
  welcome client = do
    opening ←
        lift (build_open_frame json msgpack client.session_id ping_interval_ms ping_timeout_ms)
    modify (give false opening)
    ack ← lift (build_connect_ack_frame json msgpack)
    modify (give false ack)
    modify (
        give true
          (build_event_frame json msgpack Protocol.client_id_set (json.of_string client.id)))

  unfoldable pub receive : SimpleClient → List Event → Run (Session Value) (Unit {0})
  unfolding handle_ws_payload on_idle
  receive client [] = done
  receive client (idle now ∷ es) = modify (on_idle client.session_id now) >> receive client es
  receive client (message clock draws is_binary payload ∷ es) =
      on_server (handle_ws_payload json hooks msgpack clock draws client is_binary payload)
      >> receive client es
  receive client (acts m ∷ es) = on_server m >> receive client es

  -- The connection after the upgrade. The close handler runs when the receive loop ends.
  unfoldable pub session : SimpleClient → ℕ → List Event → Run (Session Value) (Unit {0})
  unfolding welcome receive handle_client_disconnect put erase
  session client now es = do
    on_server (modify (connect client))
    welcome client
    on_server (modify (start_activity client.session_id now))
    receive client es
    on_server (handle_client_disconnect json hooks client.session_id)
    on_server (modify (end_activity client.session_id))

-- How a connection was answered: not at all, by a reply, or by the upgrade.
pub data Answer : Type 0 where
  dropped : Answer
  replied : Reply → Answer
  upgraded : Bytes → Answer

-- Whether a path is the web socket's.
abbrev pub is_socket_path : Bytes → Bool
is_socket_path path = bytes_eq path (codes "/blueboat") || bytes_eq path (codes "/blueboat/")

module _ (json : Json) (hooks : Bytes → Hooks json.Value) (msgpack : Msgpack json.Value)
    (admin : Request → Run (Server json.Value) Reply) (accept : Bytes → Bytes) where
  open json use {Value}

  abbrev upgrade :
      SimpleClient
      → Bool
      → ℕ
      → List (Event json hooks msgpack)
      → Option Bytes
      → Run (Session Value) Answer
  upgrade client written now es none = lift (ok (replied bad_request))
  upgrade client written now es (some key) =
      if written
      then session json hooks msgpack client now es
        >> lift (ok (upgraded (switching_protocols (accept key))))
      else lift (ok dropped)

  -- `written` tells whether the answer to the handshake could be written; `random` and `session_id`
  -- are random ids. `admin` is `handle_admin_request` and `accept` is `compute_accept`.
  unfoldable pub handle_connection :
      Bytes
      → Bytes
      → Option PeerAddress
      → Bool
      → ℕ
      → List (Event json hooks msgpack)
      → Option Request
      → Run (Session Value) Answer
  unfolding session client_key client_info switching_protocols peer_ip
  handle_connection random session_id peer written now es none = lift (ok dropped)
  handle_connection random session_id peer written now es (some request) =
      if not (is_socket_path request.path)
      then (do reply ← on_server (admin request); lift (ok (replied reply)))
      else upgrade (client_info random session_id (peer_ip peer) request) written now es
          (client_key request)
