-- ===== src/Tests/Clients.antt =====
-- A client with one room, and what a server and it send each other.
use blueboat_cpp.Client.Creating
use blueboat_cpp.Run.{after, ◌>>=◌, ◌>>◌}
use blueboat_cpp.Http.{read_head, ends_head}
use blueboat_cpp.Client.Connection.{
  connection_manager_loop, is_upgrade, unreachable, answered, lost, receive, message,
  read_response_headers, connection,
}
use blueboat_cpp.Client.Retrying
use blueboat_cpp.Tests.Streams.{stream}
use blueboat_cpp.Server.Requests.{touch, message_payload}
use blueboat_cpp.Server.State.{publish}
use blueboat_cpp.Client.Rejoining
use blueboat_cpp.Json.Sample
use blueboat_cpp.Sio.{build_event_frame, parse_frame, ParsedFrame, blank}
use blueboat_cpp.Tests.Servers.{hooks, managed, draws}
use blueboat_cpp.Http.Lines.{from_words}
use blueboat_cpp.Tests.Rooms.{ada, world}
use blueboat_cpp.Tests.Frames.{codec, arrays}
use blueboat_cpp.Client.Handshaking.{Understood, client_info-handshake_target}
use blueboat_cpp.Client.Rooms.{ask_to_join, room_send, message_content, join_content}
use blueboat_cpp.Json.Sample.{
  write, Tree, nil, num, str, items, write_items, write_fields, read, sample, sample_laws,
}
use blueboat_cpp.Base.{
  ◌≡◌, refl, Bool, true, false, some, [], ◌∷◌, ◌++◌, Bytes, codes, bytes_eq, strip_prefix, find, ok,
}
use blueboat_cpp.Protocol
use blueboat_cpp.Server.Requests
use blueboat_cpp.Client.Rooms
use blueboat_cpp.Client.State.{Client, Listeners, envelope, created}
use blueboat_cpp.Client.Wire
use blueboat_cpp.Room.Lifecycle
use blueboat_cpp.Room.State.{Frame}

abbrev silent : Listeners Tree
silent = record {
  on_connect = λ c. (ok tt, c);
  on_connect_error = λ v c. (ok tt, c);
  on_disconnect = λ v c. (ok tt, c);
  on_reconnect = λ n c. (ok tt, c);
  on_reconnect_attempt = λ n c. (ok tt, c);
  on_id_saved = λ id c. (ok tt, c);
  on_join_attempt = λ p c. (ok tt, c);
  on_create = λ p id c. (ok tt, c);
  on_join = λ p c. (ok tt, c);
  on_join_error = λ p v c. (ok tt, c);
  on_message = λ p k v c. (ok tt, c);
  on_leave = λ p c. (ok tt, c);
}

abbrev pub guest : Client Tree
guest = record {
  id = codes "ada";
  session_id = codes "s1";
  ping_interval_ms = some 25000;
  running = true;
  connected = true;
  rooms = 0 ∷ [];
  event_handlers = (codes "message-r1", envelope 0) ∷ [];
  heap = record { id = codes "r1"; joined = false; initial_join_options = num 7 } ∷ [];
  sent = [];
  closes = 0;
}

abbrev Carried : Bytes → Tree → Type 0
Carried = Wire.IsCarried sample sample_laws codec arrays

abbrev said : Tree
said = message_content sample codec (codes "r1") (codes "move") (num 5)

said-Carried : Carried Protocol.send_message said
unfolding write write_fields write_items read Sample.fields items
said-Carried = record { null_only = λ e. no_null e; decoded = refl }
  where
    no_null : false ≡ true → said ≡ nil
    no_null e = cc

handle_ws_payload-room_send_example :
    (frame : Bytes) × ((room_send sample codec 0 (codes "move") (num 5) guest).sent
      ≡ [] ++ (true, frame) ∷ [])
    × (Requests.handle_ws_payload sample hooks codec 5 draws ada true frame managed
        ≡ publish sample hooks
            (codes "r1")
            (message_payload sample hooks ada (str (codes "move")) (num 5))
            (touch sample hooks (codes "s1") 5 managed))
handle_ws_payload-room_send_example =
    Wire.handle_ws_payload-room_send sample sample_laws codec arrays hooks 0 (codes "move") (num 5)
      guest 5 draws ada managed refl refl said-Carried

abbrev asked : Tree
asked = join_content sample codec (codes "r1") (num 7)

asked-Carried : Carried Protocol.join_room asked
unfolding write write_fields write_items read Sample.fields items
asked-Carried = record { null_only = λ e. no_null e; decoded = refl }
  where
    no_null : false ≡ true → asked ≡ nil
    no_null e = cc

handle_ws_payload-ask_to_join_example :
    (frame : Bytes) × ((ask_to_join sample codec 0 (codes "r1") (num 7) guest).sent
      ≡ [] ++ (true, frame) ∷ [])
    × (Requests.handle_ws_payload sample hooks codec 5 draws ada true frame managed
        ≡ Wire.answer_join sample sample_laws codec arrays hooks ada
            (codes "r1")
            (num 7)
            (touch sample hooks (codes "s1") 5 managed))
handle_ws_payload-ask_to_join_example =
    Wire.handle_ws_payload-ask_to_join sample sample_laws codec arrays hooks 0 (codes "r1") (num 7)
      guest 5 draws ada managed refl refl refl asked-Carried

abbrev joined : Tree
joined = Wire.envelope_content sample sample_laws codec arrays Protocol.joined_room nil

joined-Carried : Carried (codes "message-r1") joined
unfolding write write_fields write_items read Sample.fields items
joined-Carried = record { null_only = λ e. no_null e; decoded = refl }
  where
    no_null : false ≡ true → joined ≡ nil
    no_null e = cc

handle_ws_payload-send_example :
    (f : Frame Tree) × ((Lifecycle.send sample ada Protocol.joined_room nil world).frames
      ≡ [] ++ f ∷ [])
    × (f.session_id ≡ codes "s1")
    × (Rooms.handle_ws_payload sample codec silent true
          (build_event_frame sample codec f.event f.content)
          guest
        ≡ some (Wire.takes sample sample_laws codec arrays silent 0 Protocol.joined_room nil guest))
unfolding find bytes_eq
handle_ws_payload-send_example =
    Wire.handle_ws_payload-send sample sample_laws codec arrays silent ada Protocol.joined_room nil
      world 0 guest refl joined-Carried

silent-AreSilent : Rejoining.AreSilent sample codec silent
silent-AreSilent = record {
  connecting = λ c. refl;
  disconnecting = λ why c. refl;
  attempt = λ n c. refl;
  id_saved = λ id c. refl;
  join_attempt = λ p c. refl;
  left = λ p c. refl;
  reconnecting = λ n c. refl;
}

client_info-handshake_target_example :
    Understood (codes "ada") (codes "x") (codes "s1") (codes "::1") (
      from_words
        (codes "GET" ∷ codes "/blueboat/?EIO=3&transport=websocket&id=ada" ∷ codes "HTTP/1.1" ∷ []))
client_info-handshake_target_example =
    client_info-handshake_target (codes "ada") (codes "x") (codes "s1") (codes "::1")
      (refl, (refl, (refl, tt)))

abbrev switched : Bytes × Bytes
switched = (codes "HTTP/1.1 101 X\r\n\r\n", [])

abbrev refused : Bytes × Bytes
refused = (codes "HTTP/1.1 400 X\r\n\r\n", [])

abbrev headers_read : Bytes × Bytes → Bool
headers_read s = is_upgrade (read_response_headers stream s)

was_refused : headers_read refused ≡ false
unfolding is_upgrade read_response_headers read_head ends_head strip_prefix bytes_eq
was_refused = refl

was_switched : headers_read switched ≡ true
unfolding is_upgrade read_response_headers read_head ends_head strip_prefix bytes_eq
was_switched = refl

abbrev id_payload : Bytes
id_payload = build_event_frame sample codec Protocol.client_id_set (str (codes "ada"))

abbrev any_frame : ParsedFrame Tree
any_frame = blank sample codec

id_read :
    parse_frame sample codec true id_payload
    ≡ ok (
        Rejoining.named_frame sample codec silent silent-AreSilent stream
          (codes "h")
          80
          (str (codes "ada"))
          any_frame)
unfolding parse_frame write write_fields write_items read Sample.fields items build_event_frame find
    Sample.to_assoc bytes_eq Sample.to_list
id_read = refl

reconnect-requests_example :
    (lost sample codec silent stream (codes "h") 80
        >>= Rejoining.go_on sample codec silent silent-AreSilent stream
            (codes "h")
            80
            (answered switched 9 (message true id_payload ∷ []) ∷ []))
      guest
    ≡ ((receive sample codec silent stream (codes "h") 80 9 []
            >> Rejoining.ending sample codec silent silent-AreSilent stream (codes "h") 80)
          >>= Rejoining.go_on sample codec silent silent-AreSilent stream (codes "h") 80 [])
        (record guest {
          sent = (true, build_event_frame sample codec Protocol.join_room asked) ∷ [];
        })
reconnect-requests_example =
    Rejoining.reconnect-requests sample codec silent silent-AreSilent stream (codes "h") 80
      (str (codes "ada")) (codes "ada") id_payload true any_frame switched 9 [] [] guest refl
      was_switched id_read refl

calm : Retrying.AreCalm sample codec silent stream (codes "h") 80
calm = record { connect_error = λ v c. refl; attempt = λ n c. refl }

connection_manager_loop-answered_example :
    connection_manager_loop sample codec silent stream
      (codes "h")
      80
      0
      (unreachable ∷ answered refused 5 [] ∷ answered switched 9 [] ∷ [])
      guest
    ≡ after
        (connection sample codec silent stream (codes "h") 80 2 9 [] guest)
        (Retrying.go_on sample codec silent stream (codes "h") 80 [])
connection_manager_loop-answered_example =
    Retrying.connection_manager_loop-answered sample codec silent stream (codes "h") 80 calm
      (unreachable ∷ answered refused 5 [] ∷ []) [] switched 9 [] 0 guest refl
      (tt, (was_refused, tt)) was_switched

calls : Creating.LetCreate sample codec silent
calls = record { create = λ p id c. refl; join_attempt = λ p c. refl }

run_handler-HasCreated_example :
    (c' : Client Tree) × (Rooms.run_handler sample codec silent
        (created 0 (num 7) (codes "q"))
        (str (codes "r2"))
        guest
      ≡ some (ok tt, c'))
    × Creating.HasCreated sample codec silent guest c' 0 (num 7) (codes "q") (codes "r2")
unfolding bytes_eq
run_handler-HasCreated_example =
    Creating.run_handler-HasCreated sample codec silent 0 (num 7) (codes "q") (codes "r2") guest
      (record { id = codes "r1"; joined = false; initial_join_options = num 7 }) refl
      (str (codes "r2")) calls refl refl refl refl refl
