-- ===== src/Server/Admin.antt =====
-- The routes of the admin API in server/src/server.cpp. Each branch makes at most one call of
-- `write_response`, as the last thing it does; its arguments are the reply. While a request for a
-- room's state waits, other threads may go on: `others` is what they do.
pub mod Access
use blueboat_cpp.Server.Auth.{check_basic_auth}
use blueboat_cpp.Storage.{Storage}
use blueboat_cpp.Http.Lines.{Request}
use blueboat_cpp.Server.State.{publish, Server}
use blueboat_cpp.Server.Requests.{get_rooms}
use blueboat_cpp.Snapshot.{RoomSnapshot, snapshot_to_json}
use blueboat_cpp.Run.{Run, done, modify, lift, with_state, ◌>>=◌, ◌>>◌, try_catch}
use blueboat_cpp.Room.State.{Hooks, admin_reply}
use blueboat_cpp.Json.{Json}
use blueboat_cpp.Base.{
  ℕ, Bool, true, false, ◌||◌, Option, none, some, List, [], ◌∷◌, ◌==◌, if◌then◌else◌, Bytes, codes,
  bytes_eq, is_empty, strip_prefix, Assoc, Result, ok, throws,
}
use blueboat_cpp.Protocol
use blueboat_cpp.Storage.{Storage}
use blueboat_cpp.PubSub
use blueboat_cpp.GameValues

-- the arguments of `write_response`
pub record Reply : Type 0 where
  pub status : ℕ
  pub status_text : Bytes
  pub content_type : Bytes
  pub body : Bytes
  pub extra_headers : Assoc Bytes

abbrev pub plain : ℕ → Bytes → Bytes → Reply
plain status status_text body = record {
  status = status;
  status_text = status_text;
  content_type = codes "text/plain";
  body = body;
  extra_headers = [];
}

abbrev pub json_reply : ℕ → Bytes → Bytes → Reply
json_reply status status_text body = record (plain status status_text body) {
  content_type = codes "application/json";
}

abbrev pub not_found : Reply
not_found = plain 404 (codes "Not Found") (codes "Not found")

abbrev pub unauthorized : Reply
unauthorized = record (plain 401 (codes "Unauthorized") (codes "Authentication required")) {
  extra_headers = (codes "WWW-Authenticate", codes "Basic realm=\"blueboat\"") ∷ [];
}

abbrev pub done_reply : Reply
done_reply = plain 200 (codes "OK") (codes "OK")

abbrev pub failed : Bytes → Reply
failed body = plain 500 (codes "Internal Server Error") body

-- ADMIN_PREFIX
abbrev pub admin_prefix : Bytes
admin_prefix = codes "/blueboat-panel"

abbrev pub panel_text : Bytes
panel_text = codes "blueboat-cpp admin API. The bundled dashboard UI was not ported."

-- the last value that reached the listener
abbrev pub last_for {ℓ} : {A : Type ℓ} → ℕ → List (ℕ × A) → Option A → Option A
last_for n [] o = o
last_for n ((m, v) ∷ rest) o = last_for n rest (if m == n then some v else o)

module _ (json : Json) (hooks : Bytes → Hooks json.Value) where
  open json use {Value}

  abbrev dump_reply : Value → Run (Server Value) Reply
  dump_reply v = do text ← lift (json.dump v); lift (ok (json_reply 200 (codes "OK") text))

  -- catch (const std::exception &e) of the two POST routes
  abbrev internal_error : Bytes → Run (Server Value) Reply
  internal_error what = do
    text ← lift (json.dump (json.of_object ((codes "message", json.of_string what) ∷ [])))
    lift (ok (json_reply 500 (codes "Internal Server Error") text))

  abbrev rooms_json : List (RoomSnapshot Value) → List Value
  rooms_json [] = []
  rooms_json (room ∷ rooms) = snapshot_to_json json room ∷ rooms_json rooms

  unfoldable pub list_rooms : Run (Server Value) Reply
  unfolding get_rooms
  list_rooms s =
      let rooms = get_rooms json s in dump_reply (json.of_array (rooms_json rooms.0)) rooms.1

  abbrev found : Option Value → Run (Server Value) Reply
  found none = lift (ok (plain 404 (codes "Not Found") (codes "No room found")))
  found (some info) = dump_reply info

  abbrev subscribe : Bytes → ℕ → Server Value → Server Value
  subscribe id n s = record s {
    channels = PubSub.on Protocol.request_info id (admin_reply n) s.channels;
  }

  abbrev unsubscribe : Bytes → Server Value → Server Value
  unsubscribe id s = record s { channels = PubSub.unsubscribe Protocol.request_info id s.channels }

  -- The lock is given back before the wait; the wait is over at once where an answer is there.
  abbrev wait_for : ℕ → Run (Server Value) (Unit {0}) → Run (Server Value) (Unit {0})
  wait_for n others s = elim (last_for n s.replies none) [ none ↦ others s | some v ↦ done s ]

  abbrev info_request : Value
  info_request = json.of_object ((codes "action", json.of_string Protocol.request_info) ∷ [])

  -- `n` tells the listener's closure from others, and `id` is its random id.
  unfoldable pub room_info_reply :
      Bytes → ℕ → Run (Server Value) (Unit {0}) → Bytes → Run (Server Value) Reply
  unfolding publish
  room_info_reply id n others room_id = do
    modify (subscribe id n)
    publish json hooks room_id info_request
    wait_for n others
    modify (unsubscribe id)
    with_state (λ s. found (last_for n s.replies none))

  unfoldable pub get_game_values : Run (Server Value) Reply
  get_game_values s = dump_reply (GameValues.get_all json s.now s.storage) s

  abbrev keep_storage :
      Server Value → Result (Unit {0}) × Storage → Option (Result (Unit {0}) × Server Value)
  keep_storage s (r, st) = some (r, record s { storage = st })

  abbrev set_values : Value → Run (Server Value) (Unit {0})
  set_values v s = keep_storage s (GameValues.set_all json s.now v s.storage)

  unfoldable pub set_game_values : Request → Run (Server Value) Reply
  set_game_values request =
      try_catch (do body ← lift (json.parse request.body); set_values body; lift (ok done_reply))
        internal_error

  abbrev pub external_payload : Value → Value → Value
  external_payload key content = json.of_object (
      (codes "action", json.of_string Protocol.external_message)
      ∷ (codes "data", json.of_object ((codes "key", key) ∷ (codes "data", content) ∷ []))
      ∷ [])

  -- contains(name) && body[name].is_string()
  abbrev string_at : Value → Bytes → Option Value
  string_at body name =
      if json.contains body name
      then elim (json.at body name) [
        | ok v ↦ if json.is_string v then some v else none
        | throws e ↦ none
      ]
      else none

  abbrev send_external : Value → Option Value → Option Value → Run (Server Value) Reply
  send_external body none room =
      lift (ok (failed (codes "Key property required for external messages")))
  send_external body (some key) none =
      lift (ok (failed (codes "Room property required for external messages")))
  send_external body (some key) (some room) = do
    name ← lift (json.get_string room)
    content ← lift (json.value body (codes "data") json.null)
    publish json hooks name (external_payload key content)
    lift (ok done_reply)

  unfoldable pub post_external_message : Request → Run (Server Value) Reply
  unfolding publish
  post_external_message request =
      try_catch
        (do
          body ← lift (json.parse request.body)
          send_external body (string_at body (codes "key")) (string_at body (codes "room")))
        internal_error

  module _ (decode_block : Bytes → Option Bytes) (admins : Assoc Bytes) (id : Bytes) (n : ℕ)
      (others : Run (Server Value) (Unit {0})) where
    abbrev room_or_values : Bytes → Option Bytes → Run (Server Value) Reply
    room_or_values route (some room_id) = room_info_reply id n others room_id
    room_or_values route none =
        if bytes_eq route (codes "/gameValues") then get_game_values else lift (ok not_found)

    abbrev get_route : Bytes → Run (Server Value) Reply
    get_route route =
        if is_empty route || bytes_eq route (codes "/")
        then dump_reply (json.of_object ((codes "message", json.of_string panel_text) ∷ []))
        else if bytes_eq route (codes "/rooms")
        then list_rooms
        else room_or_values route (strip_prefix (codes "/rooms/") route)

    abbrev post_route : Bytes → Request → Run (Server Value) Reply
    post_route route request =
        if bytes_eq route (codes "/gameValues")
        then set_game_values request
        else if bytes_eq route (codes "/external-message")
        then post_external_message request
        else lift (ok not_found)

    unfoldable pub admin_route : Bytes → Request → Run (Server Value) Reply
    unfolding list_rooms room_info_reply get_game_values set_game_values post_external_message
    admin_route route request =
        if bytes_eq request.method (codes "GET")
        then get_route route
        else if bytes_eq request.method (codes "POST")
        then post_route route request
        else lift (ok not_found)

    abbrev pub if_allowed : Bytes → Request → Bool → Run (Server Value) Reply
    if_allowed route request true = admin_route route request
    if_allowed route request false = lift (ok unauthorized)

    abbrev pub under_prefix : Request → Option Bytes → Run (Server Value) Reply
    under_prefix request none = lift (ok not_found)
    under_prefix request (some route) = do
      allowed ← lift (check_basic_auth decode_block admins request)
      if_allowed route request allowed

    unfoldable pub handle_admin_request : Request → Run (Server Value) Reply
    unfolding strip_prefix check_basic_auth admin_route
    handle_admin_request request = under_prefix request (strip_prefix admin_prefix request.path)
