-- ===== src/Protocol.antt =====
-- common/include/blueboat/common/protocol.hpp: the names on the wire, on the pub/sub channels and
-- in the store.
use blueboat_cpp.Base.{Bytes, codes}

-- ClientActions
abbrev pub create_new_room : Bytes
create_new_room = codes "blueboat_CREATE_NEW_ROOM"

abbrev pub join_room : Bytes
join_room = codes "blueboat_JOIN_ROOM"

abbrev pub send_message : Bytes
send_message = codes "blueboat_SEND_MESSAGE"

-- ServerActions
abbrev pub client_id_set : Bytes
client_id_set = codes "CLIENT_ID_SET"

abbrev pub joined_room : Bytes
joined_room = codes "blueboat_JOINED_ROOM"

abbrev pub removed_from_room : Bytes
removed_from_room = codes "blueboat_REMOVED_FROM_ROOM"

-- pubsub_listeners
abbrev pub player_left : Bytes
player_left = codes "blueboat-player-left"

abbrev pub request_info : Bytes
request_info = codes "blueboat-request-room-info"

abbrev pub external_message : Bytes
external_message = codes "blueboat-external-message"

-- storage_keys
abbrev pub room_prefix : Bytes
room_prefix = codes "room:"

abbrev pub game_values : Bytes
game_values = codes "game-values"
