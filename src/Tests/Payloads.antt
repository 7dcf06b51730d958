-- ===== src/Tests/Payloads.antt =====
-- What the room with two clients reads on its channel.
use blueboat_cpp.Server.Dispatch.{
  on_game_message-message_payload, on_game_message-join_payload, let_in,
}
use blueboat_cpp.Tests.Servers.{hooks}
use blueboat_cpp.Server.Requests.{message_payload, join_payload}
use blueboat_cpp.Tests.Rooms.{quiet, ada, world}
use blueboat_cpp.Json.Sample.{sample, nil, str, sample_laws}
use blueboat_cpp.Room.Messages.{on_game_message}
use blueboat_cpp.Base.{◌≡◌, some, codes, bytes_eq}

on_game_message-join_payload_example :
    on_game_message sample quiet (join_payload sample hooks ada nil) world
    ≡ let_in sample sample_laws quiet hooks ada nil world
on_game_message-join_payload_example =
    on_game_message-join_payload sample sample_laws quiet hooks ada nil world

on_game_message-message_payload_example :
    on_game_message sample quiet (message_payload sample hooks ada (str (codes "k")) nil) world
    ≡ some (quiet.on_message ada (codes "k") nil world)
unfolding bytes_eq
on_game_message-message_payload_example =
    on_game_message-message_payload sample sample_laws quiet hooks ada (codes "k") nil world
