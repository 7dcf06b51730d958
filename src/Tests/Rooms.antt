-- ===== src/Tests/Rooms.antt =====
-- A room with two clients, in a game that does nothing of its own.
use blueboat_cpp.Room.Closing.{dispose-IsClosed}
use blueboat_cpp.Room.Lifecycle.{
  send, drop_client, remove_all, set_disposing, dispose, remove_client_by, remove_all, close,
}
use blueboat_cpp.Json.Sample.{sample, Tree, nil}
use blueboat_cpp.Room.State.{World, Room, Hooks, game_message}
use blueboat_cpp.Snapshot.{SimpleClient}
use blueboat_cpp.Base.{
  ◌≡◌, refl, true, false, Option, none, some, [], ◌∷◌, codes, bytes_eq, Result, ok, throws,
}
use blueboat_cpp.Protocol
use blueboat_cpp.Room.Closing

abbrev pub ada : SimpleClient
ada = record { id = codes "ada"; session_id = codes "s1"; origin = []; ip = [] }

abbrev pub bob : SimpleClient
bob = record { id = codes "bob"; session_id = codes "s2"; origin = []; ip = [] }

abbrev pub quiet : Hooks Tree
quiet = record {
  on_create = λ v w. (ok tt, w);
  can_client_join = λ c v w. (ok tt, w);
  on_join_listeners = λ c w. (ok tt, w);
  on_join = λ c v w. (ok tt, w);
  on_message = λ c k v w. (ok tt, w);
  on_leave_listeners = λ c b w. (ok tt, w);
  on_leave = λ c b w. (ok tt, w);
  before_dispose = λ w. (ok tt, w);
  on_dispose = λ w. (ok tt, w);
  on_external_message = λ k v w. (ok tt, w);
}

abbrev pub pair_of_clients : Room Tree
pair_of_clients = record {
  state = nil;
  initial_game_values = nil;
  room_id = codes "r1";
  room_type = codes "chess";
  options = nil;
  creator_options = nil;
  metadata = nil;
  owner = ada;
  clients = ada ∷ bob ∷ [];
  disposing = false;
  game_message_sub = record { active = true; key = codes "r1"; id = codes "x" };
  player_left_sub = record { active = true; key = Protocol.player_left; id = codes "y" };
  auto_dispose_timer = some 0;
}

abbrev pub world : World Tree
world = record {
  room = pair_of_clients;
  storage = (codes "room:r1", record { value = 1 ∷ []; expires_at = none }) ∷ [];
  channels = (codes "r1", record { id = codes "x"; handler = game_message (codes "r1") } ∷ []) ∷ [];
  scheduler = record { tasks = []; cancelled = λ h. false; next_handle = 1 };
  now = 5;
  frames = [];
  published = [];
  disposed = [];
}

tame : Closing.IsTame sample quiet
tame = record {
  storage = λ w. refl;
  scheduler = λ w. refl;
  channels = λ w. refl;
  room_id = λ w. refl;
  timer = λ w. refl;
  game_message_sub = λ w. refl;
  player_left_sub = λ w. refl;
}

abbrev state_of : Option (Result (Unit {0}) × World Tree) → World Tree
state_of none = world
state_of (some (r, w)) = w

disposed_ok : dispose sample quiet 2 world ≡ some (ok tt, state_of (dispose sample quiet 2 world))
unfolding dispose remove_all remove_client_by bytes_eq close
disposed_ok = refl

dispose-IsClosed_example :
    (u : World Tree) × (v : World Tree) × (remove_all sample quiet
        (dispose sample quiet 1)
        world.room.clients
        (set_disposing sample quiet world)
      ≡ some (ok tt, u))
    × (quiet.before_dispose u ≡ (ok tt, v))
    × Closing.IsClosed sample quiet v (state_of (dispose sample quiet 2 world))
dispose-IsClosed_example =
    dispose-IsClosed sample quiet tame 1 world (state_of (dispose sample quiet 2 world)) refl
      disposed_ok

-- a game that throws when a client leaves
abbrev sore : Hooks Tree
sore = record quiet { on_leave = λ c b w. (throws (codes "stay"), w) }

abbrev stuck : World Tree
stuck =
    send sample ada Protocol.removed_from_room nil
      (drop_client sample sore (codes "s1") (set_disposing sample sore world))
