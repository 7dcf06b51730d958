-- ===== src/Tests/Servers.antt =====
-- Requests to a server with one room.
use blueboat_cpp.Server.Escapes.{Contained, requests-Contained, handle_send_throws}
use blueboat_cpp.Server.Creation.{choose_id, pick_id}
use blueboat_cpp.Tests.Rooms.{ada, pair_of_clients, quiet}
use blueboat_cpp.Server.Ids.{IsFresh, Drawn, choose_id-IsFresh}
use blueboat_cpp.Json.Sample.{to_assoc, Tree, sample, nil, str, obj, stop, field}
use blueboat_cpp.Server.Requests.{Draws, handle_create, handle_join, handle_send}
use blueboat_cpp.Server.State.{Server}
use blueboat_cpp.Room.State.{Hooks, player_left}
use blueboat_cpp.Base.{
  ℕ, ◌≡◌, refl, ◌⊎◌, true, false, some, List, [], ◌∷◌, ◌++◌, Bytes, codes, bytes_eq, find, ok,
  throws,
}
use blueboat_cpp.Protocol
use blueboat_cpp.Room.Ending

abbrev pub hooks : Bytes → Hooks Tree
hooks room_type = quiet

abbrev pub managed : Server Tree
managed = record {
  registered = (codes "chess", nil) ∷ [];
  rooms = (codes "r1", pair_of_clients) ∷ [];
  connections = (codes "s1", ada) ∷ [];
  last_activity = [];
  storage = [];
  channels =
      (Protocol.player_left, record { id = codes "y"; handler = player_left (codes "r1") } ∷ [])
      ∷ [];
  scheduler = record { tasks = []; cancelled = λ h. false; next_handle = 0 };
  now = 5;
  sent = [];
  pongs = [];
  replies = [];
}

abbrev pub draws : Draws sample hooks
draws = ((codes "x", codes "y"), (λ i. codes "r" ++ i ∷ []), 5)

pub keeps : (room_type : Bytes) → Ending.KeepDisposing sample (hooks room_type)
keeps room_type = record { listeners = λ c b w h. h; leave = λ c b w h. h }

abbrev numbered : ℕ → Bytes
numbered i = i ∷ []

abbrev zeros : List Bytes
zeros = (0 ∷ []) ∷ []

abbrev one : Bytes
one = 1 ∷ []

one_drawn : choose_id [] numbered zeros ≡ ok one
unfolding choose_id pick_id bytes_eq
one_drawn = refl

choose_id-IsFresh_example :
    IsFresh zeros one × ((true ≡ false) × (one ≡ []) ⊎ (true ≡ true) × Drawn 3 numbered one)
choose_id-IsFresh_example = choose_id-IsFresh [] numbered zeros one one_drawn

abbrev create_request : Tree
create_request = obj (
    field (codes "uniqueRequestId") (str (codes "u"))
      (field (codes "type") (str (codes "chess")) (field (codes "roomId") (str (codes "r1")) stop)))

requests-Contained_example :
    Contained sample hooks (handle_create sample hooks draws ada create_request managed)
    × Contained sample hooks (handle_join sample hooks ada create_request managed)
unfolding find to_assoc bytes_eq
requests-Contained_example =
    requests-Contained sample hooks draws ada create_request create_request (codes "u")
      (codes "chess") (codes "r1") managed refl refl refl

-- a message for the "room" with the name of the channel of leaving players
abbrev stray : Tree
stray =
    obj
      (field (codes "room") (str Protocol.player_left) (field (codes "key") (str (codes "k")) stop))

handle_send_throws_example :
    (s' : Server Tree) × (handle_send sample hooks ada stray managed
      ≡ some (throws (codes "type_error"), s'))
unfolding find to_assoc bytes_eq
handle_send_throws_example =
    handle_send_throws sample hooks ada stray (str (codes "k")) nil (codes "type_error") (codes "y")
      (codes "r1") pair_of_clients [] managed refl refl refl refl refl refl refl
