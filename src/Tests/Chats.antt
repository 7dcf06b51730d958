-- ===== src/Tests/Chats.antt =====
-- A chat room with two clients, in which one speaks and another joins.
use blueboat_cpp.Tests.Rooms.{bob, pair_of_clients, ada}
use blueboat_cpp.Room.State.{World}
use blueboat_cpp.ChatRoom
use blueboat_cpp.ChatRoom.History
use blueboat_cpp.Json.Sample.{
  sample, Tree, nil, obj, arr, stop, fields, to_assoc, items, to_list, type_error, object_of,
}
use blueboat_cpp.Tests.Frames.{to_list-items}
use blueboat_cpp.Base.{
  ◌≡◌, refl, ap, false, Option, none, some, List, [], ◌∷◌, ◌++◌, Bytes, codes, bytes_eq, Assoc,
  find, put, Result, ◌>>=◌, ok,
}

abbrev element : Tree → Bytes → Assoc Tree → Option Tree → Result (Tree × Tree)
element v k fs none = ok (obj (fields (put k nil fs)), nil)
element v k fs (some x) = ok (v, x)

abbrev lists : ChatRoom.Items sample
lists = record {
  index = λ v k. (do fs ← object_of v; element v k fs (find k fs));
  push_back = λ v x. elim v [
    | arr vs ↦ ok (arr (items (to_list vs ++ x ∷ [])))
    | nil ↦ ok (arr (items (x ∷ [])))
    | _ ↦ type_error
  ];
}

lists_laws : History.ItemLaws sample lists
unfolding fields to_assoc find put bytes_eq
lists_laws = record {
  is_string_of_string = λ s. refl;
  get_string_of_string = λ s. refl;
  index_messages = λ vs. refl;
  push_back_array = λ vs v. ap (λ us. ok (arr (items (us ++ v ∷ [])))) (to_list-items vs);
  assign_messages = λ vs us. refl;
}

abbrev lobby : World Tree
lobby = record {
  room = record pair_of_clients { initial_game_values = obj stop };
  storage = [];
  channels = [];
  scheduler = record { tasks = []; cancelled = λ h. false; next_handle = 0 };
  now = 5;
  frames = [];
  published = [];
  disposed = [];
}

abbrev all_said : List Tree
all_said =
    ChatRoom.chat_message sample lists (codes "Welcome to the chat!") ChatRoom.bot
    ∷ ChatRoom.chat_message sample lists (codes "hi") (codes "ada")
    ∷ []

on_join-history_example :
    ChatRoom.on_join sample lists bob nil (
      History.say sample lists lists_laws
        ((ada, codes "hi") ∷ [])
        (ChatRoom.on_create sample lists nil lobby).1)
    ≡ (
      ok tt,
      record lobby {
        room = record lobby.room { state = ChatRoom.with_messages sample lists all_said };
        frames =
            History.frames_to sample lists
              (codes "r1")
              (codes "MESSAGE")
              (ChatRoom.chat_message sample lists (codes "hi") (codes "ada"))
              (ada ∷ bob ∷ [])
            ++ History.frame_to sample lists
                (codes "r1")
                (codes "MESSAGES")
                (arr (items all_said))
                bob
              ∷ [];
      },
    )
unfolding find to_assoc
on_join-history_example =
    History.on_join-history sample lists lists_laws nil nil (codes "Welcome to the chat!")
      ((ada, codes "hi") ∷ []) bob lobby refl
