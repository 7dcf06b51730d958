-- ===== src/Tests/Waits.antt =====
-- A wait for a client that left a room with two others.
use blueboat_cpp.Room.Reconnection.Outcome.{Answers, allow_reconnection-answer}
use blueboat_cpp.Room.Reconnection.{
  allow_reconnection, Lobby, of_wait, Event, joined, left, elapsed, happen, returned,
}
use blueboat_cpp.Snapshot.{SimpleClient}
use blueboat_cpp.Callback.{add}
use blueboat_cpp.Base.{
  ◌≡◌, refl, true, false, none, some, List, [], ◌∷◌, Bytes, codes, bytes_eq, is_empty,
}

abbrev guest : Bytes → SimpleClient
guest name = record { id = name; session_id = name; origin = []; ip = [] }

abbrev here : List SimpleClient
here = guest (codes "a") ∷ guest (codes "b") ∷ []

abbrev events : List Event
events = left (codes "a") ∷ joined (guest (codes "c")) ∷ []

abbrev begun : Lobby
begun = record {
  clients = here;
  on_join_listeners =
      record { callback = of_wait (codes "z"); once = false; called_once = false; id = codes "s" }
      ∷ [];
  wait = record {
    client_id = codes "z";
    promise = none;
    resolved = false;
    join_sub = some (codes "s");
    timeout = true;
  };
}

allow_reconnection-answer_example :
    ((l : Lobby) × (happen (left (codes "a") ∷ joined (guest (codes "c")) ∷ elapsed ∷ []) begun
        ≡ some l)
      × Answers (codes "z") (codes "s") false l)
    × ((c : SimpleClient)
        → bytes_eq c.id (codes "z") ≡ true
        → happen (left (codes "a") ∷ joined (guest (codes "c")) ∷ joined c ∷ []) begun ≡ none)
    × (is_empty (guest (codes "b") ∷ guest (codes "c") ∷ []) ≡ true
        → happen (left (codes "a") ∷ joined (guest (codes "c")) ∷ returned ∷ []) begun ≡ none)
unfolding allow_reconnection add bytes_eq
allow_reconnection-answer_example =
    allow_reconnection-answer (guest (codes "z")) (codes "s") here [] events [] begun tt (refl, tt)
      refl
