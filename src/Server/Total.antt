-- ===== src/Server/Total.antt =====
-- What a managed room does on the server ends where the room's operation does.
use blueboat_cpp.Base.{refl, ◌≢◌, inl, inr, Option, none, some, Option-cases, Bytes, find, Result}
use blueboat_cpp.Run.{Run}
use blueboat_cpp.Run.Ends.{Ends}
use blueboat_cpp.Room.State.{Room, World}
use blueboat_cpp.Server.State.{Server, in_room, world_of, settled}

module _ {V : Type 0} where
  settled_ends :
      (id : Bytes) (s : Server V) (o : Option (Result (Unit {0}) × World V))
      → o ≢ none
      → settled id s o ≢ none
  settled_ends id s none h = λ p. h refl
  settled_ends id s (some (r, w)) h = λ p. cc

  pub in_room-Ends :
      (id : Bytes) (op : Room V → Run (World V) (Unit {0}))
      → ((room : Room V) → Ends (op room))
      → Ends (in_room id op)
  unfolding in_room
  in_room-Ends id op h = record {
    at = λ s. elim (Option-cases (find id s.rooms)) [
      | inl e ↦ rw (e, in_room) (λ p. cc)
      | inr (room, e) ↦
          rw (e, in_room)
            (settled_ends id s (op room (world_of s room)) ((h room).at (world_of s room)))
    ];
  }
