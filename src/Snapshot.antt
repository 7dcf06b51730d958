-- ===== src/Snapshot.antt =====
-- server/include/blueboat/simple_client.hpp and room_snapshot.hpp: a client's identity, the record
-- of a room in the store, and their conversions to and from JSON.
pub mod RoundTrip
use blueboat_cpp.Base.{
  ℕ, Option, none, some, [], ◌∷◌, if◌then◌else◌, Bytes, codes, Assoc, Result, ◌>>=◌, ok,
}
use blueboat_cpp.Json.{Json, object}

pub record SimpleClient : Type 0 where
  pub id : Bytes
  pub session_id : Bytes
  pub origin : Bytes
  pub ip : Bytes

pub record RoomSnapshot (V : Type 0) : Type 0 where
  pub id : Bytes
  pub type : Bytes
  pub owner : SimpleClient
  pub metadata : V
  pub created_at : ℕ

abbrev pub no_client : SimpleClient
no_client = record { id = []; session_id = []; origin = []; ip = [] }

module _ (json : Json) where
  open json use {Value}

  abbrev client_fields : SimpleClient → Assoc Value
  client_fields c =
      (codes "id", json.of_string c.id)
      ∷ (codes "sessionId", json.of_string c.session_id)
      ∷ (codes "origin", json.of_string c.origin)
      ∷ (codes "ip", json.of_string c.ip)
      ∷ []

  unfoldable pub client_to_json : SimpleClient → Value
  client_to_json c = json.of_object (client_fields c)

  unfoldable pub client_from_json : Value → Result SimpleClient
  client_from_json j = do
    id ← json.value_string j (codes "id") []
    session_id ← json.value_string j (codes "sessionId") []
    origin ← json.value_string j (codes "origin") []
    ip ← json.value_string j (codes "ip") []
    ok (record { id = id; session_id = session_id; origin = origin; ip = ip })

  abbrev snapshot_fields : RoomSnapshot Value → Assoc Value
  snapshot_fields s =
      (codes "id", json.of_string s.id)
      ∷ (codes "type", json.of_string s.type)
      ∷ (codes "owner", client_to_json s.owner)
      ∷ (codes "metadata", s.metadata)
      ∷ (codes "createdAt", json.of_number s.created_at)
      ∷ []

  unfoldable pub snapshot_to_json : RoomSnapshot Value → Value
  unfolding client_to_json
  snapshot_to_json s = json.of_object (snapshot_fields s)

  -- the `owner` of a default-constructed snapshot stays where the key is missing
  owner_from_json : Value → Result SimpleClient
  owner_from_json j =
      if json.contains j (codes "owner")
      then (json.at j (codes "owner") >>= client_from_json)
      else ok no_client

  -- a negative `createdAt` does not occur: the field is read as a natural number
  abbrev since_epoch : Option ℕ → ℕ
  since_epoch none = 0
  since_epoch (some n) = n

  unfoldable pub snapshot_from_json : Value → Result (RoomSnapshot Value)
  unfolding owner_from_json client_from_json
  snapshot_from_json j = do
    id ← json.value_string j (codes "id") []
    type ← json.value_string j (codes "type") []
    owner ← owner_from_json j
    metadata ← json.value j (codes "metadata") (object json)
    created_at ← json.value_number j (codes "createdAt") (some 0)
    ok (record {
      id = id;
      type = type;
      owner = owner;
      metadata = metadata;
      created_at = since_epoch created_at;
    })
