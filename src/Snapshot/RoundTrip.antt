-- ===== src/Snapshot/RoundTrip.antt =====
-- A snapshot that is written to JSON and read back.
use blueboat_cpp.Base.{◌≡◌, refl, some, [], codes, bytes_eq, find, ok}
use blueboat_cpp.Json.{Json, ObjectLaws, object}
use blueboat_cpp.Snapshot.{
  SimpleClient, RoomSnapshot, client_fields, client_to_json, client_from_json, snapshot_to_json,
  snapshot_from_json, snapshot_fields, owner_from_json,
}

module _ (json : Json) (laws : ObjectLaws json) where
  pub client_from_json-client_to_json :
      (c : SimpleClient) → client_from_json json (client_to_json json c) ≡ ok c
  unfolding client_from_json client_to_json find bytes_eq
  client_from_json-client_to_json c = simp (
    laws.value_string_object (client_fields json c) (codes "id") c.id [] refl,
    laws.value_string_object (client_fields json c) (codes "sessionId") c.session_id [] refl,
    laws.value_string_object (client_fields json c) (codes "origin") c.origin [] refl,
    laws.value_string_object (client_fields json c) (codes "ip") c.ip [] refl,
  )

  module _ (s : RoomSnapshot json.Value) where
    abbrev written : json.Value
    written = json.of_object (snapshot_fields json s)

    owner_from_json-written : owner_from_json json written ≡ ok s.owner
    unfolding owner_from_json find bytes_eq
    owner_from_json-written =
        rw
          (
            laws.contains_object (snapshot_fields json s) (codes "owner"),
            laws.at_object (snapshot_fields json s) (codes "owner") (client_to_json json s.owner)
                refl,
          )
          (client_from_json-client_to_json s.owner)

    -- With JSON objects as documented, reading back the JSON of a room's snapshot gives the
    -- snapshot, its owner and metadata included.
    pub snapshot_from_json-snapshot_to_json :
        snapshot_from_json json (snapshot_to_json json s) ≡ ok s
    unfolding snapshot_from_json snapshot_to_json find bytes_eq
    snapshot_from_json-snapshot_to_json = simp (
      laws.value_string_object (snapshot_fields json s) (codes "id") s.id [] refl,
      laws.value_string_object (snapshot_fields json s) (codes "type") s.type [] refl,
      owner_from_json-written,
      laws.value_object (snapshot_fields json s) (codes "metadata") s.metadata (object json) refl,
      laws.value_number_object (snapshot_fields json s) (codes "createdAt") s.created_at (some 0)
          refl,
    )
