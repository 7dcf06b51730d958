-- ===== src/GameValues/Values.antt =====
-- What is read after a game value is set.
use blueboat_cpp.Base.{
  ℕ, ◌≡◌, refl, ◌≢◌, inl, inr, true, false, arith, if◌then◌else◌, Bool-cases, Bytes, bytes_eq,
  bytes_eq_refl, bytes_eq_iff, ok,
}
use blueboat_cpp.Json.{Json}
use blueboat_cpp.Protocol.{game_values}
use blueboat_cpp.Storage.{Storage}
use blueboat_cpp.Storage.Expiry.{get-set}
use blueboat_cpp.GameValues.{set_all, get_all, get, set}

ne_key : (k key : Bytes) → bytes_eq k key ≡ false → k ≢ key
ne_key k key h e = ground (arith, bytes_eq_iff k key)

module _ (json : Json) where
  open json use {Value}

  -- The value's text parses to the value.
  pub record IsStorable (v : Value) : Type 0 where
    pub text : Bytes
    pub dumped : json.dump v ≡ ok text
    pub parsed : json.parse text ≡ ok v

  -- Values whose text parses to them, once set, are read at every later time, however long after:
  -- they do not expire.
  pub get_all-set_all :
      (now later : ℕ) (v : Value) (st : Storage)
      → IsStorable v
      → get_all json later (set_all json now v st).1 ≡ v
  unfolding get_all set_all
  get_all-set_all now later v st w =
      rw
        (
          w.dumped,
          get-set now later game_values game_values w.text true st,
          bytes_eq_refl game_values,
          w.parsed,
        )
        refl

  -- `assign` is `values[key] = v`: what the documentation says of it, at one key and value.
  pub record Assigns (old : Value) (key : Bytes) (v new : Value) : Type 0 where
    pub assigned : json.assign old key v ≡ ok new
    pub self : (json.contains new key ≡ true) × (json.at new key ≡ ok v)
    pub others :
        (k : Bytes)
        → k ≢ key
        → (json.contains new k ≡ json.contains old k) × (json.at new k ≡ json.at old k)

  -- Where the assignment of one value is as documented, and the values' text parses to them, a read
  -- of its key at any later time returns it, and a read of another key returns what it returned
  -- from the values at the time of the write.
  pub get-set_value :
      (now later : ℕ) (key k : Bytes) (v new d : Value) (st : Storage)
      → Assigns (get_all json now st) key v new
      → IsStorable new
      → get json later k d (set json now key v st).1
        ≡ (if bytes_eq k key then ok v else get json now k d st)
  unfolding get set
  get-set_value now later key k v new d st a w =
      rw (a.assigned, get_all-set_all now later new st w)
        (elim (Bool-cases (bytes_eq k key)) [
          | inl same ↦ rw (same, (bytes_eq_iff k key).0 same, a.self.0) a.self.1
          | inr other ↦
              rw (other, (a.others k (ne_key k key other)).0)
                (rw ((a.others k (ne_key k key other)).1) refl)
        ])
