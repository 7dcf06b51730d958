-- ===== src/Storage/Expiry.antt =====
-- What a read returns after a write, a removal and a listing, at every later time.
use blueboat_cpp.Base.{
  ℕ, ◌+◌, ◌≡◌, Bool, true, false, none, some, arith, ltb, if◌then◌else◌, Bytes, bytes_eq, find-put,
  find-erase,
}
use blueboat_cpp.Storage.{Storage, get, set, remove, three_hours}

-- A read, at any time, after a write at `now`: the written key has the new value, for ever or up to
-- and including three hours after `now`; every other key reads as before.
pub get-set :
    (now later : ℕ) (k j v : Bytes) (no_expiration : Bool) (st : Storage)
    → get later j (set now k v no_expiration st) ≡ (
        if bytes_eq k j
        then (if no_expiration
            then some v
            else if ltb (now + three_hours) later
            then none
            else some v)
        else get later j st)
unfolding get set
get-set now later k j v true st = rw find-put (ground arith)
get-set now later k j v false st = rw find-put (ground arith)

-- A read after a removal: the removed key is gone, every other key reads as before.
pub get-remove :
    (later : ℕ) (k j : Bytes) (st : Storage)
    → get later j (remove k st) ≡ (if bytes_eq k j then none else get later j st)
unfolding get remove
get-remove later k j st = ground (arith, find-erase k j st)
