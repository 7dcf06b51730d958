-- ===== src/Storage.antt =====
-- server/include/blueboat/memory_storage.hpp and server/src/memory_storage.cpp: the store with
-- expiry that rooms and game values are kept in. The mutex makes each call atomic; the clock's
-- reading, in milliseconds, is an argument of the calls that look at it.
pub mod Expiry
pub mod Keys
pub mod Refinement
use blueboat_cpp.Base.{
  ℕ, ◌+◌, ◌*◌, Bool, false, Option, none, some, List, [], ◌∷◌, ltb, if◌then◌else◌, Bytes,
  strip_prefix, Assoc, find, put, erase,
}

pub record Entry : Type 0 where
  pub value : Bytes
  pub expires_at : Option ℕ

-- entries_
abbrev pub Storage : Type 0
Storage = Assoc Entry

abbrev pub empty : Storage
empty = []

-- THREE_HOURS
abbrev pub three_hours : ℕ
three_hours = 3 * 60 * 60 * 1000

unfoldable pub expired : ℕ → Entry → Bool
expired now e = elim e.expires_at [ none ↦ false | some t ↦ ltb t now ]

abbrev live : ℕ → Option Entry → Option Bytes
live now none = none
live now (some e) = if expired now e then none else some e.value

unfoldable pub get : ℕ → Bytes → Storage → Option Bytes
unfolding find expired
get now key st = live now (find key st)

unfoldable pub set : ℕ → Bytes → Bytes → Bool → Storage → Storage
unfolding put
set now key value no_expiration st = put key entry st
  where
    entry : Entry
    entry = record {
      value = value;
      expires_at = if no_expiration then none else some (now + three_hours);
    }

unfoldable pub remove : Bytes → Storage → Storage
unfolding erase
remove key st = erase key st

abbrev keep_key : Option Bytes → List Bytes → List Bytes
keep_key none ids = ids
keep_key (some id) ids = id ∷ ids

-- One round of the loop drops an expired entry, or keeps it and lists its key without the prefix.
unfoldable pub fetch_keys : ℕ → Bytes → Storage → List Bytes × Storage
unfolding expired strip_prefix
fetch_keys now prefix [] = ([], [])
fetch_keys now prefix ((key, e) ∷ st) =
    let rest = fetch_keys now prefix st in
    if expired now e then rest else (keep_key (strip_prefix prefix key) rest.0, (key, e) ∷ rest.1)
