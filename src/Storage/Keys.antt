-- ===== src/Storage/Keys.antt =====
-- The listing of the keys under a prefix, and the shape of the table.
use blueboat_cpp.Base.{
  ℕ, ◌≤◌, ◌≡◌, refl, ◌≢◌, inl, inr, Bool, true, false, Option, none, some, List, [], ◌∷◌, ◌++◌,
  arith, Bool-cases, Option-cases, Bytes, bytes_eq, bytes_eq_refl, bytes_eq_iff, strip_prefix,
  strip_prefix-append, strip_prefix-eq_some, any, find, IsMap, put-IsMap, erase-IsMap,
}
use blueboat_cpp.Storage.{Storage, get, fetch_keys, set, remove, keep_key}

purge_absent :
    (now : ℕ) (p k : Bytes) (st : Storage)
    → find k st ≡ none
    → find k (fetch_keys now p st).1 ≡ none
unfolding find fetch_keys
purge_absent now p k [] h = refl
purge_absent now p k ((i, e) ∷ st) h = ground (arith, purge_absent now p k st)

pub fetch_keys-IsMap :
    (now : ℕ) (p : Bytes) (st : Storage) → IsMap st → IsMap (fetch_keys now p st).1
unfolding find fetch_keys
fetch_keys-IsMap now p [] h = tt
fetch_keys-IsMap now p ((i, e) ∷ st) h =
    ground (arith, purge_absent now p i st, fetch_keys-IsMap now p st)

-- In a store where each key stands once, a listing at `now` drops expired entries only: every read
-- at `now` or later is as before it.
pub get-fetch_keys :
    (now later : ℕ) (p k : Bytes) (st : Storage)
    → IsMap st
    → now ≤ later
    → get later k (fetch_keys now p st).1 ≡ get later k st
unfolding get find fetch_keys
get-fetch_keys now later p k [] m h = refl
get-fetch_keys now later p k ((i, e) ∷ st) m h =
    ground (arith, get-fetch_keys now later p k st m.1 h, bytes_eq_iff i k, purge_absent now p i st)

-- Whether `id` is in the list.
abbrev pub listed : Bytes → List Bytes → Bool
listed id = any (λ x. bytes_eq x id)

abbrev pub is_live : Option Bytes → Bool
is_live none = false
is_live (some v) = true

strip_other : (p id i : Bytes) → bytes_eq i (p ++ id) ≡ false → strip_prefix p i ≢ some id
strip_other p id i ne e = ground (arith, strip_prefix-eq_some p i id e, bytes_eq_iff i (p ++ id))

strip_same : (p id i : Bytes) → bytes_eq i (p ++ id) ≡ true → strip_prefix p i ≡ some id
strip_same p id i e = rw ((bytes_eq_iff i (p ++ id)).0 e) (strip_prefix-append p id)

listed-none : (id : Bytes) (ids : List Bytes) → listed id (keep_key none ids) ≡ listed id ids
listed-none id ids = refl

listed-keep_key :
    (p id i : Bytes) (ids : List Bytes)
    → bytes_eq i (p ++ id) ≡ false
    → listed id (keep_key (strip_prefix p i) ids) ≡ listed id ids
listed-keep_key p id i ids ne = elim (Option-cases (strip_prefix p i)) [
  | inl e ↦ rw e refl
  | inr (r, e) ↦
      rw e (ground (arith, bytes_eq_iff r id, strip_prefix-eq_some p i r, bytes_eq_iff i (p ++ id)))
]

-- In a store where each key stands once, the listing at `now` under a prefix holds an id exactly
-- when its key reads as present at `now`.
pub listed-fetch_keys :
    (now : ℕ) (p id : Bytes) (st : Storage)
    → IsMap st
    → listed id (fetch_keys now p st).0 ≡ is_live (get now (p ++ id) st)
unfolding get find fetch_keys
listed-fetch_keys now p id [] m = refl
listed-fetch_keys now p id ((i, e) ∷ st) m = elim (Bool-cases (bytes_eq i (p ++ id))) [
  | inl same ↦ ground (
    arith,
    same,
    strip_same p id i same,
    listed-fetch_keys now p id st m.1,
    bytes_eq_iff i (p ++ id),
    bytes_eq_refl id,
    m.0,
  )
  | inr other ↦ ground (
    arith,
    other,
    listed-fetch_keys now p id st m.1,
    listed-keep_key p id i (fetch_keys now p st).0 other,
  )
]

pub set-IsMap :
    (now : ℕ) (k v : Bytes) (b : Bool) (st : Storage) → IsMap st → IsMap (set now k v b st)
unfolding set
set-IsMap now k v b st m = put-IsMap k _ st m

pub remove-IsMap : (k : Bytes) (st : Storage) → IsMap st → IsMap (remove k st)
unfolding remove
remove-IsMap k st m = erase-IsMap k st m
