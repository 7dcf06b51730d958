-- ===== src/Storage/Refinement.antt =====
-- What the store promises: a map from keys to values that are kept for ever or up to a deadline.
-- Nothing is ever dropped from the map, and a listing is a set of ids.
use mathlib.Core.Path.{fun_ext}
use blueboat_cpp.Storage.Expiry.{get-remove, get-set}
use blueboat_cpp.Storage.Keys.{
  is_live, get-fetch_keys, listed, listed-fetch_keys, set-IsMap, remove-IsMap, fetch_keys-IsMap,
}
use blueboat_cpp.Storage.{get, Storage, three_hours, set, remove, fetch_keys}
use blueboat_cpp.Base.{
  ℕ, ◌+◌, ◌≤◌, ◌≡◌, refl, ap, ◌∙◌, Bool, true, false, Option, none, some, List, [], ◌∷◌, ◌++◌,
  arith, ltb, leb, if◌then◌else◌, Bytes, bytes_eq, find, IsMap,
}

-- A value and the last time at which it is read, for each key that has one.
abbrev pub Ledger : Type 0
Ledger = Bytes → Option (Bytes × Option ℕ)

abbrev still_read : ℕ → Option ℕ → Bool
still_read now none = true
still_read now (some deadline) = leb now deadline

abbrev seen_at : ℕ → Option (Bytes × Option ℕ) → Option Bytes
seen_at now none = none
seen_at now (some (value, deadline)) = if still_read now deadline then some value else none

abbrev pub read : ℕ → Bytes → Ledger → Option Bytes
read now key m = seen_at now (m key)

abbrev pub write : ℕ → Bytes → Bytes → Bool → Ledger → Ledger
write now key value no_expiration m = λ k.
    if bytes_eq key k
    then some (value, if no_expiration then none else some (now + three_hours))
    else m k

abbrev pub forget : Bytes → Ledger → Ledger
forget key m = λ k. if bytes_eq key k then none else m k

-- The calls of the store, and what they return.
pub data StoreOp : Type 0 where
  get_op : Bytes → StoreOp
  set_op : Bytes → Bytes → Bool → StoreOp
  remove_op : Bytes → StoreOp
  fetch_keys_op : Bytes → StoreOp

pub data Answer : Type 0 where
  nothing : Answer
  value_read : Option Bytes → Answer
  ids : (Bytes → Bool) → Answer

abbrev step : ℕ → StoreOp → Storage → Answer × Storage
step now (get_op k) st = (value_read (get now k st), st)
step now (set_op k v b) st = (nothing, set now k v b st)
step now (remove_op k) st = (nothing, remove k st)
step now (fetch_keys_op p) st = let r = fetch_keys now p st in (ids (λ id. listed id r.0), r.1)

abbrev spec_step : ℕ → StoreOp → Ledger → Answer × Ledger
spec_step now (get_op k) m = (value_read (read now k m), m)
spec_step now (set_op k v b) m = (nothing, write now k v b m)
spec_step now (remove_op k) m = (nothing, forget k m)
spec_step now (fetch_keys_op p) m = (ids (λ id. is_live (read now (p ++ id) m)), m)

-- The answers to calls at some times.
abbrev pub answers : List (ℕ × StoreOp) → Storage → List Answer
answers [] st = []
answers ((now, op) ∷ ops) st = let r = step now op st in r.0 ∷ answers ops r.1

abbrev pub promised : List (ℕ × StoreOp) → Ledger → List Answer
promised [] m = []
promised ((now, op) ∷ ops) m = let r = spec_step now op m in r.0 ∷ promised ops r.1

-- The clock does not go back.
abbrev pub InOrder : ℕ → List (ℕ × StoreOp) → Type 0
InOrder start [] = Unit
InOrder start ((now, op) ∷ ops) = (start ≤ now) × InOrder now ops

-- From this time on, the store reads as the map.
record Agrees (now : ℕ) (st : Storage) (m : Ledger) : Type 0 where
  is_map : IsMap st
  reads : (later : ℕ) (k : Bytes) → now ≤ later → get later k st ≡ read later k m

set-Agrees :
    (start now : ℕ) (k v : Bytes) (b : Bool) (st : Storage) (m : Ledger)
    → start ≤ now
    → Agrees start st m
    → Agrees now (set now k v b st) (write now k v b m)
set-Agrees start now k v b st m le h = record {
  is_map = set-IsMap now k v b st h.is_map;
  reads = λ later j later_le. get-set now later k j v b st ∙ new later j b (omega arith);
}
  where
    new :
        (later : ℕ) (j : Bytes) (b : Bool)
        → start ≤ later
        → (if bytes_eq k j
            then (if b then some v else if ltb (now + three_hours) later then none else some v)
            else get later j st)
          ≡ read later j (write now k v b m)
    new later j true l = ground (arith, h.reads later j l)
    new later j false l = ground (arith, h.reads later j l)

remove-Agrees :
    (start now : ℕ) (k : Bytes) (st : Storage) (m : Ledger)
    → start ≤ now
    → Agrees start st m
    → Agrees now (remove k st) (forget k m)
remove-Agrees start now k st m le h = record {
  is_map = remove-IsMap k st h.is_map;
  reads = λ later j l. get-remove later k j st ∙ left later j (omega arith);
}
  where
    left :
        (later : ℕ) (j : Bytes)
        → start ≤ later
        → (if bytes_eq k j then none else get later j st) ≡ read later j (forget k m)
    left later j l = ground (arith, h.reads later j l)

fetch_keys-Agrees :
    (start now : ℕ) (p : Bytes) (st : Storage) (m : Ledger)
    → start ≤ now
    → Agrees start st m
    → Agrees now (fetch_keys now p st).1 m
fetch_keys-Agrees start now p st m le h = record {
  is_map = fetch_keys-IsMap now p st h.is_map;
  reads = λ later j l. get-fetch_keys now later p j st h.is_map l ∙ h.reads later j (omega arith);
}

later-Agrees :
    (start now : ℕ) (st : Storage) (m : Ledger) → start ≤ now → Agrees start st m → Agrees now st m
later-Agrees start now st m le h = record {
  is_map = h.is_map;
  reads = λ later j l. h.reads later j (omega arith);
}

refines :
    (ops : List (ℕ × StoreOp)) (start : ℕ) (st : Storage) (m : Ledger)
    → Agrees start st m
    → InOrder start ops
    → answers ops st ≡ promised ops m
refines [] start st m h o = refl
refines ((now, get_op k) ∷ ops) start st m h o =
    ap (λ v. value_read v ∷ answers ops st) (h.reads now k o.0)
    ∙ ap (◌∷◌ (value_read (read now k m)))
        (refines ops now st m (later-Agrees start now st m o.0 h) o.1)
refines ((now, set_op k v b) ∷ ops) start st m h o =
    ap (◌∷◌ nothing) (refines ops now _ _ (set-Agrees start now k v b st m o.0 h) o.1)
refines ((now, remove_op k) ∷ ops) start st m h o =
    ap (◌∷◌ nothing) (refines ops now _ _ (remove-Agrees start now k st m o.0 h) o.1)
refines ((now, fetch_keys_op p) ∷ ops) start st m h o =
    ap (λ f. ids f ∷ answers ops (fetch_keys now p st).1)
      (fun_ext
        (λ id. listed-fetch_keys now p id st h.is_map ∙ ap is_live (h.reads now (p ++ id) o.0)))
    ∙ ap (◌∷◌ (ids (λ id. is_live (read now (p ++ id) m))))
        (refines ops now _ m (fetch_keys-Agrees start now p st m o.0 h) o.1)

-- The store refines the map: from the empty store, and at times that do not go back, every sequence
-- of reads, writes, removals and listings is answered as the map answers it, the listings as sets.
pub answers-promised :
    (ops : List (ℕ × StoreOp)) → InOrder 0 ops → answers ops [] ≡ promised ops (λ k. none)
unfolding get find
answers-promised ops o =
    refines ops 0 [] (λ k. none) (record { is_map = tt; reads = λ later k l. refl }) o
