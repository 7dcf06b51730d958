-- ===== src/Callback.antt =====
-- common/include/blueboat/common/callback.hpp: an ordered list of listeners, some called only once.
-- A random id is an argument of `add`. A listener is a value of any type, and what it does to this
-- list while it runs is a function `clears` from listeners to the ids that it unsubscribes.
pub mod Calls
use blueboat_cpp.Base.{
  Bool, true, false, not, ◌&&◌, Option, none, some, List, [], ◌∷◌, ◌++◌, if◌then◌else◌, Bytes,
  bytes_eq, keep_if, any,
}

pub record Entry {ℓ} (C : Type ℓ) : Type ℓ where
  pub callback : C
  pub once : Bool
  pub called_once : Bool
  pub id : Bytes

module _ {ℓ} {C : Type ℓ} where
  unfoldable pub add : C → Bool → Bytes → List (Entry C) → List (Entry C)
  add callback only_call_once id entries = entries ++ entry ∷ []
    where
      entry : Entry C
      entry = record { callback = callback; once = only_call_once; called_once = false; id = id }

  unfoldable pub remove : Bytes → List (Entry C) → List (Entry C)
  remove id entries = keep_if (λ e. not (bytes_eq e.id id)) entries

  unfoldable pub clear : List (Entry C) → List (Entry C)
  clear entries = []

  abbrev pub is_done : Entry C → Bool
  is_done e = e.once && e.called_once

  unfoldable pub remove_called_once : List (Entry C) → List (Entry C)
  remove_called_once entries = keep_if (λ e. not (is_done e)) entries

  -- whether erasing the entries with these ids takes an entry out of the vector
  abbrev pub hits : List Bytes → List (Entry C) → Bool
  hits ids entries = any (λ e. any (λ i. bytes_eq e.id i) ids) entries

  abbrev pub mark : Entry C → Entry C
  mark e = record e { called_once = true }

  abbrev called : Entry C → Option (List C × List (Entry C)) → Option (List C × List (Entry C))
  called e none = none
  called e (some (cs, es)) = some (e.callback ∷ cs, mark e ∷ es)

  abbrev skipped : Entry C → Option (List C × List (Entry C)) → Option (List C × List (Entry C))
  skipped e none = none
  skipped e (some (cs, es)) = some (cs, e ∷ es)

  module _ (clears : C → List Bytes) where
    -- The range-for over `entries_`: the listeners that it calls, in order, and the entries with
    -- their marks. `vector::erase` ends the validity of the loop's end iterator, so a listener that
    -- takes an entry out of the list leaves the loop with no defined behaviour, which is `none`.
    unfoldable pub visit : List (Entry C) → List (Entry C) → Option (List C × List (Entry C))
    visit all [] = some ([], [])
    visit all (e ∷ es) =
        let rest = visit all es in
        if e.called_once && e.once
        then skipped e rest
        else if hits (clears e.callback) all
        then none
        else called e rest

    abbrev tidy : Option (List C × List (Entry C)) → Option (List C × List (Entry C))
    tidy none = none
    tidy (some (cs, es)) = some (cs, if any is_done es then remove_called_once es else es)

    unfoldable pub call : List (Entry C) → Option (List C × List (Entry C))
    unfolding visit remove_called_once
    call entries = tidy (visit entries entries)
