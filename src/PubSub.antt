-- ===== src/PubSub.antt =====
-- server/include/blueboat/pubsub.hpp, memory_pubsub.hpp and server/src/memory_pubsub.cpp: channels
-- with lists of listeners. A random id is an argument of `on`. A handler is a value of any type,
-- and `publish` takes what a handler does to the program's state, the channels included.
pub mod Delivery
pub mod Shape
use blueboat_cpp.Base.{
  Bool, false, not, Option, none, some, List, [], ◌∷◌, ◌++◌, if◌then◌else◌, Bytes, bytes_eq,
  is_empty, keep_if, Assoc, find, put, erase,
}

pub record Listener {ℓ} (H : Type ℓ) : Type ℓ where
  pub id : Bytes
  pub handler : H

module _ {ℓ} {H : Type ℓ} where
  -- listeners_[key]: a missing key reads as an empty vector
  abbrev pub at_key : Bytes → Assoc (List (Listener H)) → List (Listener H)
  at_key key ps = elim (find key ps) [ none ↦ [] | some ls ↦ ls ]

  unfoldable pub on : Bytes → Bytes → H → Assoc (List (Listener H)) → Assoc (List (Listener H))
  on key id handler ps = put key (at_key key ps ++ record { id = id; handler = handler } ∷ []) ps

  abbrev pub without : Bytes → List (Listener H) → List (Listener H)
  without id = keep_if (λ l. not (bytes_eq l.id id))

  abbrev drop_listener :
      Bytes
      → Bytes
      → Assoc (List (Listener H))
      → Option (List (Listener H))
      → Assoc (List (Listener H))
  drop_listener key id ps none = ps
  drop_listener key id ps (some ls) =
      if is_empty (without id ls) then erase key ps else put key (without id ls) ps

  -- the closure that `on` returns
  unfoldable pub unsubscribe : Bytes → Bytes → Assoc (List (Listener H)) → Assoc (List (Listener H))
  unsubscribe key id ps = drop_listener key id ps (find key ps)

  module _ {κ} {S : Type κ} (run : H → S → S) where
    unfoldable pub deliver : List (Listener H) → S → S
    deliver [] s = s
    deliver (l ∷ ls) s = deliver ls (run l.handler s)

    -- The loop runs over a copy of the vector, made before the first handler runs.
    unfoldable pub publish : Bytes → Assoc (List (Listener H)) → S → S
    unfolding deliver
    publish key ps s = elim (find key ps) [ none ↦ s | some ls ↦ deliver ls s ]

-- PubSubSubscription: the closure runs once, and is then empty
pub record Subscription : Type 0 where
  pub active : Bool
  pub key : Bytes
  pub id : Bytes

abbrev pub no_subscription : Subscription
no_subscription = record { active = false; key = []; id = [] }

module _ {ℓ} {H : Type ℓ} where
  unfoldable pub end_subscription :
      Subscription → Assoc (List (Listener H)) → Subscription × Assoc (List (Listener H))
  unfolding unsubscribe
  end_subscription s ps =
      if s.active then (record s { active = false }, unsubscribe s.key s.id ps) else (s, ps)
