-- ===== src/PubSub/Delivery.antt =====
-- Who is on a channel after a subscription and after its end.
use blueboat_cpp.Base.{
  ◌≡◌, inl, inr, true, false, List, [], ◌∷◌, ◌++◌, arith, if◌then◌else◌, Bool-cases, Option-cases,
  Bytes, bytes_eq, bytes_eq_refl, bytes_eq_iff, is_empty, Assoc, find, find-put, find-erase,
}
use blueboat_cpp.PubSub.{Listener, Subscription, on, unsubscribe, at_key, without, end_subscription}

module _ {ℓ} {H : Type ℓ} where
  without-IsAbsent :
      (id : Bytes) (ls : List (Listener H)) → is_empty (without id ls) ≡ true → without id ls ≡ []
  without-IsAbsent id ls h = ground arith

  -- A new listener is the last of its channel; the other channels are as before.
  pub at_key-on :
      (key k id : Bytes) (h : H) (ps : Assoc (List (Listener H)))
      → at_key k (on key id h ps) ≡ (
          if bytes_eq key k
          then at_key k ps ++ record { id = id; handler = h } ∷ []
          else at_key k ps)
  unfolding on
  at_key-on key k id h ps = ground (
    arith,
    bytes_eq_iff key k,
    find-put key k (at_key key ps ++ record { id = id; handler = h } ∷ []) ps,
  )

  -- The end of a subscription takes the listeners with its id off its channel, and keeps the order
  -- of the others; the other channels are as before.
  pub at_key-unsubscribe :
      (key k id : Bytes) (ps : Assoc (List (Listener H)))
      → at_key k (unsubscribe key id ps)
        ≡ (if bytes_eq key k then without id (at_key k ps) else at_key k ps)
  unfolding unsubscribe
  at_key-unsubscribe key k id ps = elim (Option-cases (find key ps)) [
    | inl e ↦ ground (arith, bytes_eq_iff key k)
    | inr (ls, e) ↦ elim (Bool-cases (is_empty (without id ls))) [
      | inl gone ↦ ground (arith, bytes_eq_iff key k, find-erase key k ps, without-IsAbsent id ls)
      | inr left ↦ ground (arith, bytes_eq_iff key k, find-put key k (without id ls) ps)
    ]
  ]

  -- No listener has the id.
  abbrev pub HasNone : Bytes → List (Listener H) → Type 0
  HasNone id [] = Unit
  HasNone id (l ∷ ls) = (bytes_eq l.id id ≡ false) × HasNone id ls

  without-HasNone : (id : Bytes) (ls : List (Listener H)) → HasNone id (without id ls)
  without-HasNone id [] = tt
  without-HasNone id (l ∷ ls) = elim (Bool-cases (bytes_eq l.id id)) [
    | inl e ↦ rw e (without-HasNone id ls)
    | inr e ↦ rw e (e, without-HasNone id ls)
  ]

  without-keeps :
      (id other : Bytes) (ls : List (Listener H)) → HasNone id ls → HasNone id (without other ls)
  without-keeps id other [] h = tt
  without-keeps id other (l ∷ ls) (n, h) = elim (Bool-cases (bytes_eq l.id other)) [
    | inl e ↦ rw e (without-keeps id other ls h)
    | inr e ↦ rw e (n, without-keeps id other ls h)
  ]

  -- When a subscription that is active has ended, its listener is not on its channel.
  pub end_subscription-HasNone :
      (sub : Subscription) (ps : Assoc (List (Listener H)))
      → sub.active ≡ true
      → HasNone sub.id (at_key sub.key (end_subscription sub ps).1)
  unfolding end_subscription
  end_subscription-HasNone sub ps e =
      rw (e, at_key-unsubscribe sub.key sub.key sub.id ps, bytes_eq_refl sub.key)
        (without-HasNone sub.id (at_key sub.key ps))

  -- The end of a subscription leaves no listener with an id where there was none.
  pub end_subscription-keeps :
      (k id : Bytes) (sub : Subscription) (ps : Assoc (List (Listener H)))
      → HasNone id (at_key k ps)
      → HasNone id (at_key k (end_subscription sub ps).1)
  unfolding end_subscription
  end_subscription-keeps k id sub ps h = elim (Bool-cases sub.active) [
    | inr e ↦ rw e h
    | inl e ↦
        rw (e, at_key-unsubscribe sub.key k sub.id ps)
          (elim (Bool-cases (bytes_eq sub.key k)) [
            | inl same ↦ rw same (without-keeps id sub.id (at_key k ps) h)
            | inr other ↦ rw other h
          ])
  ]
