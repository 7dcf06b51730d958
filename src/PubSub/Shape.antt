-- ===== src/PubSub/Shape.antt =====
-- No channel is kept without listeners.
use blueboat_cpp.Base.{
  ◌≡◌, ◌≢◌, inl, inr, false, Option, none, some, List, [], ◌∷◌, ◌++◌, arith, Bool-cases, Bytes,
  is_empty, Assoc, find, put, erase, find-put, find-erase, IsMap, put-IsMap, erase-IsMap,
}
use blueboat_cpp.PubSub.{Listener, on, unsubscribe, at_key, without, drop_listener}

module _ {ℓ} {H : Type ℓ} where
  -- Each channel stands once, and has a listener.
  pub record IsShaped (ps : Assoc (List (Listener H))) : Type ℓ where
    pub keys : IsMap ps
    pub inhabited : (k : Bytes) → find k ps ≢ some []

  concat-ne-nil : (ls : List (Listener H)) (l : Listener H) → ls ++ l ∷ [] ≢ []
  concat-ne-nil [] l e = cc
  concat-ne-nil (x ∷ ls) l e = cc

  put-IsShaped :
      (key : Bytes) (ls : List (Listener H)) (ps : Assoc (List (Listener H)))
      → ls ≢ []
      → IsShaped ps
      → IsShaped (put key ls ps)
  put-IsShaped key ls ps n v = record {
    keys = put-IsMap key ls ps v.keys;
    inhabited = λ k e. ground (arith, find-put key k ls ps, n, v.inhabited k);
  }

  erase-IsShaped :
      (key : Bytes) (ps : Assoc (List (Listener H))) → IsShaped ps → IsShaped (erase key ps)
  erase-IsShaped key ps v = record {
    keys = erase-IsMap key ps v.keys;
    inhabited = λ k e. ground (arith, find-erase key k ps, v.inhabited k);
  }

  not-is_empty : (ls : List (Listener H)) → is_empty ls ≡ false → ls ≢ []
  not-is_empty ls h e = ground arith

  drop_listener-IsShaped :
      (key id : Bytes) (ps : Assoc (List (Listener H))) (o : Option (List (Listener H)))
      → IsShaped ps
      → IsShaped (drop_listener key id ps o)
  drop_listener-IsShaped key id ps none v = v
  drop_listener-IsShaped key id ps (some ls) v = elim (Bool-cases (is_empty (without id ls))) [
    | inl gone ↦ rw gone (erase-IsShaped key ps v)
    | inr left ↦ rw left (put-IsShaped key (without id ls) ps (not-is_empty (without id ls) left) v)
  ]

  -- From channels that each stand once and have a listener, a subscription and the end of one lead
  -- to such channels.
  on-unsubscribe-IsShaped :
      (key id : Bytes) (h : H) (ps : Assoc (List (Listener H)))
      → IsShaped ps
      → IsShaped (on key id h ps) × IsShaped (unsubscribe key id ps)
  unfolding on unsubscribe
  on-unsubscribe-IsShaped key id h ps v = (
    put-IsShaped key _ ps (concat-ne-nil (at_key key ps) _) v,
    drop_listener-IsShaped key id ps (find key ps) v,
  )
