-- ===== src/Room/Ending.antt =====
-- `dispose` and `remove_client` end, and need no more than two levels of calls.
use mathlib.Core.Path.{fun_ext}
use blueboat_cpp.Base.{
  ℕ, suc, ◌≡◌, refl, sym, ap, ◌∙◌, ◌≢◌, inl, inr, Bool, true, false, Option, none, some, List, [],
  ◌∷◌, arith, Bool-cases, Option-cases, Bytes, is_empty, find_if, Result, ok, throws,
}
use blueboat_cpp.Json.{Json}
use blueboat_cpp.Protocol.{removed_from_room}
use blueboat_cpp.Snapshot.{SimpleClient}
use blueboat_cpp.Run.{Run, done, after}
use blueboat_cpp.Room.State.{World, Hooks, has_session}
use blueboat_cpp.Room.Lifecycle.{
  dispose, remove_client_by, remove_all, dispose_if_empty, send, drop_client, leave_room, close,
  set_disposing, remove_client, leave_room,
}

module _ (json : Json) (hooks : Hooks json.Value) where
  open json use {Value}

  -- `disposing_` is private and nothing resets it: what a game does when a client leaves keeps it.
  pub record KeepDisposing : Type 0 where
    pub listeners :
        (c : SimpleClient) (b : Bool) (w : World Value)
        → w.room.disposing ≡ true
        → (hooks.on_leave_listeners c b w).1.room.disposing ≡ true
    pub leave :
        (c : SimpleClient) (b : Bool) (w : World Value)
        → w.room.disposing ≡ true
        → (hooks.on_leave c b w).1.room.disposing ≡ true

  -- It returned or threw, and the room is still marked.
  abbrev pub StaysMarked : Option (Result (Unit {0}) × World Value) → Type 0
  StaysMarked none = ⊥
  StaysMarked (some (r, w)) = w.room.disposing ≡ true

  pub dispose-marked :
      (f : ℕ) (w : World Value) → w.room.disposing ≡ true → dispose json hooks (suc f) w ≡ done w
  unfolding dispose
  dispose-marked f w h = rw h

  pub dispose-step :
      (f : ℕ) (w : World Value)
      → w.room.disposing ≡ false
      → dispose json hooks (suc f) w
        ≡ after
            (remove_all json hooks
              (dispose json hooks f)
              w.room.clients
              (set_disposing json hooks w))
            (λ _. close json hooks)
  unfolding dispose
  dispose-step f w h =
      ap
        (λ (b : Bool). elim b as (λ _. Option (Result (Unit {0}) × World Value)) [
          | true ↦ done w
          | false ↦
              after
                (remove_all json hooks (dispose json hooks f) w.room.clients
                  (set_disposing json hooks w))
                (λ _. close json hooks)
        ])
        h

  pub remove_client_by-found :
      (again : Run (World Value) (Unit {0})) (sid : Bytes) (b : Bool) (w : World Value)
      (c : SimpleClient)
      → find_if (has_session sid) w.room.clients ≡ some c
      → remove_client_by json hooks again sid b w ≡ leave_room json hooks again sid b c w
  unfolding remove_client_by
  remove_client_by-found again sid b w c e =
      ap
        (λ (o : Option SimpleClient). elim o as (λ _. Option (Result (Unit {0}) × World Value)) [
          | none ↦ done w
          | some client ↦ leave_room json hooks again sid b client w
        ])
        e

  abbrev Agrees : (a b : Option (Result (Unit {0}) × World Value)) → Type 0
  Agrees a b = StaysMarked a × (a ≡ b)

  dispose_if_empty-marked :
      (f : ℕ) (w : World Value)
      → w.room.disposing ≡ true
      → Agrees
          (dispose_if_empty json hooks (dispose json hooks (suc f)) w)
          (dispose_if_empty json hooks done w)
  dispose_if_empty-marked f w h = elim (Bool-cases (is_empty w.room.clients)) [
    | inl e ↦ rw (e, dispose-marked f w h) (h, refl)
    | inr e ↦ rw e (h, refl)
  ]

  after-hook :
      (r : Result (Unit {0}) × World Value) (m n : Run (World Value) (Unit {0}))
      → r.1.room.disposing ≡ true
      → ((w : World Value) → w.room.disposing ≡ true → Agrees (m w) (n w))
      → Agrees (after (some r) (λ _. m)) (after (some r) (λ _. n))
  after-hook (ok u, w) m n h k = k w h
  after-hook (throws e, w) m n h k = (h, refl)

  kept :
      (c : SimpleClient) (sid : Bytes) (w : World Value)
      → w.room.disposing ≡ true
      → (send json c removed_from_room json.null (drop_client json hooks sid w)).room.disposing
        ≡ true
  unfolding send
  kept c sid w h = h

  module _ (keep : KeepDisposing) where
    leave-marked :
        (f : ℕ) (sid : Bytes) (b : Bool) (c : SimpleClient) (w : World Value)
        → w.room.disposing ≡ true
        → Agrees
            (leave_room json hooks (dispose json hooks (suc f)) sid b c w)
            (leave_room json hooks done sid b c w)
    leave-marked f sid b c w h =
        let w₁ = send json c removed_from_room json.null (drop_client json hooks sid w) in
        after-hook (hooks.on_leave_listeners c b w₁) _ _ (keep.listeners c b w₁ (kept c sid w h))
          λ w₂ h₂.
            after-hook (hooks.on_leave c b w₂) _ _ (keep.leave c b w₂ h₂)
              λ w₃ h₃. dispose_if_empty-marked f w₃ h₃

    remove_client_by-marked :
        (f : ℕ) (sid : Bytes) (b : Bool) (w : World Value)
        → w.room.disposing ≡ true
        → Agrees
            (remove_client_by json hooks (dispose json hooks (suc f)) sid b w)
            (remove_client_by json hooks done sid b w)
    unfolding remove_client_by
    remove_client_by-marked f sid b w h =
        elim (Option-cases (find_if (has_session sid) w.room.clients)) [
          | inl e ↦ rw (e, remove_client_by) (h, refl)
          | inr (c, e) ↦ rw (e, remove_client_by) (leave-marked f sid b c w h)
        ]

    after-marked :
        (a b : Option (Result (Unit {0}) × World Value)) (m n : Run (World Value) (Unit {0}))
        → Agrees a b
        → ((w : World Value) → w.room.disposing ≡ true → Agrees (m w) (n w))
        → Agrees (after a (λ _. m)) (after b (λ _. n))
    after-marked none b m n (h, e) k = absurd h
    after-marked (some (ok u, w)) b m n (h, e) k = rw (← e) (k w h)
    after-marked (some (throws x, w)) b m n (h, e) k = rw (← e) (h, refl)

    remove_all-marked :
        (f : ℕ) (cs : List SimpleClient) (w : World Value)
        → w.room.disposing ≡ true
        → Agrees
            (remove_all json hooks (dispose json hooks (suc f)) cs w)
            (remove_all json hooks done cs w)
    unfolding remove_all
    remove_all-marked f [] w h = (h, refl)
    remove_all-marked f (c ∷ cs) w h =
        after-marked _ _ _ _ (remove_client_by-marked f c.session_id true w h)
          (λ w' h'. remove_all-marked f cs w' h')

    close-ne-none : (w : World Value) → close json hooks w ≢ none
    unfolding close
    close-ne-none w = ground arith

    after-close :
        (a b : Option (Result (Unit {0}) × World Value))
        → Agrees a b
        → (after a (λ _. close json hooks) ≢ none)
          × (after a (λ _. close json hooks) ≡ after b (λ _. close json hooks))
    after-close none b (h, e) = absurd h
    after-close (some (ok u, w)) b (h, e) =
        (close-ne-none w, ap (λ o. after o (λ _. close json hooks)) e)
    after-close (some (throws x, w)) b (h, e) =
        (λ p. cc, ap (λ o. after o (λ _. close json hooks)) e)

    -- `dispose` is the code with the inner calls of `dispose` left out.
    pub dispose-unmarked :
        (f : ℕ) (w : World Value)
        → w.room.disposing ≡ false
        → (dispose json hooks (suc (suc f)) w ≢ none)
          × (dispose json hooks (suc (suc f)) w
              ≡ after
                  (remove_all json hooks done w.room.clients (set_disposing json hooks w))
                  (λ _. close json hooks))
    dispose-unmarked f w h =
        let (ends, same) =
          after-close _ _ (remove_all-marked f w.room.clients (set_disposing json hooks w) refl) in
        (λ p. ends (sym (dispose-step (suc f) w h) ∙ p), dispose-step (suc f) w h ∙ same)

    -- Where the game's code keeps the private mark of a room that is being disposed, `dispose`
    -- always returns or throws, with two levels of calls: allowed more, it does the same.
    pub dispose_enough :
        (f : ℕ) (w : World Value)
        → (dispose json hooks (suc (suc f)) w ≢ none)
          × (dispose json hooks (suc (suc f)) w ≡ dispose json hooks 2 w)
    dispose_enough f w = elim (Bool-cases w.room.disposing) [
      | inl h ↦ rw (dispose-marked (suc f) w h, dispose-marked 1 w h) (λ p. cc, refl)
      | inr h ↦
          let (ends, same) = dispose-unmarked f w h in (ends, same ∙ sym (dispose-unmarked 0 w h).1)
    ]

    after_ends :
        (r : Result (Unit {0}) × World Value) (m : Run (World Value) (Unit {0}))
        → ((w : World Value) → m w ≢ none)
        → after (some r) (λ _. m) ≢ none
    after_ends (ok u, w) m ends = ends w
    after_ends (throws e, w) m ends = λ p. cc

    leave_ends :
        (again : Run (World Value) (Unit {0}))
        → ((w : World Value) → again w ≢ none)
        → (sid : Bytes) (b : Bool) (c : SimpleClient) (w : World Value)
        → leave_room json hooks again sid b c w ≢ none
    leave_ends again ends sid b c w =
        after_ends (hooks.on_leave_listeners c b _) _
          λ w₂. after_ends (hooks.on_leave c b w₂) _ λ w₃. if_empty_ends w₃
      where
        if_empty_ends : (v : World Value) → dispose_if_empty json hooks again v ≢ none
        if_empty_ends v p = ground (arith, ends v)

    remove_client_by_ends :
        (again : Run (World Value) (Unit {0}))
        → ((w : World Value) → again w ≢ none)
        → (sid : Bytes) (b : Bool) (w : World Value)
        → remove_client_by json hooks again sid b w ≢ none
    unfolding remove_client_by
    remove_client_by_ends again ends sid b w =
        elim (Option-cases (find_if (has_session sid) w.room.clients)) [
          | inl e ↦ rw (e, remove_client_by) (λ p. cc)
          | inr (c, e) ↦ rw (e, remove_client_by) (leave_ends again ends sid b c w)
        ]

    -- Where the game's code keeps the private mark of a room that is being disposed,
    -- `remove_client` always returns or throws, with two levels of calls: allowed more, it does the
    -- same.
    remove_client_enough :
        (f : ℕ) (sid : Bytes) (b : Bool) (w : World Value)
        → (remove_client json hooks (suc (suc f)) sid b w ≢ none)
          × (remove_client json hooks (suc (suc f)) sid b w ≡ remove_client json hooks 2 sid b w)
    unfolding remove_client
    remove_client_enough f sid b w = (
      remove_client_by_ends (dispose json hooks (suc (suc f))) (λ v. (dispose_enough f v).0) sid b
          w,
      ap (λ again. remove_client_by json hooks again sid b w) (fun_ext λ v. (dispose_enough f v).1),
    )
