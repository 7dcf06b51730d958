-- ===== src/Room/Closing.antt =====
-- What a room leaves behind when `dispose` runs to its end, and when a game's code stops it.
use mathlib.Core.Path.{subst}
use blueboat_cpp.Base.{
  ℕ, suc, ◌≡◌, refl, sym, ap, ◌∙◌, true, false, Option, none, some, List, [], ◌∷◌, ◌++◌, arith,
  Bytes, bytes_eq_refl, Assoc, Result, ok, throws,
}
use blueboat_cpp.Json.{Json}
use blueboat_cpp.Protocol.{room_prefix}
use blueboat_cpp.Storage
use blueboat_cpp.Storage.Expiry.{get-remove}
use blueboat_cpp.RoomFetcher.{remove_room}
use blueboat_cpp.PubSub.{end_subscription, Subscription, Listener, at_key}
use blueboat_cpp.PubSub.Delivery.{HasNone, end_subscription-HasNone, end_subscription-keeps}
use blueboat_cpp.Scheduler
use blueboat_cpp.Scheduler.Cancelled.{cleared}
use blueboat_cpp.Run.{Run, after}
use blueboat_cpp.Room.State.{World, Hooks, Handler}
use blueboat_cpp.Room.Lifecycle.{
  dispose, close, report, remove_all, clear_timer, leave_list, end_game_messages, end_player_left,
  set_disposing,
}
use blueboat_cpp.Room.Ending.{dispose-step}

module _ (json : Json) (hooks : Hooks json.Value) where
  open json use {Value}

  -- `on_dispose` leaves the room's private fields, its id, the store, the timers and the channels as
  -- they are.
  pub record IsTame : Type 0 where
    pub storage : (w : World Value) → (hooks.on_dispose w).1.storage ≡ w.storage
    pub scheduler : (w : World Value) → (hooks.on_dispose w).1.scheduler ≡ w.scheduler
    pub channels : (w : World Value) → (hooks.on_dispose w).1.channels ≡ w.channels
    pub room_id : (w : World Value) → (hooks.on_dispose w).1.room.room_id ≡ w.room.room_id
    pub timer :
        (w : World Value)
        → (hooks.on_dispose w).1.room.auto_dispose_timer ≡ w.room.auto_dispose_timer
    pub game_message_sub :
        (w : World Value) → (hooks.on_dispose w).1.room.game_message_sub ≡ w.room.game_message_sub
    pub player_left_sub :
        (w : World Value) → (hooks.on_dispose w).1.room.player_left_sub ≡ w.room.player_left_sub

  -- The room is out of the list of rooms, its timer is cancelled, its subscriptions have ended, where
  -- they were active in `v` their listeners are not on their channels any more, and its id is the
  -- last that was reported to the server.
  pub record IsClosed (v w : World Value) : Type 0 where
    pub unlisted : (later : ℕ) → Storage.get later (room_prefix ++ w.room.room_id) w.storage ≡ none
    pub timer : (h : ℕ) → w.room.auto_dispose_timer ≡ some h → w.scheduler.cancelled h ≡ true
    pub no_messages : w.room.game_message_sub.active ≡ false
    pub no_leavers : w.room.player_left_sub.active ≡ false
    pub silent :
        v.room.game_message_sub.active ≡ true
        → HasNone v.room.game_message_sub.id (at_key v.room.game_message_sub.key w.channels)
    pub left_alone :
        v.room.player_left_sub.active ≡ true
        → HasNone v.room.player_left_sub.id (at_key v.room.player_left_sub.key w.channels)
    pub reported : (ids : List Bytes) × (w.disposed ≡ ids ++ w.room.room_id ∷ [])

  ended :
      (s : Subscription) (ps : Assoc (List (Listener Handler)))
      → (end_subscription s ps).0.active ≡ false
  unfolding end_subscription
  ended s ps = ground arith

  after_hook :
      (r : Result (Unit {0}) × World Value) (m : Run (World Value) (Unit {0})) (w' : World Value)
      → after (some r) (λ _. m) ≡ some (ok tt, w')
      → (v : World Value) × (r ≡ (ok tt, v)) × (m v ≡ some (ok tt, w'))
  after_hook (ok u, w) m w' e = (w, refl, e)
  after_hook (throws x, w) m w' e = cc

  after_all :
      (o : Option (Result (Unit {0}) × World Value)) (m : Run (World Value) (Unit {0}))
      (w' : World Value)
      → after o (λ _. m) ≡ some (ok tt, w')
      → (v : World Value) × (o ≡ some (ok tt, v)) × (m v ≡ some (ok tt, w'))
  after_all none m w' e = cc
  after_all (some (ok u, v)) m w' e = (v, refl, e)
  after_all (some (throws x, v)) m w' e = cc

  state_eq :
      {v w : World Value} {r : Result (Unit {0})}
      → ◌≡◌ {A = Option (Result (Unit {0}) × World Value)} (some (r, v)) (some (r, w))
      → v ≡ w
  state_eq e = cc

  timer_cleared :
      (t : Option ℕ) (s : Scheduler.Scheduler Bytes) (h : ℕ)
      → t ≡ some h
      → (Scheduler.clear t s).cancelled h ≡ true
  timer_cleared t s h e = rw e (cleared h s)

  unlisted_now :
      (id : Bytes) (st : Storage.Storage) (later : ℕ)
      → Storage.get later (room_prefix ++ id) (remove_room id st) ≡ none
  unfolding remove_room
  unlisted_now id st later =
      rw
        (
          get-remove later (room_prefix ++ id) (room_prefix ++ id) st,
          bytes_eq_refl (room_prefix ++ id),
        )
        refl

  module _ (tame : IsTame) where
    abbrev wound_up : World Value → World Value
    wound_up w =
        end_player_left json hooks
          (end_game_messages json hooks (leave_list json hooks (clear_timer json hooks w)))

    report-IsClosed :
        (w : World Value) → IsClosed w (report json hooks (hooks.on_dispose (wound_up w)).1)
    report-IsClosed w = record {
      unlisted = λ later.
          rw (tame.storage (wound_up w), tame.room_id (wound_up w))
            (unlisted_now w.room.room_id w.storage later);
      timer = λ h e. rw (tame.scheduler (wound_up w)) (
          timer_cleared w.room.auto_dispose_timer w.scheduler h
            (sym (tame.timer (wound_up w)) ∙ e));
      no_messages =
          rw (tame.game_message_sub (wound_up w)) (ended w.room.game_message_sub w.channels);
      no_leavers = rw (tame.player_left_sub (wound_up w)) (ended w.room.player_left_sub _);
      silent = λ e. rw (tame.channels (wound_up w)) (
          end_subscription-keeps w.room.game_message_sub.key w.room.game_message_sub.id
            w.room.player_left_sub (end_subscription w.room.game_message_sub w.channels).1
            (end_subscription-HasNone w.room.game_message_sub w.channels e));
      left_alone = λ e. rw (tame.channels (wound_up w)) (
          end_subscription-HasNone w.room.player_left_sub
            (end_subscription w.room.game_message_sub w.channels).1 e);
      reported = (_, refl);
    }

    close-IsClosed :
        (w w' : World Value)
        → close json hooks w ≡ some (ok tt, w')
        → (v : World Value) × (hooks.before_dispose w ≡ (ok tt, v)) × IsClosed v w'
    unfolding close
    close-IsClosed w w' e =
        let (v, told, e₁) = after_hook (hooks.before_dispose w) _ w' e in
        let (u, disposed, e₂) = after_hook (hooks.on_dispose (wound_up v)) _ w' e₁ in
        (
          v,
          told,
          subst (IsClosed v) (ap (λ r. report json hooks r.1) disposed ∙ state_eq e₂)
              (report-IsClosed v),
        )

    -- Where the game's `on_dispose` leaves the room's private fields, its id, the store, the timers
    -- and the channels as they are, a `dispose` of a room that is not being disposed, when it
    -- returns normally, has removed the clients and told the game, and then closed the room: it is
    -- out of the list of rooms, its timer is marked as cancelled, its subscriptions have ended,
    -- those that were active when the game had been told have no listener left on their channels,
    -- and its id is the last reported to the server.
    pub dispose-IsClosed :
        (f : ℕ) (w w' : World Value)
        → w.room.disposing ≡ false
        → dispose json hooks (suc f) w ≡ some (ok tt, w')
        → (u : World Value) × (v : World Value) × (remove_all json hooks
              (dispose json hooks f)
              w.room.clients
              (set_disposing json hooks w)
            ≡ some (ok tt, u))
          × (hooks.before_dispose u ≡ (ok tt, v))
          × IsClosed v w'
    dispose-IsClosed f w w' h e =
        let (u, removed, closing) =
          after_all
            (remove_all json hooks (dispose json hooks f) w.room.clients
              (set_disposing json hooks w))
            (close json hooks) w' (sym (dispose-step json hooks f w h) ∙ e) in
        let (v, told, closed) = close-IsClosed u w' closing in (u, v, removed, told, closed)
