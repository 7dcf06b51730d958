-- ===== src/Room/Reconnection.antt =====
-- Room::allow_reconnection in server/src/room.cpp: a wait for a client that left, as what happens to
-- the room meanwhile. The id of its subscription is random: an argument. The lock that is given up
-- during the wait is GameLock's.
pub mod Outcome
use blueboat_cpp.Room.State.{has_session}
use blueboat_cpp.Callback.{remove, Entry, call, add}
use blueboat_cpp.Snapshot.{SimpleClient}
use blueboat_cpp.Base.{
  Bool, true, false, Option, none, some, List, [], ◌∷◌, ◌++◌, if◌then◌else◌, Bytes, bytes_eq,
  is_empty, any, erase_first,
}

-- A listener of on_join_listeners: that of a wait, for a client, or the game's, which are taken to
-- leave the list of the listeners alone.
pub data OnJoin : Type 0 where
  of_wait : Bytes → OnJoin
  of_game : OnJoin

-- What the two callbacks of a wait share.
pub record Wait : Type 0 where
  pub client_id : Bytes
  -- the promise's value, which `get` waits for
  pub promise : Option Bool
  pub resolved : Bool
  -- the entry that `join_sub->clear()` removes, until it has
  pub join_sub : Option Bytes
  -- whether the timer is to fire still
  pub timeout : Bool

pub record Lobby : Type 0 where
  pub clients : List SimpleClient
  pub on_join_listeners : List (Entry OnJoin)
  pub wait : Wait

-- The part of the call before the wait; `none` where it returns false at once.
unfoldable pub allow_reconnection :
    Bool → SimpleClient → Bytes → List SimpleClient → List (Entry OnJoin) → Option Lobby
unfolding add
allow_reconnection disposing client sub clients listeners =
    if disposing
    then none
    else some (record {
      clients = clients;
      on_join_listeners = add (of_wait client.id) false sub listeners;
      wait = record {
        client_id = client.id;
        promise = none;
        resolved = false;
        join_sub = some sub;
        timeout = true;
      };
    })

-- if (!resolved->exchange(true)) promise->set_value(b)
unfoldable pub resolve : Bool → Wait → Wait
resolve b w = if w.resolved then w else record w { resolved = true; promise = some b }

abbrev subscribed : Option Bytes → List Bytes
subscribed none = []
subscribed (some sub) = sub ∷ []

abbrev stop_listening : Wait → Wait
stop_listening w = record w { join_sub = none }

-- The listener, when a client has joined.
unfoldable pub on_joined : SimpleClient → Wait → Wait
unfolding resolve bytes_eq
on_joined joined w =
    if bytes_eq joined.id w.client_id
    then stop_listening (record (resolve true w) { timeout = false })
    else w

-- The entries that a listener removes while the listeners are called.
unfoldable pub clears : SimpleClient → Wait → OnJoin → List Bytes
unfolding bytes_eq
clears joined w of_game = []
clears joined w (of_wait client_id) =
    if bytes_eq joined.id client_id then subscribed w.join_sub else []

abbrev after_call : SimpleClient → Lobby → Option (List OnJoin × List (Entry OnJoin)) → Option Lobby
after_call joined l none = none
after_call joined l (some (called, es)) =
    some (record l { on_join_listeners = es; wait = on_joined joined l.wait })

-- add_client, as far as it concerns the wait: no outcome where the call of the listeners has none.
unfoldable pub joins : SimpleClient → Lobby → Option Lobby
unfolding clears call
joins joined l =
    after_call joined (record l { clients = l.clients ++ joined ∷ [] })
      (call (clears joined l.wait) l.on_join_listeners)

abbrev pub without : Bytes → List SimpleClient → List SimpleClient
without session_id cs = erase_first (has_session session_id) cs

-- remove_client up to the leave listeners and on_leave, which may throw, or wait in turn.
unfoldable pub leaves : Bytes → Lobby → Lobby
leaves session_id l = record l { clients = without session_id l.clients }

-- The end of a remove_client: where no client is left the room is disposed, and when that is done
-- the server destroys it: no outcome for a wait, whose timer reads the room.
unfoldable pub on_leave_returns : Lobby → Option Lobby
on_leave_returns l = if is_empty l.clients then none else some l

abbrev unsubscribe : Option Bytes → List (Entry OnJoin) → List (Entry OnJoin)
unsubscribe none es = es
unsubscribe (some sub) es = remove sub es

abbrev pub is_client : Bytes → SimpleClient → Bool
is_client id c = bytes_eq c.id id

-- The timer's callback.
unfoldable pub fires : Lobby → Lobby
unfolding resolve bytes_eq remove
fires l = record l {
  on_join_listeners = unsubscribe l.wait.join_sub l.on_join_listeners;
  wait = stop_listening (resolve (any (is_client l.wait.client_id) l.clients) l.wait);
}

-- The scheduler calls a timer once, unless it is cancelled.
unfoldable pub elapses : Lobby → Lobby
unfolding fires
elapses l =
    if l.wait.timeout then fires (record l { wait = record l.wait { timeout = false } }) else l

pub data Event : Type 0 where
  joined : SimpleClient → Event
  left : Bytes → Event
  -- a remove_client, behind its on_leave, and what it calls have returned
  returned : Event
  elapsed : Event

abbrev pub and_then : (Lobby → Option Lobby) → Option Lobby → Option Lobby
and_then f none = none
and_then f (some l) = f l

unfoldable pub happen : List Event → Lobby → Option Lobby
unfolding joins leaves on_leave_returns elapses
happen [] l = some l
happen (joined c ∷ es) l = and_then (happen es) (joins c l)
happen (left session_id ∷ es) l = happen es (leaves session_id l)
happen (returned ∷ es) l = and_then (happen es) (on_leave_returns l)
happen (elapsed ∷ es) l = happen es (elapses l)
