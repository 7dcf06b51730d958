-- ===== src/ChatRoom/History.antt =====
-- What a chat room keeps of what was said, and whom it tells.
use blueboat_cpp.Room.Lifecycle.{broadcast, send_all, send}
use blueboat_cpp.Snapshot.{SimpleClient}
use blueboat_cpp.ChatRoom.{
  Items, messages, with_messages, set_state, add_message, on_message, bot, chat_message, on_create,
  catch_up, on_join,
}
use blueboat_cpp.Json.{Json}
use mathlib.Core.List.{append-nil, append_assoc}
use blueboat_cpp.Base.{
  ◌≡◌, refl, sym, ap, ◌∙◌, true, List, [], ◌∷◌, ◌++◌, map, Bytes, codes, bytes_eq, ok,
}
use blueboat_cpp.Room.State.{Frame, World}

module _ (json : Json) (items : Items json) where
  open json use {Value}

  -- What the documentation says of strings, of an object with one array under `messages`, and of
  -- arrays.
  pub record ItemLaws : Type 0 where
    pub is_string_of_string : (s : Bytes) → json.is_string (json.of_string s) ≡ true
    pub get_string_of_string : (s : Bytes) → json.get_string (json.of_string s) ≡ ok s
    pub index_messages :
        (vs : List Value)
        → items.index (with_messages json items vs) messages
          ≡ ok (with_messages json items vs, json.of_array vs)
    pub push_back_array :
        (vs : List Value) (v : Value)
        → items.push_back (json.of_array vs) v ≡ ok (json.of_array (vs ++ v ∷ []))
    pub assign_messages :
        (vs us : List Value)
        → json.assign (with_messages json items vs) messages (json.of_array us)
          ≡ ok (with_messages json items us)

  -- The frame of one client of the room.
  abbrev pub frame_to : Bytes → Bytes → Value → SimpleClient → Frame Value
  frame_to room_id key v c = record {
    session_id = c.session_id;
    event = codes "message-" ++ room_id;
    content = json.of_object ((codes "key", json.of_string key) ∷ (codes "data", v) ∷ []);
  }

  abbrev pub frames_to : Bytes → Bytes → Value → List SimpleClient → List (Frame Value)
  frames_to room_id key v cs = map (frame_to room_id key v) cs

  abbrev with_frames : World Value → List (Frame Value) → World Value
  with_frames w fs = record w { frames = w.frames ++ fs }

  send_all-frames :
      (cs : List SimpleClient) (key : Bytes) (v : Value) (w : World Value)
      → send_all json cs key v w ≡ with_frames w (frames_to w.room.room_id key v cs)
  unfolding send_all send
  send_all-frames [] key v w = ap (λ fs. record w { frames = fs }) (sym (append-nil w.frames))
  send_all-frames (c ∷ cs) key v w =
      send_all-frames cs key v (send json c key v w)
      ∙ ap (λ fs. record w { frames = fs }) (append_assoc w.frames _ _)

  -- the frames and the state of a room, and nothing else of the world, after what was said
  abbrev spoken : List Value → List (Frame Value) → World Value → World Value
  spoken vs fs w = record w {
    frames = w.frames ++ fs;
    room = record w.room { state = with_messages json items vs };
  }

  module _ (laws : ItemLaws) where
    on_message-chat :
        (c : SimpleClient) (text : Bytes) (vs : List Value) (fs : List (Frame Value))
        (w : World Value)
        → on_message json items c (codes "CHAT") (json.of_string text) (spoken vs fs w) ≡ (
          ok tt,
          spoken
              (vs ++ chat_message json items text c.id ∷ [])
              (fs
                ++ frames_to w.room.room_id
                    (codes "MESSAGE")
                    (chat_message json items text c.id)
                    w.room.clients)
              w,
        )
    unfolding on_message add_message broadcast set_state bytes_eq
    on_message-chat c text vs fs w =
        let m = chat_message json items text c.id in
        rw
          (
            laws.is_string_of_string text,
            laws.get_string_of_string text,
            laws.index_messages vs,
            laws.push_back_array vs m,
            laws.assign_messages vs (vs ++ m ∷ []),
            send_all-frames w.room.clients (codes "MESSAGE") m (spoken (vs ++ m ∷ []) fs w),
          )
          (ap (λ gs. (ok tt, record (spoken (vs ++ m ∷ []) fs w) { frames = gs }))
            (append_assoc w.frames fs _))

    -- What clients say, one after another.
    pub say : List (SimpleClient × Bytes) → World Value → World Value
    say [] w = w
    say ((c, text) ∷ more) w =
        say more (on_message json items c (codes "CHAT") (json.of_string text) w).1

    abbrev pub said : List (SimpleClient × Bytes) → List Value
    said [] = []
    said ((c, text) ∷ more) = chat_message json items text c.id ∷ said more

    -- The frames that tell each of the clients of each of the messages.
    abbrev pub told : Bytes → List SimpleClient → List Value → List (Frame Value)
    told room_id cs [] = []
    told room_id cs (m ∷ ms) = frames_to room_id (codes "MESSAGE") m cs ++ told room_id cs ms

    say-spoken :
        (talk : List (SimpleClient × Bytes)) (vs : List Value) (fs : List (Frame Value))
        (w : World Value)
        → say talk (spoken vs fs w)
          ≡ spoken (vs ++ said talk) (fs ++ told w.room.room_id w.room.clients (said talk)) w
    unfolding say
    say-spoken [] vs fs w = rw (append-nil vs, append-nil fs) refl
    say-spoken ((c, text) ∷ more) vs fs w =
        ap (λ r. say more r.1) (on_message-chat c text vs fs w)
        ∙ say-spoken more (vs ++ chat_message json items text c.id ∷ []) _ w
        ∙ rw (append_assoc vs, append_assoc fs) refl

    on_create-spoken :
        (options : Value) (text : Bytes) (w : World Value)
        → json.value_string w.room.initial_game_values
            (codes "initialBotMessage")
            (codes "Welcome to the chat!")
          ≡ ok text
        → (on_create json items options w).1 ≡ spoken (chat_message json items text bot ∷ []) [] w
    unfolding on_create set_state
    on_create-spoken options text w e = rw (e, append-nil w.frames) refl

    -- With JSON as documented, and a text for the first message: after a chat room was created and
    -- clients said any texts, one after another, the room's state is the first message and theirs,
    -- in order, each with its sender; every client in the room was sent each message as it was
    -- said; and a client that joins is sent all the messages, and nothing else happens.
    pub on_join-history :
        (options join_options : Value) (text : Bytes) (talk : List (SimpleClient × Bytes))
        (c : SimpleClient) (w : World Value)
        → json.value_string w.room.initial_game_values
            (codes "initialBotMessage")
            (codes "Welcome to the chat!")
          ≡ ok text
        → let all = chat_message json items text bot ∷ said talk in
          on_join json items c join_options (say talk (on_create json items options w).1) ≡ (
            ok tt,
            record w {
              room = record w.room { state = with_messages json items all };
              frames =
                  (w.frames ++ told w.room.room_id w.room.clients (said talk))
                  ++ frame_to w.room.room_id (codes "MESSAGES") (json.of_array all) c ∷ [];
            },
          )
    unfolding on_join catch_up set_state send
    on_join-history options join_options text talk c w e =
        let all = chat_message json items text bot ∷ said talk in
        rw
          (
            on_create-spoken options text w e,
            say-spoken talk (chat_message json items text bot ∷ []) [] w,
            laws.index_messages all,
          )
          refl
