-- ===== src/Sio.antt =====
-- common/include/blueboat/common/sio_protocol.hpp and common/src/sio_protocol.cpp: the frames of
-- the socket.io protocol. The msgpack coder is a parameter here. A number that is no natural number
-- reads as `none`, which is no packet type.
pub mod Frames
use blueboat_cpp.Base.{
  ℕ, Bool, true, false, not, ◌||◌, Option, none, some, List, [], ◌∷◌, ◌==◌, if◌then◌else◌, Bytes,
  codes, Assoc, Result, ◌>>=◌, ok, throws,
}
use blueboat_cpp.Json.{Json}

-- SioType
abbrev pub connect_type : ℕ
connect_type = 0

abbrev pub disconnect_type : ℕ
disconnect_type = 1

abbrev pub event_type : ℕ
event_type = 2

abbrev pub error_type : ℕ
error_type = 4

abbrev pub binary_event_type : ℕ
binary_event_type = 5

pub data FrameKind : Type 0 where
  open_frame connect disconnect event ping pong close error other : FrameKind

pub record ParsedFrame (V : Type 0) : Type 0 where
  pub kind : FrameKind
  pub sid : Bytes
  -- `none` is a negative number
  pub ping_interval_ms : Option ℕ
  pub ping_timeout_ms : Option ℕ
  pub event_name : Bytes
  pub content : V

pub record Msgpack (V : Type 0) : Type 0 where
  pub encode : V → Bytes
  pub decode : Bytes → Result V

abbrev pub is_type : Option ℕ → ℕ → Bool
is_type none t = false
is_type (some n) t = n == t

module _ (json : Json) (msgpack : Msgpack json.Value) where
  open json use {Value}

  -- a default-constructed ParsedFrame
  abbrev pub blank : ParsedFrame Value
  blank = record {
    kind = other;
    sid = [];
    ping_interval_ms = some 25000;
    ping_timeout_ms = some 5000;
    event_name = [];
    content = json.null;
  }

  unfoldable pub build_open_frame : Bytes → ℕ → ℕ → Result Bytes
  build_open_frame sid ping_interval_ms ping_timeout_ms = do
    text ← json.dump (
        json.of_object (
          (codes "sid", json.of_string sid)
          ∷ (codes "upgrades", json.of_array [])
          ∷ (codes "pingInterval", json.of_number ping_interval_ms)
          ∷ (codes "pingTimeout", json.of_number ping_timeout_ms)
          ∷ []))
    ok (b'0' ∷ text)

  abbrev pub packet : ℕ → Assoc Value → Value
  packet type rest =
      json.of_object
        ((codes "type", json.of_number type) ∷ (codes "nsp", json.of_string (codes "/")) ∷ rest)

  unfoldable pub build_connect_ack_frame : Result Bytes
  build_connect_ack_frame = do text ← json.dump (packet connect_type []); ok (b'4' ∷ text)

  unfoldable pub build_disconnect_frame : Result Bytes
  build_disconnect_frame = do text ← json.dump (packet disconnect_type []); ok (b'4' ∷ text)

  abbrev pub event_args : Bytes → Value → List Value
  event_args event_name content =
      json.of_string event_name ∷ (if json.is_null content then [] else content ∷ [])

  unfoldable pub build_event_frame : Bytes → Value → Bytes
  build_event_frame event_name content =
      4
      ∷ msgpack.encode
          (packet event_type ((codes "data", json.of_array (event_args event_name content)) ∷ []))

  abbrev pub first_or_null : List Value → Value
  first_or_null [] = json.null
  first_or_null (x ∷ xs) = x

  -- the event in the elements of `data`: a name, and the next element if there is one
  abbrev pub from_args : Option (List Value) → Result (ParsedFrame Value)
  from_args none = ok blank
  from_args (some []) = ok blank
  from_args (some (first ∷ rest)) =
      if json.is_string first
      then (do
        name ← json.get_string first
        ok (record blank { kind = event; event_name = name; content = first_or_null rest }))
      else ok blank

  unfoldable pub parse_packet : Value → Result (ParsedFrame Value)
  parse_packet packed = if not (json.is_object packed) then ok blank else (do
    type ← json.value_number packed (codes "type") none
    if is_type type event_type || is_type type binary_event_type
        then (do
          args ← json.value packed (codes "data") (json.of_array [])
          from_args (json.elements args))
        else ok blank)

  -- A frame that does not decode is none of the kinds; what is thrown behind the decoding escapes.
  abbrev pub parse_decoded : Result Value → Result (ParsedFrame Value)
  parse_decoded (ok packed) = parse_packet packed
  parse_decoded (throws e) = ok blank

  unfoldable pub parse_binary : Bytes → Result (ParsedFrame Value)
  unfolding parse_packet
  parse_binary [] = ok blank
  parse_binary (c ∷ rest) = if c == 4 then parse_decoded (msgpack.decode rest) else ok blank

  -- `result.kind` and the fields are assigned one by one: what was assigned before a throw stays.
  abbrev pub with_timeout : ParsedFrame Value → Result (Option ℕ) → ParsedFrame Value
  with_timeout r (throws e) = r
  with_timeout r (ok t) = record r { ping_timeout_ms = t }

  abbrev pub with_interval : Value → ParsedFrame Value → Result (Option ℕ) → ParsedFrame Value
  with_interval v r (throws e) = r
  with_interval v r (ok t) =
      with_timeout (record r { ping_interval_ms = t })
        (json.value_number v (codes "pingTimeout") (some 5000))

  abbrev pub with_sid : Value → ParsedFrame Value → Result Bytes → ParsedFrame Value
  with_sid v r (throws e) = r
  with_sid v r (ok sid) =
      with_interval v (record r { sid = sid })
        (json.value_number v (codes "pingInterval") (some 25000))

  abbrev pub parse_open : Result Value → ParsedFrame Value
  parse_open (throws e) = blank
  parse_open (ok v) =
      with_sid v (record blank { kind = open_frame }) (json.value_string v (codes "sid") [])

  abbrev pub of_type : Result (Option ℕ) → ParsedFrame Value
  of_type (throws e) = blank
  of_type (ok type) =
      if is_type type connect_type
      then record blank { kind = connect }
      else if is_type type disconnect_type
      then record blank { kind = disconnect }
      else if is_type type error_type
      then record blank { kind = error }
      else blank

  abbrev pub parse_control : Result Value → ParsedFrame Value
  parse_control (throws e) = blank
  parse_control (ok v) = of_type (json.value_number v (codes "type") none)

  unfoldable pub parse_text : Bytes → ParsedFrame Value
  parse_text [] = blank
  parse_text (c ∷ rest) =
      if c == b'0'
      then parse_open (json.parse rest)
      else if c == b'1'
      then record blank { kind = close }
      else if c == b'2'
      then record blank { kind = ping }
      else if c == b'3'
      then record blank { kind = pong }
      else if c == b'4'
      then parse_control (json.parse rest)
      else blank

  unfoldable pub parse_frame : Bool → Bytes → Result (ParsedFrame Value)
  unfolding parse_binary parse_text
  parse_frame true payload = parse_binary payload
  parse_frame false payload = ok (parse_text payload)
