-- ===== src/Sio/Frames.antt =====
-- Frames that are built and parsed again.
use blueboat_cpp.Base.{
  ◌≡◌, refl, ap, ◌∙◌, inl, inr, true, none, some, List, [], ◌∷◌, Bool-cases, Bytes, codes, bytes_eq,
  Assoc, find, ok, throws,
}
use blueboat_cpp.Json.{Json, ObjectLaws, object}
use blueboat_cpp.Sio.{
  Msgpack, build_event_frame, parse_frame, event_type, event, blank, packet, event_args, from_args,
  parse_packet, parse_decoded,
}

module _ (json : Json) (laws : ObjectLaws json) (msgpack : Msgpack json.Value) where
  open json use {Value}

  -- What the documentation says of an array made from values, and of strings.
  pub record ArrayLaws : Type 0 where
    pub elements_of_array : (vs : List Value) → json.elements (json.of_array vs) ≡ some vs
    pub is_string_of_string : (s : Bytes) → json.is_string (json.of_string s) ≡ true

  module _ (arrays : ArrayLaws) (name : Bytes) (content : Value) where
    abbrev pub args : List Value
    args = event_args json msgpack name content

    abbrev pub rest : Assoc Value
    rest = (codes "data", json.of_array args) ∷ []

    abbrev pub fields : Assoc Value
    fields =
        (codes "type", json.of_number event_type) ∷ (codes "nsp", json.of_string (codes "/")) ∷ rest

    from_args-args :
        (json.is_null content ≡ true → content ≡ json.null)
        → from_args json msgpack (some args)
          ≡ ok (record (blank json msgpack) { kind = event; event_name = name; content = content })
    from_args-args null_only = elim (Bool-cases (json.is_null content)) [
      | inl e ↦
          rw (arrays.is_string_of_string name, laws.get_string_of_string name, e, null_only e) refl
      | inr e ↦ rw (arrays.is_string_of_string name, laws.get_string_of_string name, e) refl
    ]

    parse_packet-packet :
        (json.is_null content ≡ true → content ≡ json.null)
        → parse_packet json msgpack (packet json msgpack event_type rest)
          ≡ ok (record (blank json msgpack) { kind = event; event_name = name; content = content })
    unfolding parse_packet find bytes_eq
    parse_packet-packet null_only =
        rw
          (
            laws.is_object_of_object fields,
            laws.value_number_object fields (codes "type") event_type none refl,
            laws.value_object fields (codes "data") (json.of_array args) (json.of_array []) refl,
            arrays.elements_of_array args,
          )
          (from_args-args null_only)

    -- With JSON objects and arrays as documented, the frame of an event parses as that event, with
    -- its name and content, where the packet that was packed unpacks to itself, and the only null
    -- is the null value.
    pub parse_frame-build_event_frame :
        (json.is_null content ≡ true → content ≡ json.null)
        → msgpack.decode (msgpack.encode (packet json msgpack event_type rest))
          ≡ ok (packet json msgpack event_type rest)
        → parse_frame json msgpack true (build_event_frame json msgpack name content)
          ≡ ok (record (blank json msgpack) { kind = event; event_name = name; content = content })
    unfolding parse_frame build_event_frame
    parse_frame-build_event_frame null_only decoded =
        ap (parse_decoded json msgpack) decoded ∙ parse_packet-packet null_only

-- A binary event frame whose packet unpacks to an object with a type that is no number makes
-- `parse_frame` throw: nothing behind the unpacking is caught.
parse_frame_throws :
    (json : Json) (msgpack : Msgpack json.Value) (bytes e : Bytes) (v : json.Value)
    → msgpack.decode bytes ≡ ok v
    → json.is_object v ≡ true
    → json.value_number v (codes "type") none ≡ throws e
    → parse_frame json msgpack true (4 ∷ bytes) ≡ throws e
unfolding parse_frame parse_packet
parse_frame_throws json msgpack bytes e v decoded object bad =
    ap (parse_decoded json msgpack) decoded ∙ rw (object, bad) refl
