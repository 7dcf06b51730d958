-- ===== src/Msgpack/Frames.antt =====
-- The frames of events with the codec that they are sent with. How the kinds of a JSON value stand
-- for it is a parameter: nlohmann::json compares an integer and an unsigned number by their value.
use blueboat_cpp.Sio.{packet, event_type, event, blank, build_event_frame, parse_frame}
use blueboat_cpp.Msgpack.RoundTrip.{decode_msgpack-encode_msgpack}
use blueboat_cpp.Msgpack.Writing.{PackLaws}
use blueboat_cpp.Msgpack.Fitting.{settled, Fits, settled_all, settled_fields}
use blueboat_cpp.Msgpack.{
  Library, Value, pos, negsuc, null, boolean, unsigned, integer, float, string, array, binary,
  discarded, Values, no_values, value, Fields, no_fields, field, encode_msgpack, decode_msgpack,
}
use blueboat_cpp.Json.{Json, ObjectLaws}
use blueboat_cpp.Msgpack.{object}
use blueboat_cpp.Sio
use mathlib.Core.Path.{ap₂}
use blueboat_cpp.Sio.Frames
use blueboat_cpp.Base.{
  ℕ, ◌≡◌, refl, ap, ◌∙◌, Bool, true, List, [], ◌∷◌, Bytes, Assoc, Result, ok, throws,
}

-- The values of the kinds that Json has no function for.
pub record Leaves (json : Json) (D : Type 0) : Type 0 where
  pub of_boolean : Bool → json.Value
  -- -(n + 1)
  pub of_negative : ℕ → json.Value
  pub of_float : D → json.Value
  pub of_binary : Bytes → json.Value
  pub of_discarded : json.Value

module _ {json : Json} {D : Type 0} (leaves : Leaves json D) where
  unfoldable mutual
    pub value_of : Value D → json.Value
    value_of null = json.null
    value_of (boolean b) = leaves.of_boolean b
    value_of (unsigned n) = json.of_number n
    value_of (integer (pos n)) = json.of_number n
    value_of (integer (negsuc n)) = leaves.of_negative n
    value_of (float d) = leaves.of_float d
    value_of (string s) = json.of_string s
    value_of (array vs) = json.of_array (values_of vs)
    value_of (object fs) = json.of_object (fields_of fs)
    value_of (binary s) = leaves.of_binary s
    value_of discarded = leaves.of_discarded

    pub values_of : Values D → List json.Value
    values_of no_values = []
    values_of (value v vs) = value_of v ∷ values_of vs

    pub fields_of : Fields D → Assoc json.Value
    fields_of no_fields = []
    fields_of (field k v fs) = (k, value_of v) ∷ fields_of fs

  -- No part of the value is binary or discarded, which JSON texts have no form for.
  unfoldable mutual
    pub IsPlain : Value D → Type 0
    IsPlain (binary s) = ⊥
    IsPlain discarded = ⊥
    IsPlain (array vs) = ArePlain vs
    IsPlain (object fs) = ArePlainFields fs
    IsPlain _ = Unit

    pub ArePlain : Values D → Type 0
    ArePlain no_values = Unit
    ArePlain (value v vs) = IsPlain v × ArePlain vs

    pub ArePlainFields : Fields D → Type 0
    ArePlainFields no_fields = Unit
    ArePlainFields (field k v fs) = IsPlain v × ArePlainFields fs

  mutual
    unfolding value_of IsPlain settled

    value_of-settled : (v : Value D) → IsPlain v → value_of (settled v) ≡ value_of v
    value_of-settled null h = refl
    value_of-settled (boolean b) h = refl
    value_of-settled (unsigned n) h = refl
    value_of-settled (integer (pos n)) h = refl
    value_of-settled (integer (negsuc n)) h = refl
    value_of-settled (float d) h = refl
    value_of-settled (string s) h = refl
    value_of-settled (array vs) h = ap json.of_array (values_of-settled vs h)
    value_of-settled (object fs) h = ap json.of_object (fields_of-settled fs h)
    value_of-settled (binary s) h = absurd h
    value_of-settled discarded h = absurd h

    values_of-settled : (vs : Values D) → ArePlain vs → values_of (settled_all vs) ≡ values_of vs
    values_of-settled no_values h = refl
    values_of-settled (value v vs) h = ap₂ ◌∷◌ (value_of-settled v h.0) (values_of-settled vs h.1)

    fields_of-settled :
        (fs : Fields D) → ArePlainFields fs → fields_of (settled_fields fs) ≡ fields_of fs
    fields_of-settled no_fields h = refl
    fields_of-settled (field k v fs) h =
        ap₂ (λ u us. (k, u) ∷ us) (value_of-settled v h.0) (fields_of-settled fs h.1)

  -- The kinds of a value, which stand for it.
  pub record Kinds : Type 0 where
    pub kinds : json.Value → Value D
    pub value_of-kinds : (v : json.Value) → value_of (kinds v) ≡ v

  module _ (k : Kinds) (library : Library D) where
    open k use {kinds}

    abbrev valued : Result (Value D) → Result json.Value
    valued (ok v) = ok (value_of v)
    valued (throws e) = throws e

    -- encode_msgpack and decode_msgpack, on the values themselves.
    abbrev pub coder : Sio.Msgpack json.Value
    coder = record {
      encode = λ v. encode_msgpack library (kinds v);
      decode = λ bytes. valued (decode_msgpack library bytes);
    }

    module _ (laws : PackLaws library) where
      decode-encode :
          (v : json.Value)
          → Fits (kinds v)
          → IsPlain (kinds v)
          → coder.decode (coder.encode v) ≡ ok v
      decode-encode v fits plain =
          ap valued (decode_msgpack-encode_msgpack library laws (kinds v) fits)
          ∙ ap ok (value_of-settled (kinds v) plain ∙ k.value_of-kinds v)

-- With JSON objects and arrays as documented, packer and unpacker as documented, and kinds that
-- stand for their values: the frame of an event, packed by the codec, parses as that event, with its
-- name and content, where the packet's numbers and lengths are in range, no object in it has a key
-- twice, it has no binary or discarded part, and the only null is the null value.
pub parse_frame-coder :
    {D : Type 0} (json : Json) (laws : ObjectLaws json) (leaves : Leaves json D) (k : Kinds leaves)
    (library : Library D) (packs : PackLaws library)
    (arrays : Frames.ArrayLaws json laws (coder leaves k library)) (name : Bytes)
    (content : json.Value)
    → (json.is_null content ≡ true → content ≡ json.null)
    → (let p =
          packet json
            (coder leaves k library)
            event_type
            (Frames.rest json laws (coder leaves k library) arrays name content) in
        Fits (k.kinds p) × IsPlain leaves (k.kinds p))
    → parse_frame json
        (coder leaves k library)
        true
        (build_event_frame json (coder leaves k library) name content)
      ≡ ok (record (blank json (coder leaves k library)) {
        kind = event;
        event_name = name;
        content = content;
      })
parse_frame-coder json laws leaves k library packs arrays name content null_only (fits, plain) =
    Frames.parse_frame-build_event_frame json laws (coder leaves k library) arrays name content
      null_only (decode-encode leaves k library packs _ fits plain)
