-- ===== src/Msgpack/RoundTrip.antt =====
-- Values that are packed and unpacked again.
use blueboat_cpp.Msgpack.Writing.{
  Writes, object_count, entry_count, writes_nil, writes_true, writes_false, writes_unsigned,
  writes_pos, writes_negsuc, writes_double, writes_str, writes_array, writes_map, WritesAll,
  writes_none, writes_one, WritesEntries, writes_no_entry, writes_entry, PackLaws,
}
use blueboat_cpp.Msgpack.Fitting.{
  Fits, entries_of, objects_of, has_key, FitsAll, FitsFields, settled, settled_all, settled_fields,
  object_of,
}
use blueboat_cpp.Msgpack.{
  decode_msgpack, Value, assign, Fields, Entries, Objects, to_uint32, pos, negsuc, null, boolean,
  unsigned, integer, float, string, array, object, binary, discarded, Values, no_values, value,
  no_fields, field, Call, pack_str, pack_array, pack_map, pack_str_body, str, arr, map_of, size,
  field_count, pack_key, pack_json, pack_values, pack_fields, unpack_object, unpack_array,
  unpack_map, Library, encode_msgpack,
}
use blueboat_cpp.Base.{
  ℕ, suc, ◌^◌, ◌<◌, ◌≡◌, refl, sym, ap, ◌∙◌, true, false, List, [], ◌∷◌, map, arith, Bytes,
  bytes_eq, bytes_eq_iff, length, ok,
}

to_uint32-small : (n : ℕ) → n < 2 ^ 32 → to_uint32 n ≡ n
to_uint32-small n h = omega arith

module _ {D : Type 0} where
  object_count-objects_of : (vs : Values D) → object_count (objects_of vs) ≡ size vs
  unfolding objects_of
  object_count-objects_of no_values = refl
  object_count-objects_of (value v vs) = ap suc (object_count-objects_of vs)

  entry_count-entries_of : (fs : Fields D) → entry_count (entries_of fs) ≡ field_count fs
  unfolding entries_of
  entry_count-entries_of no_fields = refl
  entry_count-entries_of (field k v fs) = ap suc (entry_count-entries_of fs)

  str-Writes :
      (s : Bytes)
      → length s < 2 ^ 32
      → Writes {D = D} (str s) (pack_str (to_uint32 (length s)) ∷ pack_str_body s ∷ [])
  str-Writes s h = rw (to_uint32-small (length s) h) (writes_str s h)

  array-Writes :
      (os : Objects D) (cs : List (Call D)) (n : ℕ)
      → object_count os ≡ n
      → n < 2 ^ 32
      → WritesAll os cs
      → Writes (arr os) (pack_array (to_uint32 n) ∷ cs)
  array-Writes os cs n e h w = rw (to_uint32-small n h, sym e) (writes_array os cs (omega arith) w)

  map-Writes :
      (es : Entries D) (cs : List (Call D)) (n : ℕ)
      → entry_count es ≡ n
      → n < 2 ^ 32
      → WritesEntries es cs
      → Writes (map_of es) (pack_map (to_uint32 n) ∷ cs)
  map-Writes es cs n e h w = rw (to_uint32-small n h, sym e) (writes_map es cs (omega arith) w)

  mutual
    unfolding Fits object_of pack_json

    pack_json-Writes : (v : Value D) → Fits v → Writes (object_of v) (pack_json v)
    pack_json-Writes null h = writes_nil
    pack_json-Writes (boolean true) h = writes_true
    pack_json-Writes (boolean false) h = writes_false
    pack_json-Writes (unsigned n) h = writes_unsigned n h
    pack_json-Writes (integer (pos n)) h = writes_pos n h
    pack_json-Writes (integer (negsuc n)) h = writes_negsuc n h
    pack_json-Writes (float d) h = writes_double d
    pack_json-Writes (string s) h = str-Writes s h
    pack_json-Writes (array vs) h =
        array-Writes (objects_of vs) (pack_values vs) (size vs) (object_count-objects_of vs) h.0
          (pack_values-Writes vs h.1)
    pack_json-Writes (object fs) h =
        map-Writes (entries_of fs) (pack_fields fs) (field_count fs) (entry_count-entries_of fs) h.0
          (pack_fields-Writes fs h.1)
    pack_json-Writes (binary s) h = writes_nil
    pack_json-Writes discarded h = writes_nil

    pack_values-Writes : (vs : Values D) → FitsAll vs → WritesAll (objects_of vs) (pack_values vs)
    pack_values-Writes no_values h = writes_none
    pack_values-Writes (value v vs) h =
        writes_one (object_of v) (objects_of vs) (pack_json v) (pack_values vs)
          (pack_json-Writes v h.0) (pack_values-Writes vs h.1)

    pack_fields-Writes :
        (fs : Fields D) → FitsFields fs → WritesEntries (entries_of fs) (pack_fields fs)
    pack_fields-Writes no_fields h = writes_no_entry
    pack_fields-Writes (field k v fs) h =
        writes_entry (str k) (object_of v) (entries_of fs) (pack_key k) (pack_json v)
          (pack_fields fs) (str-Writes k h.0) (pack_json-Writes v h.2) (pack_fields-Writes fs h.3)

  abbrev snoc : Fields D → Bytes → Value D → Fields D
  snoc no_fields key v = field key v no_fields
  snoc (field k w fs) key v = field k w (snoc fs key v)

  abbrev append : Fields D → Fields D → Fields D
  append no_fields gs = gs
  append (field k v fs) gs = field k v (append fs gs)

  append-snoc :
      (fs gs : Fields D) (k : Bytes) (v : Value D)
      → append (snoc fs k v) gs ≡ append fs (field k v gs)
  append-snoc no_fields gs k v = refl
  append-snoc (field j w fs) gs k v = ap (field j w) (append-snoc fs gs k v)

  append-none : (fs : Fields D) → append fs no_fields ≡ fs
  append-none no_fields = refl
  append-none (field k v fs) = ap (field k v) (append-none fs)

  assign_new :
      (k : Bytes) (v : Value D) (fs : Fields D) → has_key k fs ≡ false → assign k v fs ≡ snoc fs k v
  unfolding assign
  assign_new k v no_fields h = refl
  assign_new k v (field j w fs) h = ground (arith, assign_new k v fs)

  has_key-snoc :
      (k j : Bytes) (v : Value D) (fs : Fields D)
      → has_key j fs ≡ false
      → bytes_eq k j ≡ false
      → has_key j (snoc fs k v) ≡ false
  has_key-snoc k j v no_fields h e = ground arith
  has_key-snoc k j v (field i w fs) h e = ground (arith, has_key-snoc k j v fs)

  -- None of the keys of the second is in the first.
  abbrev Apart : Fields D → Fields D → Type 0
  Apart map no_fields = Unit
  Apart map (field k v fs) = (has_key k map ≡ false) × Apart map fs

  Apart-snoc :
      (map fs : Fields D) (k : Bytes) (v : Value D)
      → Apart map fs
      → has_key k fs ≡ false
      → Apart (snoc map k v) fs
  Apart-snoc map no_fields k v a h = tt
  Apart-snoc map (field j w fs) k v a h = (
    has_key-snoc k j v map a.0 (ground (arith, bytes_eq_iff j k, bytes_eq_iff k j)),
    Apart-snoc map fs k v a.1 (ground arith),
  )

  none_Apart : (fs : Fields D) → Apart no_fields fs
  none_Apart no_fields = tt
  none_Apart (field k v fs) = (refl, none_Apart fs)

  mutual
    unfolding Fits object_of unpack_object settled

    unpack_object-object_of : (v : Value D) → Fits v → unpack_object (object_of v) ≡ settled v
    unpack_object-object_of null h = refl
    unpack_object-object_of (boolean b) h = refl
    unpack_object-object_of (unsigned n) h = refl
    unpack_object-object_of (integer (pos n)) h = refl
    unpack_object-object_of (integer (negsuc n)) h = refl
    unpack_object-object_of (float d) h = refl
    unpack_object-object_of (string s) h = refl
    unpack_object-object_of (array vs) h = ap array (unpack_array-objects_of vs h.1)
    unpack_object-object_of (object fs) h =
        ap object (unpack_map-entries_of fs no_fields h.1 (none_Apart fs))
    unpack_object-object_of (binary s) h = refl
    unpack_object-object_of discarded h = refl

    unpack_array-objects_of :
        (vs : Values D) → FitsAll vs → unpack_array (objects_of vs) ≡ settled_all vs
    unpack_array-objects_of no_values h = refl
    unpack_array-objects_of (value v vs) h =
        ap (λ u. value u (unpack_array (objects_of vs))) (unpack_object-object_of v h.0)
        ∙ ap (value (settled v)) (unpack_array-objects_of vs h.1)

    unpack_map-entries_of :
        (fs map : Fields D)
        → FitsFields fs
        → Apart map fs
        → unpack_map (entries_of fs) map ≡ append map (settled_fields fs)
    unpack_map-entries_of no_fields map h a = sym (append-none map)
    unpack_map-entries_of (field k v fs) map h a =
        ap (λ u. unpack_map (entries_of fs) (assign k u map)) (unpack_object-object_of v h.2)
        ∙ ap (unpack_map (entries_of fs)) (assign_new k (settled v) map a.0)
        ∙ unpack_map-entries_of fs (snoc map k (settled v)) h.3
            (Apart-snoc map fs k (settled v) a.1 h.1)
        ∙ append-snoc map (settled_fields fs) k (settled v)

-- Where packer and unpacker do as documented: a value whose numbers and lengths are in range and
-- whose objects have each key once is packed and unpacked to itself, but that an integer that is
-- not negative comes back as an unsigned one, and that binary and discarded values become null.
pub decode_msgpack-encode_msgpack :
    {D : Type 0} (library : Library D)
    → PackLaws library
    → (v : Value D) → Fits v
    → decode_msgpack library (encode_msgpack library v) ≡ ok (settled v)
unfolding decode_msgpack encode_msgpack
decode_msgpack-encode_msgpack library laws v h =
    rw (laws.unpack-pack (object_of v) (pack_json v) (pack_json-Writes v h))
      (ap ok (unpack_object-object_of v h))
