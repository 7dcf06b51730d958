-- ===== src/Msgpack.antt =====
-- common/src/msgpack_codec.cpp: JSON values packed and unpacked. The kinds of a JSON value, the calls
-- of a packer and the objects of an unpacker are those of nlohmann::json and msgpack-c; the two
-- libraries' own work, between calls and bytes and between bytes and objects, is a parameter.
pub mod Writing
pub mod Fitting
pub mod RoundTrip
pub mod Frames
use blueboat_cpp.Sio.{Msgpack}
use blueboat_cpp.Base.{
  ℕ, suc, ◌%◌, ◌^◌, Bool, true, false, List, [], ◌∷◌, ◌++◌, map, if◌then◌else◌, Bytes, bytes_eq,
  length, Result, ◌>>=◌, ok,
}

-- std::int64_t
pub data ℤ : Type 0 where
  pos : ℕ → ℤ
  negsuc : ℕ → ℤ

-- nlohmann::json by its kinds; `D` is double
mutual
  pub data Value (D : Type 0) : Type 0 where
    null : Value D
    boolean : Bool → Value D
    unsigned : ℕ → Value D
    integer : ℤ → Value D
    float : D → Value D
    string : Bytes → Value D
    array : Values D → Value D
    object : Fields D → Value D
    binary : Bytes → Value D
    discarded : Value D

  pub data Values (D : Type 0) : Type 0 where
    no_values : Values D
    value : Value D → Values D → Values D

  pub data Fields (D : Type 0) : Type 0 where
    no_fields : Fields D
    field : Bytes → Value D → Fields D → Fields D

-- The calls of msgpack::packer.
pub data Call (D : Type 0) : Type 0 where
  pack_nil pack_true pack_false : Call D
  pack_uint64 : ℕ → Call D
  pack_int64 : ℤ → Call D
  pack_double : D → Call D
  pack_str pack_array pack_map : ℕ → Call D
  pack_str_body : Bytes → Call D

-- msgpack::object
mutual
  pub data Object (D : Type 0) : Type 0 where
    nil ext : Object D
    bool : Bool → Object D
    positive_integer : ℕ → Object D
    negative_integer : ℤ → Object D
    float32 float64 : D → Object D
    str bin : Bytes → Object D
    arr : Objects D → Object D
    map_of : Entries D → Object D

  pub data Objects (D : Type 0) : Type 0 where
    no_objects : Objects D
    an_object : Object D → Objects D → Objects D

  pub data Entries (D : Type 0) : Type 0 where
    no_entries : Entries D
    entry : Object D → Object D → Entries D → Entries D

-- static_cast<std::uint32_t>
abbrev pub to_uint32 : ℕ → ℕ
to_uint32 n = n % 2 ^ 32

module _ {D : Type 0} where
  -- value.size()
  abbrev pub size : Values D → ℕ
  size no_values = 0
  size (value v vs) = suc (size vs)

  abbrev pub field_count : Fields D → ℕ
  field_count no_fields = 0
  field_count (field k v fs) = suc (field_count fs)

  abbrev pub pack_key : Bytes → List (Call D)
  pack_key key = pack_str (to_uint32 (length key)) ∷ pack_str_body key ∷ []

  -- The calls, in order.
  unfoldable mutual
    pub pack_json : Value D → List (Call D)
    pack_json null = pack_nil ∷ []
    pack_json (boolean true) = pack_true ∷ []
    pack_json (boolean false) = pack_false ∷ []
    pack_json (unsigned n) = pack_uint64 n ∷ []
    pack_json (integer z) = pack_int64 z ∷ []
    pack_json (float d) = pack_double d ∷ []
    pack_json (string s) = pack_str (to_uint32 (length s)) ∷ pack_str_body s ∷ []
    pack_json (array vs) = pack_array (to_uint32 (size vs)) ∷ pack_values vs
    pack_json (object fs) = pack_map (to_uint32 (field_count fs)) ∷ pack_fields fs
    pack_json (binary s) = pack_nil ∷ []
    pack_json discarded = pack_nil ∷ []

    pub pack_values : Values D → List (Call D)
    pack_values no_values = []
    pack_values (value v vs) = pack_json v ++ pack_values vs

    pub pack_fields : Fields D → List (Call D)
    pack_fields no_fields = []
    pack_fields (field k v fs) = pack_key k ++ pack_json v ++ pack_fields fs

  -- map[key] = v
  unfoldable pub assign : Bytes → Value D → Fields D → Fields D
  assign key v no_fields = field key v no_fields
  assign key v (field k w fs) = if bytes_eq k key then field k v fs else field k w (assign key v fs)

  abbrev pub key_of : Object D → Bytes
  key_of (str s) = s
  key_of _ = []

  unfoldable mutual
    pub unpack_object : Object D → Value D
    unpack_object nil = null
    unpack_object ext = null
    unpack_object (bool b) = boolean b
    unpack_object (positive_integer n) = unsigned n
    unpack_object (negative_integer z) = integer z
    unpack_object (float32 d) = float d
    unpack_object (float64 d) = float d
    unpack_object (str s) = string s
    unpack_object (bin s) = string s
    unpack_object (arr os) = array (unpack_array os)
    unpack_object (map_of es) = object (unpack_map es no_fields)

    pub unpack_array : Objects D → Values D
    unpack_array no_objects = no_values
    unpack_array (an_object o os) = value (unpack_object o) (unpack_array os)

    -- The loop, with the object that it fills.
    pub unpack_map : Entries D → Fields D → Fields D
    unpack_map no_entries map = map
    unpack_map (entry k v es) map = unpack_map es (assign (key_of k) (unpack_object v) map)

-- msgpack-c: what a packer writes for a sequence of calls, and msgpack::unpack.
pub record Library (D : Type 0) : Type 0 where
  pub pack : List (Call D) → Bytes
  pub unpack : Bytes → Result (Object D)

module _ {D : Type 0} (library : Library D) where
  unfoldable pub encode_msgpack : Value D → Bytes
  unfolding pack_json
  encode_msgpack v = library.pack (pack_json v)

  unfoldable pub decode_msgpack : Bytes → Result (Value D)
  unfolding unpack_object
  decode_msgpack bytes = do unpacked ← library.unpack bytes; ok (unpack_object unpacked)

  -- The coder that the frames are built and read with.
  abbrev pub codec : Msgpack (Value D)
  codec = record { encode = encode_msgpack; decode = decode_msgpack }
