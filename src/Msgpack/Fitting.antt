-- ===== src/Msgpack/Fitting.antt =====
-- Which values pack without loss, what comes back, and the object in between.
use blueboat_cpp.Msgpack.{
  Value, Fields, pos, negsuc, null, boolean, unsigned, integer, float, string, array, object,
  binary, discarded, Values, no_values, value, no_fields, field, Object, nil, bool,
  positive_integer, negative_integer, float64, str, arr, map_of, Objects, no_objects, an_object,
  Entries, no_entries, entry, size, field_count,
}
use blueboat_cpp.Base.{◌^◌, ◌<◌, ◌≡◌, Bool, true, false, if◌then◌else◌, Bytes, bytes_eq, length}

module _ {D : Type 0} where
  -- The object has a field with the key.
  abbrev pub has_key : Bytes → Fields D → Bool
  has_key key no_fields = false
  has_key key (field k v fs) = if bytes_eq k key then true else has_key key fs

  -- The numbers, which are of 64 bits, and the lengths are in range, and no object has a key twice.
  unfoldable mutual
    pub Fits : Value D → Type 0
    Fits (unsigned n) = n < 2 ^ 64
    Fits (integer (pos n)) = n < 2 ^ 63
    Fits (integer (negsuc n)) = n < 2 ^ 63
    Fits (string s) = length s < 2 ^ 32
    Fits (array vs) = (size vs < 2 ^ 32) × FitsAll vs
    Fits (object fs) = (field_count fs < 2 ^ 32) × FitsFields fs
    Fits _ = Unit

    pub FitsAll : Values D → Type 0
    FitsAll no_values = Unit
    FitsAll (value v vs) = Fits v × FitsAll vs

    pub FitsFields : Fields D → Type 0
    FitsFields no_fields = Unit
    FitsFields (field k v fs) =
        (length k < 2 ^ 32) × (has_key k fs ≡ false) × Fits v × FitsFields fs

  -- The value that comes back: an integer that is not negative has become an unsigned one, which is
  -- an equal number, and what has no kind in JSON has become null.
  unfoldable mutual
    pub settled : Value D → Value D
    settled (integer (pos n)) = unsigned n
    settled (array vs) = array (settled_all vs)
    settled (object fs) = object (settled_fields fs)
    settled (binary s) = null
    settled discarded = null
    settled null = null
    settled (boolean b) = boolean b
    settled (unsigned n) = unsigned n
    settled (integer (negsuc n)) = integer (negsuc n)
    settled (float d) = float d
    settled (string s) = string s

    pub settled_all : Values D → Values D
    settled_all no_values = no_values
    settled_all (value v vs) = value (settled v) (settled_all vs)

    pub settled_fields : Fields D → Fields D
    settled_fields no_fields = no_fields
    settled_fields (field k v fs) = field k (settled v) (settled_fields fs)

  -- The object that the calls for a value write.
  unfoldable mutual
    pub object_of : Value D → Object D
    object_of null = nil
    object_of (boolean b) = bool b
    object_of (unsigned n) = positive_integer n
    object_of (integer (pos n)) = positive_integer n
    object_of (integer (negsuc n)) = negative_integer (negsuc n)
    object_of (float d) = float64 d
    object_of (string s) = str s
    object_of (array vs) = arr (objects_of vs)
    object_of (object fs) = map_of (entries_of fs)
    object_of (binary s) = nil
    object_of discarded = nil

    pub objects_of : Values D → Objects D
    objects_of no_values = no_objects
    objects_of (value v vs) = an_object (object_of v) (objects_of vs)

    pub entries_of : Fields D → Entries D
    entries_of no_fields = no_entries
    entries_of (field k v fs) = entry (str k) (object_of v) (entries_of fs)
