-- ===== src/Msgpack/Writing.antt =====
-- What the calls of a packer write, as msgpack's documentation has it.
use blueboat_cpp.Msgpack.{
  Library, Object, Entries, Objects, pos, negsuc, Call, pack_nil, pack_true, pack_false,
  pack_uint64, pack_int64, pack_double, pack_str, pack_array, pack_map, pack_str_body, nil, bool,
  positive_integer, negative_integer, float64, str, arr, map_of, no_objects, an_object, no_entries,
  entry,
}
use blueboat_cpp.Base.{ℕ, suc, ◌^◌, ◌<◌, ◌≡◌, true, false, List, [], ◌∷◌, ◌++◌, Bytes, length, ok}

module _ {D : Type 0} where
  abbrev pub object_count : Objects D → ℕ
  object_count no_objects = 0
  object_count (an_object o os) = suc (object_count os)

  abbrev pub entry_count : Entries D → ℕ
  entry_count no_entries = 0
  entry_count (entry k v es) = suc (entry_count es)

-- The calls of a packer that msgpack's documentation says write an object: the lengths come first,
-- and an integer that is not negative is a positive one, whatever its type was.
mutual
  pub data Writes {D : Type 0} : Object D → List (Call D) → Type 0 where
    writes_nil : Writes nil (pack_nil ∷ [])
    writes_true : Writes (bool true) (pack_true ∷ [])
    writes_false : Writes (bool false) (pack_false ∷ [])
    writes_unsigned : (n : ℕ) → n < 2 ^ 64 → Writes (positive_integer n) (pack_uint64 n ∷ [])
    writes_pos : (n : ℕ) → n < 2 ^ 63 → Writes (positive_integer n) (pack_int64 (pos n) ∷ [])
    writes_negsuc :
        (n : ℕ) → n < 2 ^ 63 → Writes (negative_integer (negsuc n)) (pack_int64 (negsuc n) ∷ [])
    writes_double : (d : D) → Writes (float64 d) (pack_double d ∷ [])
    writes_str :
        (s : Bytes)
        → length s < 2 ^ 32
        → Writes (str s) (pack_str (length s) ∷ pack_str_body s ∷ [])
    writes_array :
        (os : Objects D) (cs : List (Call D))
        → object_count os < 2 ^ 32
        → WritesAll os cs
        → Writes (arr os) (pack_array (object_count os) ∷ cs)
    writes_map :
        (es : Entries D) (cs : List (Call D))
        → entry_count es < 2 ^ 32
        → WritesEntries es cs
        → Writes (map_of es) (pack_map (entry_count es) ∷ cs)

  pub data WritesAll {D : Type 0} : Objects D → List (Call D) → Type 0 where
    writes_none : WritesAll no_objects []
    writes_one :
        (o : Object D) (os : Objects D) (cs ds : List (Call D))
        → Writes o cs
        → WritesAll os ds
        → WritesAll (an_object o os) (cs ++ ds)

  pub data WritesEntries {D : Type 0} : Entries D → List (Call D) → Type 0 where
    writes_no_entry : WritesEntries no_entries []
    writes_entry :
        (k v : Object D) (es : Entries D) (ks vs cs : List (Call D))
        → Writes k ks
        → Writes v vs
        → WritesEntries es cs
        → WritesEntries (entry k v es) (ks ++ vs ++ cs)

-- What msgpack::unpack is documented to give for what a packer wrote.
pub record PackLaws {D : Type 0} (library : Library D) : Type 0 where
  pub unpack-pack :
      (o : Object D) (cs : List (Call D)) → Writes o cs → library.unpack (library.pack cs) ≡ ok o
