-- ===== src/Tests/Packing.antt =====
-- A packer and an unpacker that do as documented, without numbers of floating point: calls as tagged
-- numbers, and objects read from the last call to the first, on a stack.
use mathlib.Core.List.{append_assoc, append-nil}
use blueboat_cpp.Msgpack.RoundTrip.{decode_msgpack-encode_msgpack}
use blueboat_cpp.Msgpack.Fitting.{Fits, settled}
use blueboat_cpp.Msgpack.Writing.{
  PackLaws, object_count, entry_count, Writes, writes_nil, writes_true, writes_false,
  writes_unsigned, writes_pos, writes_negsuc, writes_double, writes_str, writes_array, writes_map,
  WritesAll, writes_none, writes_one, WritesEntries, writes_no_entry, writes_entry,
}
use blueboat_cpp.Msgpack.{
  Value, Entries, Objects, Library, Object, Call, ℤ, pos, negsuc, unsigned, integer, string, array,
  object, no_values, value, no_fields, field, pack_nil, pack_true, pack_false, pack_uint64,
  pack_int64, pack_double, pack_str, pack_array, pack_map, pack_str_body, nil, bool,
  positive_integer, negative_integer, float64, str, arr, map_of, no_objects, an_object, no_entries,
  entry, encode_msgpack, decode_msgpack,
}
use blueboat_cpp.Base.{
  ℕ, zero, suc, ◌≡◌, refl, sym, ap, ◌∙◌, true, false, List, [], ◌∷◌, ◌++◌, arith, Bytes, codes, ok,
}

abbrev pub D : Type 0
D = Unit {0}

abbrev shifted : Bytes → Bytes
shifted [] = []
shifted (n ∷ ns) = suc n ∷ shifted ns

abbrev signed : ℤ → Bytes
signed (pos n) = 0 ∷ n ∷ []
signed (negsuc n) = 1 ∷ n ∷ []

abbrev tagged : Call D → Bytes
tagged pack_nil = 0 ∷ []
tagged pack_true = 1 ∷ []
tagged pack_false = 2 ∷ []
tagged (pack_uint64 n) = 3 ∷ n ∷ []
tagged (pack_int64 z) = 4 ∷ signed z
tagged (pack_double d) = 5 ∷ []
tagged (pack_str n) = 6 ∷ n ∷ []
tagged (pack_array n) = 7 ∷ n ∷ []
tagged (pack_map n) = 8 ∷ n ∷ []
tagged (pack_str_body s) = 9 ∷ s

unfoldable pub write_calls : List (Call D) → Bytes
write_calls [] = []
write_calls (c ∷ cs) = 0 ∷ shifted (tagged c) ++ write_calls cs

abbrev read_call : Bytes → Call D
read_call ((suc zero) ∷ []) = pack_true
read_call ((suc (suc zero)) ∷ []) = pack_false
read_call ((suc (suc (suc zero))) ∷ n ∷ []) = pack_uint64 n
read_call ((suc (suc (suc (suc zero)))) ∷ zero ∷ n ∷ []) = pack_int64 (pos n)
read_call ((suc (suc (suc (suc zero)))) ∷ (suc zero) ∷ n ∷ []) = pack_int64 (negsuc n)
read_call ((suc (suc (suc (suc (suc zero))))) ∷ []) = pack_double tt
read_call ((suc (suc (suc (suc (suc (suc zero)))))) ∷ n ∷ []) = pack_str n
read_call ((suc (suc (suc (suc (suc (suc (suc zero))))))) ∷ n ∷ []) = pack_array n
read_call ((suc (suc (suc (suc (suc (suc (suc (suc zero)))))))) ∷ n ∷ []) = pack_map n
read_call ((suc (suc (suc (suc (suc (suc (suc (suc (suc zero))))))))) ∷ s) = pack_str_body s
read_call _ = pack_nil

abbrev read_step : ℕ → Bytes × List (Call D) → Bytes × List (Call D)
read_step zero (p, cs) = ([], read_call p ∷ cs)
read_step (suc n) (p, cs) = (n ∷ p, cs)

unfoldable pub read_calls : Bytes → Bytes × List (Call D)
read_calls [] = ([], [])
read_calls (b ∷ bs) = read_step b (read_calls bs)

read_calls-shifted :
    (p bs : Bytes) → read_calls (shifted p ++ bs) ≡ (p ++ (read_calls bs).0, (read_calls bs).1)
unfolding read_calls
read_calls-shifted [] bs = refl
read_calls-shifted (n ∷ p) bs = ap (read_step (suc n)) (read_calls-shifted p bs)

read_call-tagged : (c : Call D) → read_call (tagged c) ≡ c
read_call-tagged pack_nil = refl
read_call-tagged pack_true = refl
read_call-tagged pack_false = refl
read_call-tagged (pack_uint64 n) = refl
read_call-tagged (pack_int64 (pos n)) = refl
read_call-tagged (pack_int64 (negsuc n)) = refl
read_call-tagged (pack_double d) = refl
read_call-tagged (pack_str n) = refl
read_call-tagged (pack_array n) = refl
read_call-tagged (pack_map n) = refl
read_call-tagged (pack_str_body s) = refl

abbrev with_call : Bytes → List (Call D) → Bytes × List (Call D)
with_call p cs = ([], read_call p ∷ cs)

read_calls-write_calls : (cs : List (Call D)) → read_calls (write_calls cs) ≡ ([], cs)
unfolding read_calls write_calls
read_calls-write_calls [] = refl
read_calls-write_calls (c ∷ cs) =
    ap (read_step 0) (read_calls-shifted (tagged c) (write_calls cs))
    ∙ ap (λ r. with_call (tagged c ++ r.0) r.1) (read_calls-write_calls cs)
    ∙ ap (λ p. with_call p cs) (append-nil (tagged c))
    ∙ ap (λ d. ([], d ∷ cs)) (read_call-tagged c)

-- The stack, of which the first objects go into an array or a map.
abbrev pop : List (Object D) → Object D × List (Object D)
pop [] = (nil, [])
pop (o ∷ os) = (o, os)

abbrev pop_objects : ℕ → List (Object D) → Objects D × List (Object D)
pop_objects zero os = (no_objects, os)
pop_objects (suc n) os =
    let first = pop os in let rest = pop_objects n first.1 in (an_object first.0 rest.0, rest.1)

abbrev pop_entries : ℕ → List (Object D) → Entries D × List (Object D)
pop_entries zero os = (no_entries, os)
pop_entries (suc n) os =
    let key = pop os in
    let value = pop key.1 in
    let rest = pop_entries n value.1 in (entry key.0 value.0 rest.0, rest.1)

abbrev push_call : Call D → List (Object D) → List (Object D)
push_call pack_nil os = nil ∷ os
push_call pack_true os = bool true ∷ os
push_call pack_false os = bool false ∷ os
push_call (pack_uint64 n) os = positive_integer n ∷ os
push_call (pack_int64 (pos n)) os = positive_integer n ∷ os
push_call (pack_int64 (negsuc n)) os = negative_integer (negsuc n) ∷ os
push_call (pack_double d) os = float64 d ∷ os
push_call (pack_str n) os = os
push_call (pack_str_body s) os = str s ∷ os
push_call (pack_array n) os = let r = pop_objects n os in arr r.0 ∷ r.1
push_call (pack_map n) os = let r = pop_entries n os in map_of r.0 ∷ r.1

unfoldable pub stack : List (Call D) → List (Object D)
stack [] = []
stack (c ∷ cs) = push_call c (stack cs)

abbrev pub library : Library D
library = record { pack = write_calls; unpack = λ bytes. ok (pop (stack (read_calls bytes).1)).0 }

abbrev listed : Objects D → List (Object D) → List (Object D)
listed no_objects rest = rest
listed (an_object o os) rest = o ∷ listed os rest

abbrev flat : Entries D → List (Object D) → List (Object D)
flat no_entries rest = rest
flat (entry k v es) rest = k ∷ v ∷ flat es rest

pop_objects-listed :
    (os : Objects D) (rest : List (Object D))
    → pop_objects (object_count os) (listed os rest) ≡ (os, rest)
pop_objects-listed no_objects rest = refl
pop_objects-listed (an_object o os) rest =
    ap (λ r. (an_object o r.0, r.1)) (pop_objects-listed os rest)

pop_entries-flat :
    (es : Entries D) (rest : List (Object D))
    → pop_entries (entry_count es) (flat es rest) ≡ (es, rest)
pop_entries-flat no_entries rest = refl
pop_entries-flat (entry k v es) rest = ap (λ r. (entry k v r.0, r.1)) (pop_entries-flat es rest)

mutual
  unfolding stack

  stack-Writes :
      (o : Object D) (cs rest : List (Call D)) → Writes o cs → stack (cs ++ rest) ≡ o ∷ stack rest
  stack-Writes o cs rest writes_nil = refl
  stack-Writes o cs rest writes_true = refl
  stack-Writes o cs rest writes_false = refl
  stack-Writes o cs rest (writes_unsigned n h) = refl
  stack-Writes o cs rest (writes_pos n h) = refl
  stack-Writes o cs rest (writes_negsuc n h) = refl
  stack-Writes o cs rest (writes_double d) = refl
  stack-Writes o cs rest (writes_str s h) = refl
  stack-Writes o cs rest (writes_array os ds h w) =
      ap (push_call (pack_array (object_count os))) (stack-WritesAll os ds rest w)
      ∙ ap (λ r. arr r.0 ∷ r.1) (pop_objects-listed os (stack rest))
  stack-Writes o cs rest (writes_map es ds h w) =
      ap (push_call (pack_map (entry_count es))) (stack-WritesEntries es ds rest w)
      ∙ ap (λ r. map_of r.0 ∷ r.1) (pop_entries-flat es (stack rest))

  stack-WritesAll :
      (os : Objects D) (cs rest : List (Call D))
      → WritesAll os cs
      → stack (cs ++ rest) ≡ listed os (stack rest)
  stack-WritesAll os cs rest writes_none = refl
  stack-WritesAll os cs rest (writes_one p ps ds es w ws) =
      ap stack (append_assoc ds es rest)
      ∙ stack-Writes p ds (es ++ rest) w
      ∙ ap (◌∷◌ p) (stack-WritesAll ps es rest ws)

  stack-WritesEntries :
      (es : Entries D) (cs rest : List (Call D))
      → WritesEntries es cs
      → stack (cs ++ rest) ≡ flat es (stack rest)
  stack-WritesEntries es cs rest writes_no_entry = refl
  stack-WritesEntries es cs rest (writes_entry k v fs ks vs ds wk wv ws) =
      ap stack (append_assoc (ks ++ vs) ds rest ∙ append_assoc ks vs (ds ++ rest))
      ∙ stack-Writes k ks (vs ++ (ds ++ rest)) wk
      ∙ ap (◌∷◌ k)
          (stack-Writes v vs (ds ++ rest) wv ∙ ap (◌∷◌ v) (stack-WritesEntries fs ds rest ws))

pub library_laws : PackLaws library
unfolding stack
library_laws = record {
  unpack-pack = λ o cs w.
      ap (λ r. ok (pop (stack r.1)).0) (read_calls-write_calls cs)
      ∙ ap (λ ds. ok (pop (stack ds)).0) (sym (append-nil cs))
      ∙ ap (λ os. ok (pop os).0) (stack-Writes o cs [] w);
}

-- {"a": [5, "x"]}, with the 5 of a signed type
abbrev sent_value : Value D
sent_value = object (
    field (codes "a") (array (value (integer (pos 5)) (value (string (codes "x")) no_values)))
      no_fields)

abbrev read_value : Value D
read_value = object (
    field (codes "a") (array (value (unsigned 5) (value (string (codes "x")) no_values))) no_fields)

decode_msgpack-encode_msgpack_example :
    decode_msgpack library (encode_msgpack library sent_value) ≡ ok read_value
unfolding Fits settled
decode_msgpack-encode_msgpack_example =
    decode_msgpack-encode_msgpack library library_laws sent_value
      (omega arith, (omega arith, refl, (omega arith, (omega arith, (omega arith, tt))), tt))
