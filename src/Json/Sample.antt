-- ===== src/Json/Sample.antt =====
-- A concrete instance of the interface, for the tests: values as trees, texts as a prefix code.
use blueboat_cpp.Json.{Json, ObjectLaws}
use blueboat_cpp.Base.{
  ℕ, zero, suc, ◌≡◌, refl, ap, true, false, Option, none, some, List, [], ◌∷◌, ◌++◌, Bytes, codes,
  length, take, drop, Assoc, find, put, has, Result, ◌>>=◌, ok, throws,
}

mutual
  pub data Tree : Type 0 where
    nil : Tree
    num : ℕ → Tree
    str : Bytes → Tree
    arr : Items → Tree
    obj : Fields → Tree

  pub data Items : Type 0 where
    end : Items
    item : Tree → Items → Items

  pub data Fields : Type 0 where
    stop : Fields
    field : Bytes → Tree → Fields → Fields

unfoldable pub fields : Assoc Tree → Fields
fields [] = stop
fields ((k, v) ∷ fs) = field k v (fields fs)

unfoldable pub to_assoc : Fields → Assoc Tree
to_assoc stop = []
to_assoc (field k v fs) = (k, v) ∷ to_assoc fs

unfoldable pub items : List Tree → Items
items [] = end
items (v ∷ vs) = item v (items vs)

unfoldable pub to_list : Items → List Tree
to_list end = []
to_list (item v vs) = v ∷ to_list vs

unfoldable mutual
  pub write : Tree → Bytes
  write nil = 0 ∷ []
  write (num n) = 1 ∷ n ∷ []
  write (str s) = 2 ∷ length s ∷ s
  write (arr vs) = 3 ∷ write_items vs
  write (obj fs) = 4 ∷ write_fields fs

  pub write_items : Items → Bytes
  write_items end = 0 ∷ []
  write_items (item v vs) = 1 ∷ write v ++ write_items vs

  pub write_fields : Fields → Bytes
  write_fields stop = 0 ∷ []
  write_fields (field k v fs) = 1 ∷ length k ∷ k ++ write v ++ write_fields fs

-- What is being read: a value, the rest of an array, the rest of an object.
pub data Goal : Type 0 where
  a_value some_items some_fields : Goal

pub data Part : Type 0 where
  of_value : Tree → Part
  of_items : Items → Part
  of_fields : Fields → Part
  bad : Part

abbrev pair_items : Part → Part × Bytes → Part × Bytes
pair_items (of_value v) (of_items vs, r) = (of_items (item v vs), r)
pair_items _ (p, r) = (bad, r)

abbrev pair_fields : Bytes → Part → Part × Bytes → Part × Bytes
pair_fields k (of_value v) (of_fields fs, r) = (of_fields (field k v fs), r)
pair_fields k _ (p, r) = (bad, r)

abbrev as_value : Part × Bytes → Part × Bytes
as_value (of_items vs, r) = (of_value (arr vs), r)
as_value (of_fields fs, r) = (of_value (obj fs), r)
as_value (p, r) = (bad, r)

unfoldable pub read : ℕ → Goal → Bytes → Part × Bytes
read zero g s = (bad, s)
read (suc f) g [] = (bad, [])
read (suc f) a_value (zero ∷ s) = (of_value nil, s)
read (suc f) a_value (suc zero ∷ []) = (bad, [])
read (suc f) a_value (suc zero ∷ n ∷ s) = (of_value (num n), s)
read (suc f) a_value (suc (suc zero) ∷ []) = (bad, [])
read (suc f) a_value (suc (suc zero) ∷ n ∷ s) = (of_value (str (take n s)), drop n s)
read (suc f) a_value (suc (suc (suc zero)) ∷ s) = as_value (read f some_items s)
read (suc f) a_value (suc (suc (suc (suc n))) ∷ s) = as_value (read f some_fields s)
read (suc f) some_items (zero ∷ s) = (of_items end, s)
read (suc f) some_items (suc n ∷ s) =
    let first = read f a_value s in pair_items first.0 (read f some_items first.1)
read (suc f) some_fields (zero ∷ s) = (of_fields stop, s)
read (suc f) some_fields (suc n ∷ []) = (bad, [])
read (suc f) some_fields (suc n ∷ m ∷ s) =
    let first = read f a_value (drop m s) in
    pair_fields (take m s) first.0 (read f some_fields first.1)

abbrev pub whole : Part × Bytes → Result Tree
whole (of_value v, []) = ok v
whole _ = throws (codes "parse_error")

abbrev pub type_error {ℓ} : {A : Type ℓ} → Result A
type_error = throws (codes "type_error")

abbrev pub object_of : Tree → Result (Assoc Tree)
object_of (obj fs) = ok (to_assoc fs)
object_of _ = type_error

abbrev or_default {ℓ} : {A : Type ℓ} → (Tree → Result A) → A → Option Tree → Result A
or_default f d none = ok d
or_default f d (some v) = f v

abbrev string_of : Tree → Result Bytes
string_of (str s) = ok s
string_of _ = type_error

abbrev number_of : Tree → Result (Option ℕ)
number_of (num n) = ok (some n)
number_of _ = type_error

abbrev present : Option Tree → Result Tree
present none = throws (codes "out_of_range")
present (some v) = ok v

abbrev pub sample : Json
sample = record {
  Value = Tree;
  null = nil;
  of_string = str;
  of_number = num;
  of_object = λ fs. obj (fields fs);
  of_array = λ vs. arr (items vs);
  is_null = elim [ nil ↦ true | _ ↦ false ];
  is_object = elim [ obj fs ↦ true | _ ↦ false ];
  is_string = elim [ str s ↦ true | _ ↦ false ];
  elements = elim [ arr vs ↦ some (to_list vs) | _ ↦ none ];
  contains = λ v k. elim v [ obj fs ↦ has k (to_assoc fs) | _ ↦ false ];
  at = λ v k. (do fs ← object_of v; present (find k fs));
  value = λ v k d. (do fs ← object_of v; or_default ok d (find k fs));
  value_string = λ v k d. (do fs ← object_of v; or_default string_of d (find k fs));
  value_number = λ v k d. (do fs ← object_of v; or_default number_of d (find k fs));
  get_string = string_of;
  assign = λ v k w. (do fs ← object_of v; ok (obj (fields (put k w fs))));
  parse = λ s. whole (read (length s) a_value s);
  dump = λ v. ok (write v);
}

to_assoc-fields : (fs : Assoc Tree) → to_assoc (fields fs) ≡ fs
unfolding fields to_assoc
to_assoc-fields [] = refl
to_assoc-fields ((k, v) ∷ fs) = ap (◌∷◌ (k, v)) (to_assoc-fields fs)

-- The instance has the laws.
pub sample_laws : ObjectLaws sample
sample_laws = record {
  at_object = λ fs k v e. rw (to_assoc-fields fs, e) refl;
  value_object = λ fs k v d e. rw (to_assoc-fields fs, e) refl;
  value_string_object = λ fs k s d e. rw (to_assoc-fields fs, e) refl;
  value_number_object = λ fs k n d e. rw (to_assoc-fields fs, e) refl;
  contains_object = λ fs k. rw (to_assoc-fields fs) refl;
  get_string_of_string = λ s. refl;
  is_object_of_object = λ fs. refl;
}
