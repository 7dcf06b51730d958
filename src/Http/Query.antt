-- ===== src/Http/Query.antt =====
-- A query string that is made from pairs and taken apart again.
use blueboat_cpp.Base.{
  ℕ, ◌≡◌, refl, ap, ◌∙◌, ◌≢◌, List, [], ◌∷◌, ◌++◌, arith, Bytes, Lacks, Lacks-append,
  split_at_first-append, Assoc, put,
}
use blueboat_cpp.Http.Text.{getlines}
use blueboat_cpp.Http.Lines.{query_pairs, parse_query, put_pair}

-- key=value&key=value...
unfoldable pub render : Bytes → Bytes → Assoc Bytes → Bytes
render key value [] = key ++ b'=' ∷ value
render key value ((k, v) ∷ ps) = (key ++ b'=' ∷ value) ++ b'&' ∷ render k v ps

-- The keys hold neither separator and the values no `&`.
abbrev pub ArePlain : Assoc Bytes → Type 0
ArePlain [] = Unit
ArePlain ((k, v) ∷ ps) = (Lacks b'=' k × Lacks b'&' k × Lacks b'&' v) × ArePlain ps

abbrev pub put_all : Assoc Bytes → Assoc Bytes → Assoc Bytes
put_all m [] = m
put_all m ((k, v) ∷ ps) = put_all (put k v m) ps

getlines-append :
    (d : ℕ) (x : ℕ) (xs ys : Bytes)
    → Lacks d (x ∷ xs)
    → getlines d ((x ∷ xs) ++ d ∷ ys) ≡ (x ∷ xs) ∷ getlines d ys
unfolding getlines
getlines-append d x [] ys h = ground arith
getlines-append d x (y ∷ xs) ys h = rw (h.0, getlines-append d y xs ys h.1)

getlines_one : (d : ℕ) (x : ℕ) (xs : Bytes) → Lacks d (x ∷ xs) → getlines d (x ∷ xs) ≡ (x ∷ xs) ∷ []
unfolding getlines
getlines_one d x [] h = rw h.0
getlines_one d x (y ∷ xs) h = rw (h.0, getlines_one d y xs h.1)

abbrev pair : Bytes → Bytes → Bytes
pair k v = k ++ b'=' ∷ v

pair-ne-nil : (k v : Bytes) → pair k v ≢ []
pair-ne-nil [] v e = cc
pair-ne-nil (c ∷ k) v e = cc

pair-Lacks : (k v : Bytes) → Lacks b'&' k → Lacks b'&' v → Lacks b'&' (pair k v)
pair-Lacks k v h w = Lacks-append b'&' k (b'=' ∷ v) h (refl, w)

getlines-pair :
    (xs ys : Bytes)
    → xs ≢ []
    → Lacks b'&' xs
    → getlines b'&' (xs ++ b'&' ∷ ys) ≡ xs ∷ getlines b'&' ys
getlines-pair [] ys n h = absurd (n refl)
getlines-pair (x ∷ xs) ys n h = getlines-append b'&' x xs ys h

getlines-last : (xs : Bytes) → xs ≢ [] → Lacks b'&' xs → getlines b'&' xs ≡ xs ∷ []
getlines-last [] n h = absurd (n refl)
getlines-last (x ∷ xs) n h = getlines_one b'&' x xs h

query_pairs-nil : (m : Assoc Bytes) → query_pairs m [] ≡ m
unfolding query_pairs
query_pairs-nil m = refl

query_pairs-pair :
    (m : Assoc Bytes) (k v : Bytes) (ls : List Bytes)
    → Lacks b'=' k
    → query_pairs m (pair k v ∷ ls) ≡ query_pairs (put k v m) ls
unfolding query_pairs
query_pairs-pair m k v ls h =
    ap (λ o. query_pairs (put_pair m (pair k v) o) ls) (split_at_first-append b'=' k v h)

query_pairs-render :
    (m : Assoc Bytes) (k v : Bytes) (ps : Assoc Bytes)
    → ArePlain ((k, v) ∷ ps)
    → query_pairs m (getlines b'&' (render k v ps)) ≡ put_all m ((k, v) ∷ ps)
unfolding render
query_pairs-render m k v [] h =
    ap (query_pairs m) (getlines-last (pair k v) (pair-ne-nil k v) (pair-Lacks k v h.0.1 h.0.2))
    ∙ query_pairs-pair m k v [] h.0.0
    ∙ query_pairs-nil (put k v m)
query_pairs-render m k v ((j, w) ∷ ps) h =
    ap (query_pairs m)
      (getlines-pair (pair k v) (render j w ps) (pair-ne-nil k v) (pair-Lacks k v h.0.1 h.0.2))
    ∙ query_pairs-pair m k v (getlines b'&' (render j w ps)) h.0.0
    ∙ query_pairs-render (put k v m) j w ps h.1

-- A query string made from plain pairs is read as those pairs, a later one with the same key in
-- place of the earlier.
pub parse_query-render :
    (k v : Bytes) (ps : Assoc Bytes)
    → ArePlain ((k, v) ∷ ps)
    → parse_query (render k v ps) ≡ put_all [] ((k, v) ∷ ps)
unfolding parse_query
parse_query-render k v ps h = query_pairs-render [] k v ps h
