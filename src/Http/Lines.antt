-- ===== src/Http/Lines.antt =====
-- The request's line, header lines and query, as http.cpp takes them apart.
use blueboat_cpp.Base.{
  Option, none, some, List, [], ◌∷◌, ◌==◌, if◌then◌else◌, Bytes, split_at_first, Assoc, put,
}
use blueboat_cpp.Http.Text.{trim, to_lower, getlines, words}

pub record Request : Type 0 where
  pub method : Bytes
  pub path : Bytes
  pub query : Bytes
  pub headers : Assoc Bytes
  pub body : Bytes

-- if (!line.empty() && line.back() == '\r') line.pop_back();
unfoldable pub pop_cr : Bytes → Bytes
pop_cr [] = []
pop_cr (c ∷ []) = if c == b'\r' then [] else c ∷ []
pop_cr (c ∷ d ∷ s) = c ∷ pop_cr (d ∷ s)

abbrev pub with_target : Bytes → Bytes → Option (Bytes × Bytes) → Request
with_target method target none = record {
  method = method;
  path = target;
  query = [];
  headers = [];
  body = [];
}
with_target method target (some (path, query)) = record {
  method = method;
  path = path;
  query = query;
  headers = [];
  body = [];
}

-- `stream >> method >> target >> version` wants three words and leaves the rest.
abbrev pub from_words : List Bytes → Option Request
from_words [] = none
from_words (method ∷ []) = none
from_words (method ∷ target ∷ []) = none
from_words (method ∷ target ∷ version ∷ more) =
    some (with_target method target (split_at_first b'?' target))

unfoldable pub request_line : Bytes → Option Request
unfolding pop_cr words split_at_first
request_line line = from_words (words (pop_cr line))

abbrev pub put_header : Assoc Bytes → Option (Bytes × Bytes) → Assoc Bytes
put_header headers none = headers
put_header headers (some (name, value)) = put (to_lower name) (trim value) headers

-- An empty line, or one with no colon, is passed over; a later header replaces an earlier one.
unfoldable pub header_lines : Assoc Bytes → List Bytes → Assoc Bytes
unfolding pop_cr split_at_first put to_lower trim
header_lines headers [] = headers
header_lines headers (line ∷ lines) =
    header_lines (put_header headers (split_at_first b':' (pop_cr line))) lines

abbrev pub put_pair : Assoc Bytes → Bytes → Option (Bytes × Bytes) → Assoc Bytes
put_pair result pair none = put pair [] result
put_pair result pair (some (key, value)) = put key value result

unfoldable pub query_pairs : Assoc Bytes → List Bytes → Assoc Bytes
unfolding put split_at_first
query_pairs result [] = result
query_pairs result (pair ∷ pairs) =
    query_pairs (put_pair result pair (split_at_first b'=' pair)) pairs

unfoldable pub parse_query : Bytes → Assoc Bytes
unfolding query_pairs getlines
parse_query query = query_pairs [] (getlines b'&' query)
