-- ===== src/Http/Text.antt =====
-- The calls of the C++ library on strings that http.cpp makes, and `to_lower` and `trim`.
use blueboat_cpp.Base.{
  ℕ, zero, suc, ◌+◌, ◌-◌, ◌*◌, ◌/◌, ◌%◌, ◌^◌, Bool, true, false, ◌&&◌, ◌||◌, Option, none, some,
  List, [], ◌∷◌, ◌++◌, ltb, leb, ◌==◌, if◌then◌else◌, Bytes, take, drop,
}

-- std::string::npos, and the modulus of std::size_t
abbrev pub size_mod : ℕ
size_mod = 2 ^ 64

-- the source's `to_lower`, in the "C" locale
unfoldable pub lower : ℕ → ℕ
lower c = if leb b'A' c && leb c b'Z' then c + 32 else c

unfoldable pub to_lower : Bytes → Bytes
unfolding lower
to_lower [] = []
to_lower (c ∷ s) = lower c ∷ to_lower s

-- find_first_not_of, find_last_not_of
unfoldable pub first_not : (ℕ → Bool) → Bytes → Option ℕ
first_not p [] = none
first_not p (c ∷ s) =
    if p c then elim (first_not p s) [ none ↦ none | some i ↦ some (suc i) ] else some 0

unfoldable pub last_not : (ℕ → Bool) → Bytes → Option ℕ
last_not p [] = none
last_not p (c ∷ s) = elim (last_not p s) [
  | none ↦ if p c then none else some 0
  | some i ↦ some (suc i)
]

abbrev pub or_npos : Option ℕ → ℕ
or_npos none = size_mod - 1
or_npos (some i) = i

abbrev pub is_blank : ℕ → Bool
is_blank c = c == b' ' || c == b'\t'

abbrev pub is_blank_or_end : ℕ → Bool
is_blank_or_end c = is_blank c || c == b'\r' || c == b'\n'

-- `end - start + 1` is computed in std::size_t.
abbrev cut : Bytes → ℕ → Option ℕ → Bytes
cut s end none = []
cut s end (some start) = take ((end + size_mod - start + 1) % size_mod) (drop start s)

unfoldable pub trim : Bytes → Bytes
unfolding first_not last_not
trim s = cut s (or_npos (last_not is_blank_or_end s)) (first_not is_blank s)

-- The pieces that repeated calls of `std::getline` with this delimiter give.
abbrev pub prepend : ℕ → List Bytes → List Bytes
prepend c [] = (c ∷ []) ∷ []
prepend c (l ∷ ls) = (c ∷ l) ∷ ls

unfoldable pub getlines : ℕ → Bytes → List Bytes
getlines d [] = []
getlines d (c ∷ cs) = let rest = getlines d cs in if c == d then [] ∷ rest else prepend c rest

-- The words that repeated `stream >> word` give.
abbrev is_space : ℕ → Bool
is_space c = c == b' ' || (leb 9 c && leb c 13)

abbrev flush : Bytes → List Bytes → List Bytes
flush [] ws = ws
flush (c ∷ w) ws = (c ∷ w) ∷ ws

token : Bytes → Bytes × List Bytes
token [] = ([], [])
token (c ∷ cs) =
    let rest = token cs in if is_space c then ([], flush rest.0 rest.1) else (c ∷ rest.0, rest.1)

unfoldable pub words : Bytes → List Bytes
unfolding token
words s = let t = token s in flush t.0 t.1

-- std::stoul in base 10: blanks, a sign, digits up to the first other byte; `none` where it throws.
abbrev is_digit : ℕ → Bool
is_digit c = leb b'0' c && leb c b'9'

digits : ℕ → Bytes → ℕ
digits n [] = n
digits n (c ∷ cs) = elim (is_digit c) [ true ↦ digits (n * 10 + (c - b'0')) cs | false ↦ n ]

abbrev starts_number : Bytes → Bool
starts_number [] = false
starts_number (c ∷ cs) = is_digit c

abbrev in_range : Bytes → Option ℕ
in_range s =
    if starts_number s
    then (let n = digits 0 s in if ltb n size_mod then some n else none)
    else none

abbrev signed : Bytes → Option ℕ
signed [] = none
signed (c ∷ cs) =
    if c == b'-'
    then elim (in_range cs) [ none ↦ none | some n ↦ some ((size_mod - n) % size_mod) ]
    else if c == b'+'
    then in_range cs
    else in_range (c ∷ cs)

unfoldable pub stoul : Bytes → Option ℕ
unfolding digits
stoul [] = none
stoul (c ∷ cs) = let rest = stoul cs in if is_space c then rest else signed (c ∷ cs)

-- std::to_string of an unsigned number, with fuel for the digits
unfoldable pub decimal : ℕ → ℕ → Bytes
decimal zero n = []
decimal (suc f) n =
    let front = decimal f (n / 10) in
    if ltb n 10 then (b'0' + n) ∷ [] else front ++ (b'0' + n % 10) ∷ []

unfoldable pub to_string : ℕ → Bytes
unfolding decimal
to_string n = decimal (suc n) n
