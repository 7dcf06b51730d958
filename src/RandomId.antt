-- ===== src/RandomId.antt =====
-- common/include/blueboat/common/random_id.hpp and common/src/random_id.cpp: random ids. What the
-- distribution draws is an argument.
use blueboat_cpp.Base.{
  ℕ, zero, suc, ◌<◌, ◌≡◌, false, Option, none, some, [], ◌∷◌, arith, ◌==◌, Bytes, codes, Lacks,
  length, get_elem?,
}

abbrev pub alphabet : Bytes
alphabet = codes "0123456789ABCDEFGHIJKLMNOPQRSTUVWXYZabcdefghijklmnopqrstuvwxyz_-"

-- alphabet[i], where i is at most alphabet_size - 1
abbrev letter : Option ℕ → ℕ
letter none = 0
letter (some c) = c

unfoldable pub random_id : ℕ → (ℕ → ℕ) → Bytes
random_id zero draws = []
random_id (suc n) draws = letter (get_elem? alphabet (draws 0)) ∷ random_id n (λ i. draws (suc i))

letter-Lacks :
    (c : ℕ) (xs : Bytes) (i : ℕ) → i < length xs → Lacks c xs → letter (get_elem? xs i) == c ≡ false
letter-Lacks c [] i h l = absurd (omega arith)
letter-Lacks c (x ∷ xs) zero h l = l.0
letter-Lacks c (x ∷ xs) (suc i) h l = letter-Lacks c xs i (omega arith) l.1

-- An id made of draws from the alphabet has the length asked for, and lacks what the alphabet
-- lacks.
pub random_id-Lacks :
    (n c : ℕ) (draws : ℕ → ℕ)
    → ((i : ℕ) → draws i < 64)
    → Lacks c alphabet
    → (length (random_id n draws) ≡ n) × Lacks c (random_id n draws)
unfolding random_id
random_id-Lacks zero c draws h l = (omega arith, tt)
random_id-Lacks (suc n) c draws h l =
    let rest = random_id-Lacks n c (λ i. draws (suc i)) (λ i. h (suc i)) l in
    (omega (arith, rest.0), (letter-Lacks c alphabet (draws 0) (h 0) l, rest.1))
