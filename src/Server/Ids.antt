-- ===== src/Server/Ids.antt =====
-- The id of a new room.
use mathlib.Core.Path.{subst}
use blueboat_cpp.Base.{
  ℕ, zero, suc, ◌<◌, ◌≡◌, refl, sym, ◌∙◌, ◌⊎◌, inl, inr, true, false, ◌||◌, List, [], arith,
  if◌then◌else◌, Bool-cases, Bytes, codes, is_empty, Result, ok, throws,
}
use blueboat_cpp.Storage.Keys.{listed}
use blueboat_cpp.Server.Creation.{pick_id, choose_id}

-- It is not taken and not empty.
abbrev pub IsFresh : List Bytes → Bytes → Type 0
IsFresh taken id = (is_empty id ≡ false) × (listed id taken ≡ false)

-- One of the first `n` candidates is this id.
abbrev pub Drawn : ℕ → (ℕ → Bytes) → Bytes → Type 0
Drawn n candidates id = (i : ℕ) × (i < n) × (id ≡ candidates i)

-- None of the first `n` candidates will do.
abbrev pub NoneFresh : ℕ → (ℕ → Bytes) → List Bytes → Type 0
NoneFresh n candidates taken =
    (i : ℕ) → i < n → listed (candidates i) taken || is_empty (candidates i) ≡ true

-- What `pick_id` returns: nothing, when none of the candidates will do, or a fresh one.
abbrev pub Picks : ℕ → (ℕ → Bytes) → List Bytes → Bytes → Type 0
Picks n candidates taken id =
    ((id ≡ []) × NoneFresh n candidates taken) ⊎ (IsFresh taken id × Drawn n candidates id)

extend_none :
    (n : ℕ) (candidates : ℕ → Bytes) (taken : List Bytes)
    → listed (candidates 0) taken || is_empty (candidates 0) ≡ true
    → NoneFresh n (λ i. candidates (suc i)) taken
    → NoneFresh (suc n) candidates taken
extend_none n candidates taken bad rest zero h = bad
extend_none n candidates taken bad rest (suc i) h = rest i (omega arith)

pick_id-Picks :
    (n : ℕ) (candidates : ℕ → Bytes) (taken : List Bytes)
    → Picks n candidates taken (pick_id n candidates taken)
unfolding pick_id
pick_id-Picks zero candidates taken = inl (refl, λ i h. absurd (omega arith))
pick_id-Picks (suc n) candidates taken =
    elim (Bool-cases (listed (candidates 0) taken || is_empty (candidates 0))) [
      | inl bad ↦ rw bad (later bad (pick_id-Picks n (λ i. candidates (suc i)) taken))
      | inr good ↦ rw good (inr (ground arith, (0, omega arith, refl)))
    ]
  where
    later :
        {id : Bytes}
        → listed (candidates 0) taken || is_empty (candidates 0) ≡ true
        → Picks n (λ i. candidates (suc i)) taken id
        → Picks (suc n) candidates taken id
    later bad (inl (e, none_fresh)) = inl (e, extend_none n candidates taken bad none_fresh)
    later bad (inr (fresh, (i, h, e))) = inr (fresh, (suc i, omega arith, e))

abbrev random_id_or_throw : Bytes → Result Bytes
random_id_or_throw id =
    if is_empty id then throws (codes "Failed to create room with unique ID") else ok id

random-ok :
    (candidates : ℕ → Bytes) (p id : Bytes) (ids : List Bytes)
    → Picks 3 candidates ids p
    → random_id_or_throw p ≡ ok id
    → IsFresh ids id × Drawn 3 candidates id
random-ok candidates p id ids (inl (nothing, none_fresh)) e = ground arith
random-ok candidates p id ids (inr (fresh, (i, h, same))) e =
    let here : p ≡ id = ground arith in (subst (IsFresh ids) here fresh, (i, h, sym here ∙ same))

random-throws :
    (candidates : ℕ → Bytes) (p what : Bytes) (ids : List Bytes)
    → Picks 3 candidates ids p
    → random_id_or_throw p ≡ throws what
    → NoneFresh 3 candidates ids
random-throws candidates p what ids (inl (nothing, none_fresh)) e = none_fresh
random-throws candidates p what ids (inr (fresh, drawn)) e = absurd (cc (rw fresh.0 at e))

-- An id that is chosen for a new room is not empty and not in the list of rooms; it is the one that
-- was asked for, or, where none was, one of the first three candidates.
pub choose_id-IsFresh :
    (asked : Bytes) (candidates : ℕ → Bytes) (taken : List Bytes) (id : Bytes)
    → choose_id asked candidates taken ≡ ok id
    → IsFresh taken id
      × ((is_empty asked ≡ false) × (id ≡ asked) ⊎ (is_empty asked ≡ true) × Drawn 3 candidates id)
unfolding choose_id
choose_id-IsFresh asked candidates taken id e = elim (Bool-cases (is_empty asked)) [
  | inl random ↦
      let (fresh, drawn) =
        random-ok candidates (pick_id 3 candidates taken) id taken
          (pick_id-Picks 3 candidates taken) (rw random at e) in
      (fresh, inr (random, drawn))
  | inr given ↦ (ground arith, inl (given, ground arith))
]

-- No id is chosen only if the one that was asked for is in the list of rooms, or, where none was
-- asked for, each of the first three candidates is empty or in the list.
pub choose_id_fails :
    (asked : Bytes) (candidates : ℕ → Bytes) (taken : List Bytes) (what : Bytes)
    → choose_id asked candidates taken ≡ throws what
    → ((is_empty asked ≡ false) × (listed asked taken ≡ true))
      ⊎ ((is_empty asked ≡ true) × NoneFresh 3 candidates taken)
unfolding choose_id
choose_id_fails asked candidates taken what e = elim (Bool-cases (is_empty asked)) [
  | inl random ↦ inr (
    random,
    random-throws candidates (pick_id 3 candidates taken) what taken
        (pick_id-Picks 3 candidates taken) (rw random at e),
  )
  | inr given ↦ inl (given, ground arith)
]
