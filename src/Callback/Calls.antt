-- ===== src/Callback/Calls.antt =====
-- Which listeners a call reaches, and what is left of the list.
use blueboat_cpp.Base.{
  ◌≡◌, refl, inl, inr, true, false, not, none, some, List, [], ◌∷◌, ◌++◌, arith, Bool-cases, Bytes,
  keep_if, any,
}
use blueboat_cpp.Callback.{Entry, is_done, hits, mark, remove_called_once, visit, call}

module _ {ℓ} {C : Type ℓ} where
  abbrev pub listeners : List (Entry C) → List C
  listeners [] = []
  listeners (e ∷ es) = e.callback ∷ listeners es

  abbrev pub reached : List (Entry C) → List (Entry C)
  reached = keep_if (λ e. not (is_done e))

  abbrev pub lasting : List (Entry C) → List (Entry C)
  lasting = keep_if (λ e. not e.once)

  abbrev pub marked : List (Entry C) → List (Entry C)
  marked [] = []
  marked (e ∷ es) = mark e ∷ marked es

  module _ (clears : C → List Bytes) where
    -- No listener takes an entry out of the list while it runs.
    abbrev pub AreQuiet : List (Entry C) → List (Entry C) → Type 0
    AreQuiet all [] = Unit
    AreQuiet all (e ∷ es) = (hits (clears e.callback) all ≡ false) × AreQuiet all es

    visit-AreQuiet :
        (all es : List (Entry C))
        → AreQuiet all es
        → visit clears all es ≡ some (listeners (reached es), marked es)
    unfolding visit
    visit-AreQuiet all [] q = refl
    visit-AreQuiet all (e ∷ es) q = ground (arith, visit-AreQuiet all es)

    remove_called_once-marked :
        (es : List (Entry C)) → remove_called_once (marked es) ≡ marked (lasting es)
    unfolding remove_called_once
    remove_called_once-marked [] = refl
    remove_called_once-marked (e ∷ es) = ground (arith, remove_called_once-marked es)

    any-is_done-marked :
        (es : List (Entry C)) → any is_done (marked es) ≡ false → marked es ≡ marked (lasting es)
    any-is_done-marked [] h = refl
    any-is_done-marked (e ∷ es) h = ground (arith, any-is_done-marked es)

    -- When no listener takes an entry out of the list while it runs, a call reaches every listener
    -- but those that are called once and have been, in order, and leaves the listeners that are not
    -- called once, marked as called.
    pub call-AreQuiet :
        (es : List (Entry C))
        → AreQuiet es es
        → call clears es ≡ some (listeners (reached es), marked (lasting es))
    unfolding call
    call-AreQuiet es q = rw (visit-AreQuiet es es q) (elim (Bool-cases (any is_done (marked es))) [
      | inl some_done ↦ rw (some_done, remove_called_once-marked es) refl
      | inr none_done ↦ rw (none_done, any-is_done-marked es none_done) refl
    ])

    visit_stops :
        (all before after : List (Entry C)) (e : Entry C)
        → is_done e ≡ false
        → hits (clears e.callback) all ≡ true
        → visit clears all (before ++ e ∷ after) ≡ none
    unfolding visit
    visit_stops all [] after e d h = ground arith
    visit_stops all (x ∷ before) after e d h = ground (arith, visit_stops all before after e)

    -- A listener that is due and takes any entry out of the list while it runs, its own one for
    -- instance, leaves the call without defined behaviour.
    pub call_stops :
        (before after : List (Entry C)) (e : Entry C)
        → is_done e ≡ false
        → hits (clears e.callback) (before ++ e ∷ after) ≡ true
        → call clears (before ++ e ∷ after) ≡ none
    unfolding call
    call_stops before after e d h = rw (visit_stops (before ++ e ∷ after) before after e d h)
