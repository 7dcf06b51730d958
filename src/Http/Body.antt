-- ===== src/Http/Body.antt =====
-- Reading a body of a known length, and writing a response, whatever the sizes of the transfers.
use mathlib.Core.List.{append-nil, append_assoc}
use blueboat_cpp.Base.{
  ℕ, zero, suc, ◌+◌, ◌-◌, ◌^◌, ◌≤◌, ◌<◌, ◌≡◌, refl, sym, ap, ◌∙◌, ◌≢◌, inl, inr, Option, none, some,
  [], ◌∷◌, ◌++◌, arith, Option-cases, Bytes, length, take, drop, length-append, length-take-drop,
  take-append-drop, take-append, drop-append, take-take, length-take, Assoc,
}
use blueboat_cpp.Socket.{Socket, StreamLaws}
use blueboat_cpp.Http.{read_rest, read_body, write_rest, response, write_response}

module _ (socket : Socket) (laws : StreamLaws socket) where
  open socket use {State}
  open laws use {incoming, sent}

  -- Enough bytes are coming: exactly the next `missing` of them are read.
  abbrev pub Reads : ℕ → Bytes → State → Option (Bytes × State) → Type 0
  Reads missing body s none = length (incoming s) < missing
  Reads missing body s (some (all, s')) =
      (all ≡ body ++ take missing (incoming s))
      × (incoming s' ≡ drop missing (incoming s))
      × (missing ≤ length (incoming s))

  Reads-step :
      (n : ℕ) (body got : Bytes) (s s' : State) (r : Option (Bytes × State))
      → incoming s ≡ got ++ incoming s'
      → length got ≤ n
      → Reads (n - length got) (body ++ got) s' r
      → Reads n body s r
  Reads-step n body got s s' none e h r =
      omega (arith, ap length e, length-append got (incoming s'))
  Reads-step n body got s s' (some (all, s'')) e h (whole, left, enough) = (
    rw (e, take-append n got (incoming s') h) (whole ∙ append_assoc body got _),
    rw (e, drop-append n got (incoming s') h) left,
    omega (arith, ap length e, length-append got (incoming s')),
  )

  read_rest-Reads :
      (fuel missing : ℕ) (body : Bytes) (s : State)
      → missing ≤ fuel
      → missing < 2 ^ 31
      → Reads missing body s (read_rest socket fuel missing body s)
  unfolding read_rest
  read_rest-Reads fuel zero body s h lt = (sym (append-nil body), refl, omega arith)
  read_rest-Reads zero (suc missing) body s h lt = absurd (omega arith)
  read_rest-Reads (suc fuel) (suc missing) body s h lt =
      elim (Option-cases (socket.read (suc missing) s)) [
        | inl e ↦
            rw (e, read_rest)
              (omega (arith, ap length (laws.read_none (suc missing) s e (omega arith) lt)))
        | inr ((got, s'), e) ↦
            let (next, some_byte, few) =
              laws.read-incoming (suc missing) s s' got e (omega arith) in
            rw (e, read_rest)
              (Reads-step (suc missing) body got s s' _ next few (
                read_rest-Reads fuel (suc missing - length got) (body ++ got) s' (omega arith)
                  (omega arith)))
      ]

  -- On a socket that is a stream, a body of less than 2 GiB, which every body that
  -- a request may have is, is read whole exactly when as many bytes are coming as its length says: it is the next bytes of the stream, and what follows them is left, however the
  -- reads are cut.
  pub read_body-Reads : (n : ℕ) (s : State) → n < 2 ^ 31 → Reads n [] s (read_body socket n s)
  unfolding read_body
  read_body-Reads n s lt = read_rest-Reads n n [] s (omega arith) lt

  write_rest-sent :
      (fuel : ℕ) (text : Bytes) (s : State)
      → (n : ℕ) × (sent (write_rest socket fuel text s) ≡ sent s ++ take n text)
  unfolding write_rest
  write_rest-sent fuel [] s = (0, sym (append-nil (sent s)))
  write_rest-sent zero (c ∷ rest) s = (0, sym (append-nil (sent s)))
  write_rest-sent (suc fuel) (c ∷ rest) s = elim (Option-cases (socket.write (c ∷ rest) s)) [
    | inl e ↦ (0, rw (e, write_rest) (sym (append-nil (sent s))))
    | inr ((n, s'), e) ↦
        let (m, later) = write_rest-sent fuel (drop n (c ∷ rest)) s' in
        let now = laws.write-sent (c ∷ rest) s s' n e in
        (
          n + m,
          rw (e, write_rest, take-take n m (c ∷ rest))
              (later ∙ ap (λ b. b ++ take m (drop n (c ∷ rest))) now.0 ∙ append_assoc (sent s) _ _),
        )
  ]

  -- What a response puts on the stream is a prefix of it.
  pub write_response-sent :
      (status : ℕ) (status_text content_type body : Bytes) (extra : Assoc Bytes) (s : State)
      → (n : ℕ) × (sent (write_response socket status status_text content_type body extra s)
          ≡ sent s ++ take n (response status status_text content_type body extra))
  unfolding write_response
  write_response-sent status status_text content_type body extra s =
      let text = response status status_text content_type body extra in
      write_rest-sent (length text) text s

  write_rest_whole :
      ((bs : Bytes) (s : State) → bs ≢ [] → socket.write bs s ≢ none)
      → (fuel : ℕ) (text : Bytes) (s : State) → length text ≤ fuel
      → sent (write_rest socket fuel text s) ≡ sent s ++ text
  unfolding write_rest
  write_rest_whole works fuel [] s h = sym (append-nil (sent s))
  write_rest_whole works zero (c ∷ rest) s h = absurd (omega arith)
  write_rest_whole works (suc fuel) (c ∷ rest) s h =
      elim (Option-cases (socket.write (c ∷ rest) s)) [
        | inl e ↦ absurd (works (c ∷ rest) s (λ p. cc) e)
        | inr ((n, s'), e) ↦
            let now = laws.write-sent (c ∷ rest) s s' n e in
            let later = write_rest_whole works fuel (drop n (c ∷ rest)) s' (
              omega
                (arith, length-take-drop n (c ∷ rest), length-take n (c ∷ rest), now.1, now.2)) in
            rw (e, write_rest)
              (later
                ∙ ap (λ b. b ++ drop n (c ∷ rest)) now.0
                ∙ append_assoc (sent s) _ _
                ∙ ap (λ b. sent s ++ b) (take-append-drop n (c ∷ rest)))
      ]

  -- On a socket that is a stream, and where no write of a byte or more fails, the whole response is
  -- sent, and nothing else, however the writes are cut.
  write_response_whole :
      ((bs : Bytes) (s : State) → bs ≢ [] → socket.write bs s ≢ none)
      → (status : ℕ) (status_text content_type body : Bytes) (extra : Assoc Bytes) (s : State)
      → sent (write_response socket status status_text content_type body extra s)
        ≡ sent s ++ response status status_text content_type body extra
  unfolding write_response
  write_response_whole works status status_text content_type body extra s =
      let text = response status status_text content_type body extra in
      write_rest_whole works (length text) text s (omega arith)
