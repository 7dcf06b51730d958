-- ===== src/Tls/Contexts.antt =====
-- Which contexts and sessions of OpenSSL are alive when a context or a socket has been made, or has not.
use blueboat_cpp.Tls.{
  OpenSsl, Library, ensure_openssl_init, or_throw, checked, with_key, on_context, create_server,
}
use blueboat_cpp.Base.{
  ℕ, ◌≡◌, refl, sym, ◌∙◌, Bool, true, false, Option, none, some, List, ◌∷◌, Bytes, Result, ok,
  throws,
}

module _ (ssl : OpenSsl) where
  open ssl use {State}

  -- What OpenSSL is documented to do to the contexts that are alive, the newest first, to the
  -- sessions, and what closing does to the descriptors.
  pub record LifeLaws : Type 0 where
    pub contexts : State → List ℕ
    pub init-contexts : (s : State) → contexts (ssl.init s) ≡ contexts s
    pub ctx_new-contexts :
        (s s' : State) (c : ℕ) → ssl.ctx_new s ≡ (some c, s') → contexts s' ≡ c ∷ contexts s
    pub ctx_new_none : (s s' : State) → ssl.ctx_new s ≡ (none, s') → contexts s' ≡ contexts s
    pub chain_file-contexts :
        (c : ℕ) (file : Bytes) (s : State)
        → contexts (ssl.use_certificate_chain_file c file s).1 ≡ contexts s
    pub key_file-contexts :
        (c : ℕ) (file : Bytes) (s : State)
        → contexts (ssl.use_private_key_file c file s).1 ≡ contexts s
    pub check-contexts : (c : ℕ) (s : State) → contexts (ssl.check_private_key c s).1 ≡ contexts s
    pub ctx_free-contexts :
        (c : ℕ) (cs : List ℕ) (s : State) → contexts s ≡ c ∷ cs → contexts (ssl.ctx_free c s) ≡ cs

  module _ (laws : LifeLaws) where
    open laws use {contexts}

    -- A context more is alive when there is a result, and none when there is an exception.
    abbrev pub Keeps : List ℕ → Result ℕ × State → Type 0
    Keeps before (ok c, s) = contexts s ≡ c ∷ before
    Keeps before (throws e, s) = contexts s ≡ before

    or_throw-Keeps :
        (c : ℕ) (what : Bytes) (next : State → Result ℕ × State) (before : List ℕ)
        (r : Bool × State)
        → contexts r.1 ≡ c ∷ before
        → ((q : State) → contexts q ≡ c ∷ before → Keeps before (next q))
        → Keeps before (or_throw ssl c what next r)
    or_throw-Keeps c what next before (true, s) e k = k s e
    or_throw-Keeps c what next before (false, s) e k = laws.ctx_free-contexts c before s e

    on_context-Keeps :
        (cert key : Bytes) (s : State) (r : Option ℕ × State)
        → ssl.ctx_new s ≡ r
        → Keeps (contexts s) (on_context ssl cert key r)
    on_context-Keeps cert key s (none, s') e = laws.ctx_new_none s s' e
    on_context-Keeps cert key s (some c, s') e =
        or_throw-Keeps c _ (with_key ssl key c) (contexts s) _
          (laws.chain_file-contexts c cert s' ∙ laws.ctx_new-contexts s s' c e)
          (λ s₁ e₁.
            or_throw-Keeps c _ (checked ssl key c) (contexts s) _
              (laws.key_file-contexts c key s₁ ∙ e₁)
              (λ s₂ e₂.
                or_throw-Keeps c _ (λ q. (ok c, q)) (contexts s) _ (laws.check-contexts c s₂ ∙ e₂)
                  (λ s₃ e₃. e₃)))

    init-Keeps : (w : Library ssl) → contexts (ensure_openssl_init ssl w).1 ≡ contexts w.1
    unfolding ensure_openssl_init
    init-Keeps (true, s) = refl
    init-Keeps (false, s) = laws.init-contexts s

    abbrev pub in_library : Result ℕ × Library ssl → Result ℕ × State
    in_library (r, (once, s)) = (r, s)

    -- With OpenSSL doing to contexts as documented, no context is lost: making a server's context
    -- throws, at the certificate, the key or their match, with the contexts alive that were alive
    -- before, or gives one more, alive, whether or not the library was initialised.
    pub create_server-Keeps :
        (cert key : Bytes) (w : Library ssl)
        → Keeps (contexts w.1) (in_library (create_server ssl cert key w))
    unfolding create_server
    create_server-Keeps cert key w =
        rw (sym (init-Keeps w)) (on_context-Keeps cert key (ensure_openssl_init ssl w).1 _ refl)
