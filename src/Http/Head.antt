-- ===== src/Http/Head.antt =====
-- Finding the end of a request's head, one byte at a time.
use mathlib.Core.List.{append_assoc}
use blueboat_cpp.Base.{
  ℕ, zero, suc, ◌≤◌, ◌<◌, ◌≡◌, refl, sym, ap, ◌∙◌, inl, inr, true, false, Option, none, some, [],
  ◌∷◌, ◌++◌, arith, Bool-cases, Option-cases, Bytes, length, length-append,
}
use blueboat_cpp.Socket.{Socket, StreamLaws}
use blueboat_cpp.Http.{read_head, ends_head, max_header_size, read_until_double_crlf}

head_eq : {a b : ℕ} {xs ys : Bytes} → a ∷ xs ≡ b ∷ ys → b ≡ a
head_eq e = cc

tail_eq : {a b : ℕ} {xs ys : Bytes} → a ∷ xs ≡ b ∷ ys → xs ≡ ys
tail_eq e = cc

single : (bs : Bytes) → 0 < length bs → length bs ≤ 1 → (b : ℕ) × (bs ≡ b ∷ [])
single [] h k = absurd (omega arith)
single (b ∷ []) h k = (b, refl)
single (b ∷ c ∷ bs) h k = absurd (omega arith)

-- From the parts behind the byte `g` to the parts that begin with it.
longer :
    (buf : Bytes) (g b : ℕ) (p q rest : Bytes)
    → g ∷ rest ≡ b ∷ p ++ q
    → ends_head (buf ++ g ∷ []) ≡ false
    → ((c : ℕ) (r : Bytes) → p ≡ c ∷ r → ends_head ((buf ++ g ∷ []) ++ p) ≡ false)
    → ends_head (buf ++ b ∷ p) ≡ false
longer buf g b [] q rest e not_yet later = ap (λ x. ends_head (buf ++ x ∷ [])) (head_eq e) ∙ not_yet
longer buf g b (c ∷ p) q rest e not_yet later =
    ap (λ x. ends_head (buf ++ x ∷ c ∷ p)) (head_eq e)
    ∙ ap ends_head (sym (append_assoc buf (g ∷ []) (c ∷ p)))
    ∙ later c p refl

module _ (socket : Socket) (laws : StreamLaws socket) where
  open socket use {State}
  open laws use {incoming}

  -- No part `p` of what is coming, of a byte or more, that fits the room ends the head.
  abbrev pub NoEnd : ℕ → Bytes → Bytes → Type 0
  NoEnd room buf coming =
      (b : ℕ) (p q : Bytes)
      → coming ≡ b ∷ p ++ q
      → length p < room
      → ends_head (buf ++ b ∷ p) ≡ false

  -- What was read is the shortest part of what was coming that ends the head.
  pub record IsHead (room : ℕ) (buf : Bytes) (s : State) (head : Bytes) (s' : State) : Type 0 where
    pub part : Bytes
    pub whole : head ≡ buf ++ part
    pub taken : incoming s ≡ part ++ incoming s'
    pub fits : length part ≤ room
    pub ends : ends_head head ≡ true
    pub first :
        (b : ℕ) (p q : Bytes) → part ≡ b ∷ p ++ q → 0 < length q → ends_head (buf ++ b ∷ p) ≡ false

  abbrev pub FindsHead : ℕ → Bytes → State → Option (Bytes × State) → Type 0
  FindsHead room buf s none = NoEnd room buf (incoming s)
  FindsHead room buf s (some (head, s')) = IsHead room buf s head s'

  module _ (room : ℕ) (buf : Bytes) (s s' : State) (g : ℕ)
      (next : incoming s ≡ g ∷ incoming s') where
    found_now : ends_head (buf ++ g ∷ []) ≡ true → IsHead (suc room) buf s (buf ++ g ∷ []) s'
    found_now ends = record {
      part = g ∷ [];
      whole = refl;
      taken = next;
      fits = omega arith;
      ends = ends;
      first = λ b p q e h. absurd (omega (arith, ap length e, length-append p q));
    }

    NoEnd-later :
        ends_head (buf ++ g ∷ []) ≡ false
        → NoEnd room (buf ++ g ∷ []) (incoming s')
        → NoEnd (suc room) buf (incoming s)
    NoEnd-later not_yet f b p q e h =
        let split = sym next ∙ e in
        longer buf g b p q (incoming s') split not_yet λ c r p_eq.
          let fits : length r < room = omega (arith, ap length p_eq) in
          ap (λ x. ends_head ((buf ++ g ∷ []) ++ x)) p_eq
          ∙ f c r q (tail_eq split ∙ ap (λ x. x ++ q) p_eq) fits

    found_later :
        (r : Option (Bytes × State))
        → ends_head (buf ++ g ∷ []) ≡ false
        → FindsHead room (buf ++ g ∷ []) s' r
        → FindsHead (suc room) buf s r
    found_later none not_yet f = NoEnd-later not_yet f
    found_later (some (head, s'')) not_yet f = record {
      part = g ∷ f.part;
      whole = f.whole ∙ append_assoc buf (g ∷ []) f.part;
      taken = next ∙ ap (◌∷◌ g) f.taken;
      fits = omega (arith, f.fits);
      ends = f.ends;
      first = λ b p q e h. longer buf g b p q f.part e not_yet λ c r p_eq.
          ap (λ x. ends_head ((buf ++ g ∷ []) ++ x)) p_eq
          ∙ f.first c r q (tail_eq e ∙ ap (λ x. x ++ q) p_eq) h;
    }

  Reads-one :
      (s s' : State) (got : Bytes)
      → socket.read 1 s ≡ some (got, s')
      → (g : ℕ) × (got ≡ g ∷ []) × (incoming s ≡ g ∷ incoming s')
  Reads-one s s' got e =
      let (next, some_byte, few) = laws.read-incoming 1 s s' got e (omega arith) in
      let (g, one) = single got some_byte few in (g, one, next ∙ ap (λ x. x ++ incoming s') one)

  NoEnd-nil : (room : ℕ) (buf : Bytes) (s : State) → incoming s ≡ [] → NoEnd room buf (incoming s)
  NoEnd-nil room buf s none_left b p q e h = cc

  NoEnd-zero : (buf coming : Bytes) → NoEnd zero buf coming
  NoEnd-zero buf coming b p q e h = absurd (omega arith)

  read_head_byte :
      (room : ℕ) (buf : Bytes) (s s' : State) (g : ℕ)
      → socket.read 1 s ≡ some (g ∷ [], s')
      → incoming s ≡ g ∷ incoming s'
      → FindsHead room (buf ++ g ∷ []) s' (read_head socket room (buf ++ g ∷ []) s')
      → FindsHead (suc room) buf s (read_head socket (suc room) buf s)
  unfolding read_head
  read_head_byte room buf s s' g e next rest = elim (Bool-cases (ends_head (buf ++ g ∷ []))) [
    | inl ends ↦ rw (e, read_head, ends) (found_now room buf s s' g next ends)
    | inr not_yet ↦ rw (e, read_head, not_yet) (found_later room buf s s' g next _ not_yet rest)
  ]

  read_head-FindsHead :
      (room : ℕ) (buf : Bytes) (s : State) → FindsHead room buf s (read_head socket room buf s)
  unfolding read_head
  read_head-FindsHead zero buf s = NoEnd-zero buf (incoming s)
  read_head-FindsHead (suc room) buf s = elim (Option-cases (socket.read 1 s)) [
    | inl e ↦
        rw (e, read_head)
          (NoEnd-nil (suc room) buf s (laws.read_none 1 s e (omega arith) (omega arith)))
    | inr ((got, s'), e) ↦
        let (g, one, next) = Reads-one s s' got e in
        read_head_byte room buf s s' g (e ∙ ap (λ x. some (x, s')) one) next
          (read_head-FindsHead room (buf ++ g ∷ []) s')
  ]

  -- On a socket that is a stream, the head of a request is the shortest part of the stream that
  -- ends in an empty line, if that is 64 KiB long at most, and the rest of the stream is left;
  -- otherwise there is no head.
  pub read_until_double_crlf-FindsHead :
      (s : State) → FindsHead max_header_size [] s (read_until_double_crlf socket s)
  unfolding read_until_double_crlf
  read_until_double_crlf-FindsHead s = read_head-FindsHead max_header_size [] s
