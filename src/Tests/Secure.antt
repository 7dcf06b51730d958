-- ===== src/Tests/Secure.antt =====
-- A TLS library that refuses a key, and a session that gives its bytes one by one.
use blueboat_cpp.Tls
use blueboat_cpp.Server.Host.Starting
use blueboat_cpp.Tls.Stream
use blueboat_cpp.Tls.Contexts.{Keeps, LifeLaws, in_library, create_server-Keeps}
use blueboat_cpp.Tls.{OpenSsl, zero_return, create_server, tls_link}
use blueboat_cpp.Base.{
  ℕ, zero, suc, ◌≤◌, ◌<◌, ◌≡◌, refl, ap, inl, inr, true, false, Option, none, some, List, [], ◌∷◌,
  ◌++◌, arith, Bytes, codes, length, take, drop,
}
use blueboat_cpp.Socket.{TransferLaws}

abbrev one_byte : ℕ → List ℕ → Bytes → Bytes → Option Bytes × (List ℕ × (Bytes × Bytes))
one_byte zero cs i o = (none, (cs, (i, o)))
one_byte (suc n) cs [] o = (none, (cs, ([], o)))
one_byte (suc n) cs (b ∷ i) o = (some (b ∷ []), (cs, (i, o)))

abbrev send_byte : ℕ → Bytes → List ℕ → Bytes → Bytes → Option ℕ × (List ℕ × (Bytes × Bytes))
send_byte zero bs cs i o = (none, (cs, (i, o)))
send_byte (suc n) [] cs i o = (none, (cs, (i, o)))
send_byte (suc n) (b ∷ bs) cs i o = (some 1, (cs, (i, o ++ b ∷ [])))

-- The contexts that are alive, and the bytes to come and sent.
abbrev library : OpenSsl
library = record {
  State = List ℕ × (Bytes × Bytes);
  init = λ s. s;
  ctx_new = λ s. (some (length s.0), (length s.0 ∷ s.0, s.1));
  use_certificate_chain_file = λ c file s. (true, s);
  use_private_key_file = λ c file s. (false, s);
  check_private_key = λ c s. (true, s);
  ctx_free = λ c s. (drop 1 s.0, s.1);
  ssl_new = λ c s. (some 0, s);
  set_fd = λ p fd s. s;
  ssl_accept = λ p s. (true, s);
  ssl_read = λ p n s. one_byte n s.0 s.1.0 s.1.1;
  ssl_write = λ p bs n s. send_byte n bs s.0 s.1.0 s.1.1;
  get_error = λ p s. zero_return;
  ssl_shutdown = λ p s. s;
  ssl_free = λ p s. s;
  close = λ fd s. s;
  shutdown = λ fd s. s;
}

made :
    (cs : List ℕ) (io : Bytes × Bytes) (cs' : List ℕ) (io' : Bytes × Bytes) (c : ℕ)
    → ◌≡◌ {A = Option ℕ × (List ℕ × (Bytes × Bytes))}
        (some (length cs), (length cs ∷ cs, io))
        (some c, (cs', io'))
    → cs' ≡ c ∷ cs
made cs io cs' io' c e = ground arith

not_made :
    (cs : List ℕ) (io : Bytes × Bytes) (s' : List ℕ × (Bytes × Bytes))
    → ◌≡◌ {A = Option ℕ × (List ℕ × (Bytes × Bytes))}
        (some (length cs), (length cs ∷ cs, io))
        (none, s')
    → s'.0 ≡ cs
not_made cs io s' e = absurd cc

one_byte-lem :
    (n : ℕ) (cs : List ℕ) (i o bs : Bytes) (cs' : List ℕ) (i' o' : Bytes)
    → one_byte n cs i o ≡ (some bs, (cs', (i', o')))
    → (i ≡ bs ++ i') × (0 < length bs) × (length bs ≤ n)
one_byte-lem zero cs i o bs cs' i' o' e = ground arith
one_byte-lem (suc n) cs [] o bs cs' i' o' e = ground arith
one_byte-lem (suc n) cs (b ∷ i) o bs cs' i' o' e = ground arith

one_byte-none :
    (n : ℕ) (cs : List ℕ) (i o : Bytes) (cs' : List ℕ) (i' o' : Bytes)
    → one_byte n cs i o ≡ (none, (cs', (i', o')))
    → 0 < n
    → i ≡ []
one_byte-none zero cs i o cs' i' o' e p = absurd (omega arith)
one_byte-none (suc n) cs [] o cs' i' o' e p = refl
one_byte-none (suc n) cs (b ∷ i) o cs' i' o' e p = ground arith

send_byte-lem :
    (n : ℕ) (bs : Bytes) (cs : List ℕ) (i o : Bytes) (m : ℕ) (cs' : List ℕ) (i' o' : Bytes)
    → send_byte n bs cs i o ≡ (some m, (cs', (i', o')))
    → (o' ≡ o ++ take m bs) × (0 < m) × (m ≤ n)
send_byte-lem zero bs cs i o m cs' i' o' e = ground arith
send_byte-lem (suc n) [] cs i o m cs' i' o' e = ground arith
send_byte-lem (suc n) (b ∷ bs) cs i o m cs' i' o' e = ground arith

abbrev life_laws : LifeLaws library
life_laws = record {
  contexts = λ s. s.0;
  init-contexts = λ s. refl;
  ctx_new-contexts = λ s s' c e. made s.0 s.1 s'.0 s'.1 c e;
  ctx_new_none = λ s s' e. not_made s.0 s.1 s' e;
  chain_file-contexts = λ c file s. refl;
  key_file-contexts = λ c file s. refl;
  check-contexts = λ c s. refl;
  ctx_free-contexts = λ c cs s e. ap (drop 1) e;
}

create_server-Keeps_example : Keeps library life_laws [] (
    in_library library life_laws
      (create_server library (codes "c") (codes "k") (false, ([], ([], [])))))
create_server-Keeps_example =
    create_server-Keeps library life_laws (codes "c") (codes "k") (false, ([], ([], [])))

abbrev to_come : List ℕ × (Bytes × Bytes) → Bytes
to_come s = s.1.0

abbrev passed : List ℕ × (Bytes × Bytes) → Bytes
passed s = s.1.1

not_retried : Tls.Stream.IsToRetry library zero_return → ⊥
not_retried (inl e) = cc
not_retried (inr e) = cc

session_laws : Tls.Stream.SessionLaws library 0 to_come passed
session_laws = record {
  ssl_read-plain = λ n s bs s' e. one_byte-lem n s.0 s.1.0 s.1.1 bs s'.0 s'.1.0 s'.1.1 e;
  ssl_read-zero_return = λ n s s' e z p lt. one_byte-none n s.0 s.1.0 s.1.1 s'.0 s'.1.0 s'.1.1 e p;
  ssl_read-retry = λ n s s' e again. absurd (not_retried again);
  ssl_write-sent = λ bs n s s' m e. send_byte-lem n bs s.0 s.1.0 s.1.1 m s'.0 s'.1.0 s'.1.1 e;
  ssl_write-retry = λ bs n s s' e again. absurd (not_retried again);
}

tls_link-AreTransferLaws_example : TransferLaws (tls_link library 0) to_come passed
tls_link-AreTransferLaws_example =
    Tls.Stream.tls_link-AreTransferLaws library 0 to_come passed session_laws

-- A library that gives one session for each context, whose handshakes fail.
abbrev strict : OpenSsl
strict = record library {
  ssl_new = λ c s. (some (length s.0), (length s.0 ∷ s.0, s.1));
  ssl_accept = λ p s. (false, s);
  ssl_free = λ p s. (drop 1 s.0, s.1);
  close = λ fd s. (s.0, (fd ∷ s.1.0, s.1.1));
}

made_session :
    (ps : List ℕ) (io : Bytes × Bytes) (ps' : List ℕ) (io' : Bytes × Bytes) (p : ℕ)
    → ◌≡◌ {A = Option ℕ × (List ℕ × (Bytes × Bytes))}
        (some (length ps), (length ps ∷ ps, io))
        (some p, (ps', io'))
    → (ps' ≡ p ∷ ps) × (io'.0 ≡ io.0)
made_session ps io ps' io' p e = ground arith

abbrev session_life : Starting.SessionLife strict
session_life = record {
  sessions = λ s. s.0;
  closed = λ s. s.1.0;
  ssl_new-sessions = λ c p s s' e. made_session s.0 s.1 s'.0 s'.1 p e;
  set_fd-sessions = λ p fd s. (refl, refl);
  accept-sessions = λ p s. (refl, refl);
  shutdown-sessions = λ p s. (refl, refl);
  free-sessions = λ p ps s e. (ap (drop 1) e, refl);
  close-sessions = λ fd s. (refl, refl);
}

secure-Settles_example :
    (Starting.secure strict none 7 ([], ([], [])) ≡ some (some none, ([], ([], []))))
    × Starting.Settles strict session_life 7 0
        ([], ([], []))
        (false, (0 ∷ [], ([], [])))
        (Starting.secure strict (some 0) 7 ([], ([], [])))
secure-Settles_example =
    Starting.secure-Settles strict session_life 0 7 0 ([], ([], [])) (0 ∷ [], ([], [])) refl
