-- ===== src/Tests/Links.antt =====
-- Frames of one byte each, which are text, over a stream in memory.
use blueboat_cpp.Tests.Streams.{stream}
use blueboat_cpp.WsConnection.Receiving.{
  WslayLaws, Receives, hand, blocked, got, sent_all, fed_same,
}
use blueboat_cpp.WsConnection.{construct, Callbacks, text_frame, Wslay, buffer_size}
use blueboat_cpp.Base.{
  ℕ, zero, suc, ◌≡◌, refl, ap, true, false, Option, none, some, List, [], ◌∷◌, ◌++◌, arith, Bytes,
}
use blueboat_cpp.WsConnection.Delivery

-- Each byte is a message.
abbrev pub letters : Bytes → List (ℕ × Bytes)
letters [] = []
letters (b ∷ bs) = (text_frame, b ∷ []) ∷ letters bs

pub letters-append : (bs cs : Bytes) → letters (bs ++ cs) ≡ letters bs ++ letters cs
letters-append [] cs = refl
letters-append (b ∷ bs) cs = ap (◌∷◌ (text_frame, b ∷ [])) (letters-append bs cs)

abbrev fed : Bytes → Unit {0} → Option (List (ℕ × Bytes) × Unit {0})
fed bs r = some (letters bs, r)

abbrev read_on : {S : Type 0} → (S → S) → Callbacks S → Option Bytes × S → S
read_on next cbs (none, s) = s
read_on next cbs (some bs, s) = next (hand cbs (letters bs) s)

-- Reading one byte at a time, up to a number of times.
unfoldable pub reading_loop : {S : Type 0} → ℕ → Callbacks S → S → S
reading_loop zero cbs s = s
reading_loop (suc n) cbs s = read_on (reading_loop n cbs) cbs (cbs.recv 1 s)

pub reading_loop-Receives :
    {S : Type 0} (cbs : Callbacks S) (n : ℕ) (r r' : Unit {0}) (s s' : S)
    → Receives fed 1 cbs n r s r' s'
    → reading_loop (suc n) cbs s ≡ s'
unfolding reading_loop
reading_loop-Receives cbs n r r' s s' (blocked e) = rw e refl
reading_loop-Receives cbs (suc n) r r' s s' (got {r₁ = r₁} {s₁ = s₁} bs ms e f more) =
    let same : letters bs ≡ ms = (fed_same (letters bs) ms r r₁ (fed bs r) refl f).0 in
    rw (e, same) (reading_loop-Receives cbs n r₁ r' (hand cbs ms s₁) s' more)

abbrev pub wire : Wslay
wire = record {
  Context = Unit {0};
  context_init = λ is_client. tt;
  queue_msg = λ op message ctx. some ctx;
  queue_close = λ code ctx. ctx;
  event_send = λ cbs ctx s. (ctx, s);
  event_recv = λ cbs ctx s. (true, ctx, reading_loop (suc buffer_size) cbs s);
  read_enabled = λ ctx. true;
}

abbrev pub wire_laws : WslayLaws wire
wire_laws = record {
  Reading = Unit {0};
  reading = λ ctx. ctx;
  feed = fed;
  start = λ is_client. tt;
  context_init-reading = λ is_client. refl;
  feed-nil = λ r. refl;
  feed-append = λ bs cs r. ap (λ ms. some (ms, r)) (letters-append bs cs);
  len = 1;
  len_pos = omega arith;
  event_recv-Receives = λ cbs ctx r' s s' h. (
    ctx,
    ap (λ q. (true, ctx, q)) (reading_loop-Receives cbs buffer_size ctx r' s s' h),
    refl,
    refl,
  );
  event_send-Sends = λ cbs ctx s. (sent_all, refl, refl);
}

abbrev pub log : Delivery.Log wire wire_laws stream
log = record { connection = construct false ([], []); user = [] }
