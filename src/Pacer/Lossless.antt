-- ===== src/Pacer/Lossless.antt =====
-- The two halves of the pacing bridge of pkg/rtp/duplex.go together: pushes and ticks in any
-- interleaving.
use mathlib.Core.List.{append_assoc, append-nil}
use lang_stream.Prelude.{
  ℕ, suc, ◌+◌, ◌-◌, ◌%◌, ◌≤◌, ◌<◌, ◌≡◌, ◌⊎◌, inl, inr, refl, sym, subst, ap, ◌∙◌, true, List, [],
  ◌∷◌, ◌++◌, map, length, length-append, arith, some,
}
use lang_stream.Prelude.Int.{ℤ, pos}
use lang_stream.Jitter.{Packet, Config, pull, new_jitter_buffer, pull_ok, find}
use lang_stream.Jitter.Fifo.{Holds, push-Holds, pull-Holds, popped}
use lang_stream.Pacer.{Bridge, new_bridge, push_payload, tick, tick_loop}

-- A push of the feeding goroutine or a tick of the playing one, at the time that its clock reads.
pub data Event : Type 0 where
  feeds : List ℕ → ℤ → Event
  ticks : ℤ → Event

unfoldable pub step : Bridge → Event → Bridge
step s (feeds payload now) = push_payload s payload now
step s (ticks now) = tick s now

unfoldable pub run : Bridge → List Event → Bridge
run s [] = s
run s (e ∷ es) = run (step s e) es

-- The payloads that are pushed.
abbrev pub fed : List Event → List (List ℕ)
fed [] = []
fed (feeds payload now ∷ es) = payload ∷ fed es
fed (ticks now ∷ es) = fed es

-- How many payloads wait after the events, when `n` waited before.
abbrev pub backlog : ℕ → List Event → ℕ
backlog n [] = n
backlog n (feeds payload now ∷ es) = backlog (n + 1) es
backlog n (ticks now ∷ es) = backlog (n - 1) es

-- At every push fewer than `room` payloads wait.
abbrev pub Fits : ℕ → ℕ → List Event → Type 0
Fits room n [] = Unit
Fits room n (feeds payload now ∷ es) = (n < room) × Fits room (n + 1) es
Fits room n (ticks now ∷ es) = Fits room (n - 1) es

-- The packets that wait, oldest first.
record Waits (room : ℕ) (s : Bridge) (q : List Packet) : Type 0 where
  holds : Holds s.buf q
  started : s.pushed ≡ 0 ⊎ (s.buf.initialized ≡ true)
  next_push : s.seq ≡ (s.buf.next_seq + length q) % 65536
  counts : s.pushed ≡ s.consumed + length q
  capacity : s.buf.cfg.max_packets_buffered ≡ pos room

payload_of : Packet → List ℕ
payload_of p = p.payload

push-Waits :
    (room : ℕ) (s : Bridge) (q : List Packet) (payload : List ℕ) (now : ℤ)
    → room ≤ 32768
    → length q < room
    → Waits room s q
    → Waits room
        (push_payload s payload now)
        (q ++ record { seq_num = s.seq; timestamp = 0; payload = payload } ∷ [])
unfolding push_payload
push-Waits room s q payload now big fits w =
    let p : Packet = record { seq_num = s.seq; timestamp = 0; payload = payload } in
    let h =
      push-Holds s.buf q p now w.holds (omega arith) (rw w.capacity (omega arith)) w.next_push in
    record {
      holds = h.0;
      started = inr h.2;
      next_push = omega (arith, h.1, w.next_push, length-append q (p ∷ []));
      counts = omega (arith, w.counts, length-append q (p ∷ []));
      capacity = ap (λ c. c.max_packets_buffered) h.3 ∙ w.capacity;
    }

tick_idle : (s : Bridge) (now : ℤ) → s.pushed ≡ s.consumed → tick s now ≡ s
unfolding tick
tick_idle s now e = let z : s.pushed - s.consumed ≡ 0 = omega arith in rw z refl

loop_plays :
    (s : Bridge) (now : ℤ) (p : Packet) (n : ℕ)
    → s.pushed ≡ s.consumed + suc n
    → pull s.buf now ≡ (popped s.buf, some p, pull_ok)
    → tick_loop (suc n) s now ≡ record s {
      buf = popped s.buf;
      consumed = s.consumed + 1;
      injected = s.injected ++ p.payload ∷ [];
    }
unfolding tick_loop
loop_plays s now p n e f = ground arith

tick_plays :
    (s : Bridge) (now : ℤ) (p : Packet) (n : ℕ)
    → s.pushed ≡ s.consumed + suc n
    → pull s.buf now ≡ (popped s.buf, some p, pull_ok)
    → tick s now ≡ record s {
      buf = popped s.buf;
      consumed = s.consumed + 1;
      injected = s.injected ++ p.payload ∷ [];
    }
unfolding tick
tick_plays s now p n e f =
    ap (λ k. tick_loop k s now) {y = suc n} (omega arith) ∙ loop_plays s now p n e f

played-Waits :
    (room : ℕ) (s : Bridge) (p : Packet) (q : List Packet) (now : ℤ)
    → Waits room s (p ∷ q)
    → (tick s now ≡ record s {
      buf = popped s.buf;
      consumed = s.consumed + 1;
      injected = s.injected ++ p.payload ∷ [];
    })
      × Waits room (tick s now) q
played-Waits room s p q now w =
    let init : s.buf.initialized ≡ true = elim w.started [
      | inl z ↦ absurd (omega (arith, w.counts))
      | inr i ↦ i
    ] in
    let h = pull-Holds s.buf p q now w.holds init in
    let e = tick_plays s now p (length q) w.counts h.0 in
    (
      e,
      rw e (record {
        holds = h.1;
        started = inr init;
        next_push = omega (arith, w.next_push, w.holds.next_word);
        counts = omega (arith, w.counts);
        capacity = w.capacity;
      }),
    )

-- What a bridge still owes after some events.
abbrev Owes : Bridge → List (List ℕ) → ℕ → Type 0
Owes s due n = (rest : List (List ℕ)) × (s.injected ++ rest ≡ due) × (length rest ≡ n)

length-map_payload : (q : List Packet) → length (map payload_of q) ≡ length q
length-map_payload [] = refl
length-map_payload (p ∷ q) = ap suc (length-map_payload q)

map-snoc :
    (q : List Packet) (p : Packet) (ps : List (List ℕ))
    → map payload_of (q ++ p ∷ []) ++ ps ≡ map payload_of q ++ (p.payload ∷ ps)
unfolding payload_of
map-snoc [] p ps = refl
map-snoc (x ∷ q) p ps = ap (◌∷◌ x.payload) (map-snoc q p ps)

push_due :
    (s : Bridge) (q : List Packet) (payload : List ℕ) (now : ℤ)
    (later rest injected : List (List ℕ))
    → injected ++ rest
      ≡ (push_payload s payload now).injected
        ++ (map payload_of (q ++ record { seq_num = s.seq; timestamp = 0; payload = payload } ∷ [])
            ++ later)
    → injected ++ rest ≡ s.injected ++ (map payload_of q ++ (payload ∷ later))
unfolding push_payload
push_due s q payload now later rest injected h = h ∙ ap (◌++◌ s.injected) (map-snoc q _ later)

lossless_from :
    (room : ℕ) (s : Bridge) (q : List Packet) (es : List Event)
    → room ≤ 32768
    → Waits room s q
    → Fits room (length q) es
    → Owes (run s es) (s.injected ++ (map payload_of q ++ fed es)) (backlog (length q) es)
unfolding run step payload_of
lossless_from room s q [] big w fits =
    (map payload_of q, ap (◌++◌ s.injected) (sym (append-nil _)), length-map_payload q)
lossless_from room s q (feeds payload now ∷ es) big w fits =
    let p : Packet = record { seq_num = s.seq; timestamp = 0; payload = payload } in
    let one_more : length (q ++ p ∷ []) ≡ length q + 1 = omega (arith, length-append q (p ∷ [])) in
    let (rest, all, many) =
      lossless_from room (push_payload s payload now) (q ++ p ∷ []) es big
        (push-Waits room s q payload now big fits.0 w) (rw one_more fits.1) in
    (rest, push_due s q payload now (fed es) rest _ all, many ∙ ap (λ n. backlog n es) one_more)
lossless_from room s [] (ticks now ∷ es) big w fits =
    let e = tick_idle s now (omega (arith, w.counts)) in
    subst (λ t. Owes (run t es) (s.injected ++ fed es) (backlog 0 es)) (sym e)
      (lossless_from room s [] es big w fits)
lossless_from room s (p ∷ q) (ticks now ∷ es) big w fits =
    let (e, w') = played-Waits room s p q now w in
    let one_less : suc (length q) - 1 ≡ length q = omega arith in
    let (rest, all, many) = lossless_from room (tick s now) q es big w' (rw (← one_less) fits) in
    (
      rest,
      all
          ∙ ap (λ t. t.injected ++ (map payload_of q ++ fed es)) e
          ∙ append_assoc s.injected (p.payload ∷ []) (map payload_of q ++ fed es),
      many ∙ ap (λ n. backlog n es) (sym one_less),
    )

new_bridge-Waits :
    (cfg : Config) (room : ℕ)
    → (new_bridge cfg).buf.cfg.max_packets_buffered ≡ pos room
    → Waits room (new_bridge cfg) []
unfolding new_bridge new_jitter_buffer find
new_bridge-Waits cfg room e = record {
  holds = record {
    next_word = omega arith;
    found = λ i hi. refl;
    distinct = tt;
    size = refl;
    short = omega arith;
    unprimed = λ _. refl;
  };
  started = inl refl;
  next_push = refl;
  counts = refl;
  capacity = e;
}

-- With a buffer for `room` packets, at most 32768, a bridge into which payloads are only pushed
-- while fewer than `room` of them wait loses, reorders and repeats nothing: after any pushes and
-- ticks, at whatever times, the payloads injected and those that still wait are, in order, the
-- payloads pushed, and every tick that found one waiting has injected one.
pub bridge_lossless :
    (cfg : Config) (room : ℕ) (es : List Event)
    → (new_bridge cfg).buf.cfg.max_packets_buffered ≡ pos room
    → room ≤ 32768
    → Fits room 0 es
    → (rest : List (List ℕ)) × ((run (new_bridge cfg) es).injected ++ rest ≡ fed es)
      × (length rest ≡ backlog 0 es)
unfolding new_bridge
bridge_lossless cfg room es e big fits =
    lossless_from room (new_bridge cfg) [] es big (new_bridge-Waits cfg room e) fits
