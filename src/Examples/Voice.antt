-- ===== src/Examples/Voice.antt =====
-- Tests of the inbound buffer, the pacing bridge, the voice activity tracker and the passthrough.
use lang_stream.Prelude.{
  ℕ, ◌+◌, ◌-◌, ◌*◌, ◌/◌, ◌≡◌, refl, Bool, false, List, [], ◌∷◌, ◌++◌, arith, length, ltb, leb,
}
use lang_stream.Prelude.Int.{pos, pos_part}
use lang_stream.Floats.{Floats}
use lang_stream.Audio.{AudioChunk, AudioFrame}
use lang_stream.Jitter.{Config, new_jitter_buffer}
use lang_stream.Pacer.{new_bridge}
use lang_stream.Pacer.Lossless.{Event, feeds, ticks, run, fed, backlog, bridge_lossless}
use lang_stream.Vad.{UtteranceBoundaryTracker}
use lang_stream.Fallback.Ring.{Push}
use lang_stream.Metrics.Totals.{Call, samples, events, errs}

-- Numbers in place of float64.
abbrev pub numbers : Floats
numbers = record {
  Float = ℕ;
  of_int = pos_part;
  floor = pos;
  ceil = pos;
  log = λ a. a;
  exp = λ a. a;
  sub = λ a b. a - b;
  add = λ a b. a + b;
  mul = λ a b. a * b;
  div = λ a b. a / b;
  sqrt = λ a. a;
  lt = ltb;
  le = leb;
}

abbrev packets : List (List ℕ)
packets = (1 ∷ 2 ∷ 3 ∷ []) ∷ (4 ∷ 5 ∷ []) ∷ (6 ∷ []) ∷ []

abbrev chunk : List ℕ → Bool → AudioChunk
chunk pcm is_final = record { pcm = pcm; sample_rate = pos 8000; is_final = is_final }

abbrev said : List AudioChunk
said = chunk (1 ∷ 2 ∷ 3 ∷ []) false ∷ chunk (4 ∷ []) false ∷ []

abbrev three_packets : Config
three_packets = record {
  target_delay = pos 40;
  packet_interval = pos 20;
  max_packets_buffered = pos 3;
}

abbrev some_events : List Event
some_events =
    feeds (1 ∷ []) (pos 0)
    ∷ feeds (2 ∷ []) (pos 1)
    ∷ ticks (pos 20)
    ∷ feeds (3 ∷ []) (pos 21)
    ∷ ticks (pos 40)
    ∷ []

bridge_lossless_example :
    (rest : List (List ℕ)) × ((run (new_bridge three_packets) some_events).injected ++ rest
      ≡ fed some_events)
    × (length rest ≡ backlog 0 some_events)
unfolding new_bridge new_jitter_buffer
bridge_lossless_example =
    bridge_lossless three_packets 3 some_events refl (omega arith)
      (omega arith, (omega arith, (omega arith, tt)))

abbrev tracker : UtteranceBoundaryTracker numbers
tracker = record { vad = record { threshold = 500 }; silence_hold_ms = pos 2; silence_ms = pos 0 }

abbrev heard : ℕ → AudioFrame
heard hi = record { pcm = 0 ∷ hi ∷ []; sample_rate = pos 1000; timestamp_ms = pos 0 }

abbrev pushes : List Push
pushes =
    ((1 ∷ []), pos 8000, 1)
    ∷ ([], pos 8000, 2)
    ∷ ((2 ∷ []), pos 8000, 3)
    ∷ ((3 ∷ []), pos 8000, 4)
    ∷ []

abbrev some_calls : List (Call ℕ)
some_calls =
    events "tts" "v" ∷ errs "tts" "v" "circuit_open" ∷ samples "mt" 3 ∷ errs "tts" "w" "" ∷ []
