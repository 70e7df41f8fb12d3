-- ===== src/Pacer.antt =====
-- pkg/rtp/duplex.go: the bridge between the synthesis stage and playback. `feedTTSPacer` cuts the
-- stream of chunks at frame boundaries and pushes the pieces into a jitter buffer, and `runTTSPacer`
-- takes at most one piece out on each tick. Both run at once; each push and each tick is one step.
pub mod Frames
pub mod Lossless
use lang_stream.Prelude.{
  ℕ, zero, suc, ◌+◌, ◌-◌, ◌*◌, ◌%◌, Bool, true, false, not, ◌&&◌, Option, none, some, List, [], ◌∷◌,
  ◌++◌, ltb, ◌==◌, if◌then◌else◌, length, take, drop,
}
use lang_stream.Prelude.Int.{ℤ, pos, leb_ℤ}
use lang_stream.Audio.{AudioChunk}
use lang_stream.Jitter.{
  JitterBuffer, Config, Packet, PullStatus, push, pull, new_jitter_buffer, with_defaults, next_of,
}

-- 40 ms and 20 ms.
abbrev pub default_tts_pacing_target_delay : ℕ
default_tts_pacing_target_delay = 40_000_000

abbrev pub default_tts_pacing_interval : ℕ
default_tts_pacing_interval = 20_000_000

unfoldable pub tts_pacing_config : Config → Config
tts_pacing_config c = with_defaults (record c {
  target_delay =
      if leb_ℤ c.target_delay (pos 0) then pos default_tts_pacing_target_delay else c.target_delay;
  packet_interval =
      if leb_ℤ c.packet_interval (pos 0)
      then pos default_tts_pacing_interval
      else c.packet_interval;
})

-- 160 samples of two bytes.
abbrev pub tts_frame_bytes : ℕ
tts_frame_bytes = 160 * 2

-- The payloads that `push(payload)` lets through to the buffer: an empty one is skipped.
unfoldable pub pushed_payload : List ℕ → List (List ℕ)
pushed_payload [] = []
pushed_payload (x ∷ xs) = (x ∷ xs) ∷ []

-- The length of the whole frames at the front of a buffer.
abbrev pub aligned : List ℕ → ℕ
aligned buf = length buf - length buf % tts_frame_bytes

-- `if aligned > 0 { push(buf[:aligned]) }`, `if aligned < len(buf) { push(buf[aligned:]) }`, and the
-- carry for the next chunk.
unfoldable pub whole_frames : List ℕ → List (List ℕ)
whole_frames buf = if ltb 0 (aligned buf) then pushed_payload (take (aligned buf) buf) else []

unfoldable pub partial_frame : List ℕ → List (List ℕ)
partial_frame buf =
    if ltb (aligned buf) (length buf) then pushed_payload (drop (aligned buf) buf) else []

unfoldable pub leftover : List ℕ → List ℕ
leftover buf = if ltb (aligned buf) (length buf) then drop (aligned buf) buf else []

-- One chunk: the carry and the payloads pushed.
unfoldable pub feed_chunk : List ℕ → AudioChunk → List ℕ × List (List ℕ)
feed_chunk carry chunk =
    if (length chunk.pcm == 0) && not chunk.is_final
    then (carry, [])
    else (let buf = carry ++ chunk.pcm in
        if chunk.is_final
        then ([], whole_frames buf ++ partial_frame buf)
        else (leftover buf, whole_frames buf))

-- The chunks that arrive while the channel is open.
unfoldable pub feed_chunks : List ℕ → List AudioChunk → List ℕ × List (List ℕ)
feed_chunks carry [] = (carry, [])
feed_chunks carry (c ∷ cs) =
    let (carry', out) = feed_chunk carry c in
    let (carry'', outs) = feed_chunks carry' cs in (carry'', out ++ outs)

-- All payloads of a stream whose channel is closed after its last chunk.
unfoldable pub feed_tts_pacer : List AudioChunk → List (List ℕ)
unfolding feed_chunks
feed_tts_pacer chunks = let (carry, out) = feed_chunks [] chunks in out ++ pushed_payload carry

-- The two goroutines of one leg: the pacer that they share, the sequence number of the feeding one,
-- the count and the payloads injected of the playing one.
pub record Bridge : Type 0 where
  pub buf : JitterBuffer
  pub pushed : ℕ
  pub seq : ℕ
  pub consumed : ℕ
  pub injected : List (List ℕ)

unfoldable pub new_bridge : Config → Bridge
unfolding tts_pacing_config
new_bridge cfg = record {
  buf = new_jitter_buffer (tts_pacing_config cfg);
  pushed = 0;
  seq = 0;
  consumed = 0;
  injected = [];
}

-- `push` of a payload that is not empty. The packet's timestamp stays 0.
unfoldable pub push_payload : Bridge → List ℕ → ℤ → Bridge
push_payload s payload now = record s {
  buf = (push s.buf (record { seq_num = s.seq; timestamp = 0; payload = payload }) now).0;
  pushed = s.pushed + 1;
  seq = next_of s.seq;
}

payload_of : Option Packet → List ℕ
payload_of none = []
payload_of (some pkt) = pkt.payload

-- What the loop does with the result of a `Pull`: a number that is lost or played is consumed, and
-- what is played is injected.
resolve : Bridge → JitterBuffer → Option Packet → PullStatus → Bridge
unfolding payload_of
resolve s b pkt PullStatus.pull_lost = record s { buf = b; consumed = s.consumed + 1 }
resolve s b pkt PullStatus.pull_ok = record s {
  buf = b;
  consumed = s.consumed + 1;
  injected = s.injected ++ (payload_of pkt ∷ []);
}
resolve s b pkt _ = record s { buf = b }

abbrev is_lost : PullStatus → Bool
is_lost PullStatus.pull_lost = true
is_lost _ = false

-- The loop of one tick, on fuel: it goes on after a lost number only, and each round consumes one.
unfoldable pub tick_loop : ℕ → Bridge → ℤ → Bridge
unfolding resolve
tick_loop zero s now = s
tick_loop (suc fuel) s now =
    let (b, pkt, status) = pull s.buf now in
    let s' = resolve s b pkt status in
    let rest = tick_loop fuel s' now in
    if ltb s.consumed s.pushed then (if is_lost status then rest else s') else s

-- Fuel for every number that is pushed and not consumed.
unfoldable pub tick : Bridge → ℤ → Bridge
unfolding tick_loop
tick s now = tick_loop (s.pushed - s.consumed) s now
