-- ===== src/Inbound.antt =====
-- pkg/webrtcgw/inbound_buffer.go: the buffer between a browser's RTP packets and the session. The
-- callback `onFull` shows as the list of payloads that it is called with, oldest first.
pub mod Delivery
use lang_stream.Prelude.{ℕ, ◌+◌, ◌*◌, ◌/◌, Bool, List, [], ◌∷◌, ◌++◌, leb, if◌then◌else◌, length}

pub record InboundBuffer : Type 0 where
  pub target_bytes : ℕ
  pub buffered : List ℕ

-- The gateway's rate, and nanoseconds to the millisecond.
abbrev pub sample_rate : ℕ
sample_rate = 8000

abbrev pub inbound_buffer_duration : ℕ
inbound_buffer_duration = 400_000_000

unfoldable pub new_inbound_buffer : ℕ → InboundBuffer
new_inbound_buffer duration = record {
  target_bytes = sample_rate * 2 * (duration / 1_000_000) / 1000;
  buffered = [];
}

unfoldable pub flush : InboundBuffer → InboundBuffer × List (List ℕ)
flush b = elim b.buffered [ [] ↦ (b, []) | x ∷ xs ↦ (record b { buffered = [] }, (x ∷ xs) ∷ []) ]

unfoldable pub add : InboundBuffer → List ℕ → InboundBuffer × List (List ℕ)
unfolding flush
add b pcm =
    let grown = record b { buffered = b.buffered ++ pcm } in
    if leb b.target_bytes (length grown.buffered) then flush grown else (grown, [])

-- The packets of a track, one after the other.
unfoldable pub add_all : InboundBuffer → List (List ℕ) → InboundBuffer × List (List ℕ)
add_all b [] = (b, [])
add_all b (pcm ∷ pcms) =
    let (b', out) = add b pcm in let (b'', outs) = add_all b' pcms in (b'', out ++ outs)
