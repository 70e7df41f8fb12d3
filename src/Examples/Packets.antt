-- ===== src/Examples/Packets.antt =====
-- Tests of the A-law codec and of the jitter buffer.
use lang_stream.Prelude.{ℕ, ◌+◌, ◌*◌, ◌≤◌, ◌≡◌, refl, true, List, [], ◌∷◌, arith}
use lang_stream.Prelude.Int.{pos, negsuc, ◌+ℤ◌, ltb_ℤ}
use lang_stream.Alaw.{alaw_encode_sample, alaw_decode_byte}
use lang_stream.Alaw.Codec.{encode-decode, decode-encode_bounds, distance, magnitude_of}
use lang_stream.Jitter.{
  JitterBuffer, Packet, Config, new_jitter_buffer, pull, pull_lost, find, snapshot,
}
use lang_stream.Jitter.Deadline.{wrapped_gives_up}
use lang_stream.Jitter.Run.{Op, pushes, pulls, run, outcomes, outcomes-InOrder, InOrder}
use lang_stream.Jitter.Accounts.{run_accounts, refused, played, pushes_seen, losses}

encode-decode_example : alaw_encode_sample (alaw_decode_byte 0xD5) ≡ 0xD5
encode-decode_example = encode-decode 0xD5 (omega arith)

decode-encode_bounds_example :
    (32 * distance (alaw_decode_byte (alaw_encode_sample (negsuc 999))) (negsuc 999)
      ≤ magnitude_of (negsuc 999) + 256)
    × (ltb_ℤ (alaw_decode_byte (alaw_encode_sample (negsuc 999))) (pos 0)
        ≡ ltb_ℤ (negsuc 999) (pos 0))
decode-encode_bounds_example = decode-encode_bounds (negsuc 999) (omega arith)

abbrev small : Config
small = record { target_delay = pos 60; packet_interval = pos 20; max_packets_buffered = pos 2 }

abbrev packet : ℕ → Packet
packet n = record { seq_num = n; timestamp = 0; payload = n ∷ [] }

abbrev some_ops : List Op
some_ops =
    pushes (packet 65535) (pos 0)
    ∷ pushes (packet 1) (pos 5)
    ∷ pulls (pos 10)
    ∷ pulls (pos 11)
    ∷ pulls (pos 500)
    ∷ pulls (pos 501)
    ∷ []

-- A full buffer that plays 5 next.
abbrev full : JitterBuffer
full = record {
  cfg = small;
  initialized = true;
  base_seq = 5;
  base_arrival = pos 100;
  next_seq = 5;
  buffered = packet 9 ∷ packet 7 ∷ [];
  stats = record {
    received = 2;
    duplicates = 0;
    late = 0;
    evicted_for_capacity = 0;
    lost = 0;
    currently_buffered = 0;
  };
}

-- The same, 32768 numbers after its base and empty.
abbrev half_way : JitterBuffer
half_way = record full { next_seq = 32773; buffered = [] }

wrapped_gives_up_example : (pull half_way (pos 160)).2 ≡ pull_lost
unfolding find ◌+ℤ◌
wrapped_gives_up_example =
    wrapped_gives_up half_way 60 20 32768 (pos 160) refl refl refl (omega arith) (omega arith)
      (omega arith) refl refl (omega arith)

outcomes-InOrder_example : InOrder 5 (outcomes full some_ops)
outcomes-InOrder_example = outcomes-InOrder full some_ops refl

run_accounts_example :
    let b = run (new_jitter_buffer small) some_ops in
    let outs = outcomes (new_jitter_buffer small) some_ops in
    (b.stats.received + refused outs
      ≡ played outs + (snapshot b).currently_buffered + b.stats.evicted_for_capacity)
    × (b.stats.received + b.stats.duplicates + b.stats.late + refused outs ≡ pushes_seen outs)
    × (b.stats.lost ≡ losses outs)
run_accounts_example =
    run_accounts small some_ops (omega arith, (omega arith, (tt, (tt, (tt, (tt, tt))))))
