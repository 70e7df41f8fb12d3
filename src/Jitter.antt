-- ===== src/Jitter.antt =====
-- pkg/rtp/jitter.go: the fixed-delay jitter buffer. Sequence numbers are uint16, numbers below 65536
-- that wrap. Times and durations are nanoseconds; the code's int64 has room for 292 years of them,
-- and they are not wrapped here. The map `buffered` holds each packet under its own sequence number,
-- and is a list of packets.
pub mod Seq
pub mod Buffered
pub mod Deadline
pub mod Invariant
pub mod Run
pub mod Accounts
pub mod Capacity
pub mod Fifo
use Prim.Native.Nat.{ℕ}
use lang_stream.Prelude.{
  zero, suc, ◌+◌, ◌-◌, ◌*◌, ◌%◌, ◌≤◌, ◌<◌, ◌≡◌, Bool, true, false, not, Option, none, some, List,
  [], ◌∷◌, arith, ltb, leb, ◌==◌, if◌then◌else◌, length,
}
use lang_stream.Prelude.Int.{ℤ, pos, negsuc, pos_part, leb_ℤ, ltb_ℤ, ◌+ℤ◌, ◌*ℤ◌}
use lang_stream.Prelude.Words.{int16}

abbrev pub default_target_delay : ℕ
default_target_delay = 60_000_000

abbrev pub default_packet_interval : ℕ
default_packet_interval = 20_000_000

abbrev pub default_max_packets_buffered : ℕ
default_max_packets_buffered = 200

pub record Packet : Type 0 where
  pub seq_num : ℕ
  pub timestamp : ℕ
  pub payload : List ℕ

-- A configuration as the caller gives it, and as `withDefaults` leaves it: positive throughout.
pub record Config : Type 0 where
  pub target_delay : ℤ
  pub packet_interval : ℤ
  pub max_packets_buffered : ℤ

unfoldable pub with_defaults : Config → Config
with_defaults cfg = record {
  target_delay =
      if leb_ℤ cfg.target_delay (pos 0) then pos default_target_delay else cfg.target_delay;
  packet_interval =
      if leb_ℤ cfg.packet_interval (pos 0)
      then pos default_packet_interval
      else cfg.packet_interval;
  max_packets_buffered =
      if leb_ℤ cfg.max_packets_buffered (pos 0)
      then pos default_max_packets_buffered
      else cfg.max_packets_buffered;
}

pub data PushStatus : Type 0 where
  push_accepted push_duplicate push_late push_evicted_capacity : PushStatus

pub data PullStatus : Type 0 where
  pull_empty pull_ok pull_waiting pull_lost : PullStatus

-- The counters are int64 in the code, and are not wrapped here.
pub record Stats : Type 0 where
  pub received : ℕ
  pub duplicates : ℕ
  pub late : ℕ
  pub evicted_for_capacity : ℕ
  pub lost : ℕ
  pub currently_buffered : ℕ

pub record JitterBuffer : Type 0 where
  pub cfg : Config
  pub initialized : Bool
  pub base_seq : ℕ
  pub base_arrival : ℤ
  pub next_seq : ℕ
  pub buffered : List Packet
  pub stats : Stats

unfoldable pub new_jitter_buffer : Config → JitterBuffer
unfolding with_defaults
new_jitter_buffer cfg = record {
  cfg = with_defaults cfg;
  initialized = false;
  base_seq = 0;
  base_arrival = pos 0;
  next_seq = 0;
  buffered = [];
  stats = record {
    received = 0;
    duplicates = 0;
    late = 0;
    evicted_for_capacity = 0;
    lost = 0;
    currently_buffered = 0;
  };
}

-- int32(int16(a - b)), the difference taken in uint16.
unfoldable pub seq_delta : ℕ → ℕ → ℤ
unfolding int16
seq_delta a b = int16 ((a + 65536 - b) % 65536)

-- b.nextSeq++ in uint16.
abbrev pub next_of : ℕ → ℕ
next_of seq = (seq + 1) % 65536

unfoldable pub deadline_locked : JitterBuffer → ℕ → ℤ
deadline_locked b seq =
    let steps = seq_delta seq b.base_seq in
    b.base_arrival +ℤ (b.cfg.target_delay +ℤ steps *ℤ b.cfg.packet_interval)

-- Lookup, existence and deletion in the map.
unfoldable pub find : ℕ → List Packet → Option Packet
find seq [] = none
find seq (p ∷ ps) = if p.seq_num == seq then some p else find seq ps

abbrev pub is_some {ℓ} : {A : Type ℓ} → Option A → Bool
is_some none = false
is_some (some _) = true

unfoldable pub delete : ℕ → List Packet → List Packet
delete seq [] = []
delete seq (p ∷ ps) = if p.seq_num == seq then delete seq ps else p ∷ delete seq ps

-- The loop over the map that looks for the packet furthest in the future, from the pair
-- (furthestSeq, furthestDist) on. `next` is `b.nextSeq`.
unfoldable pub furthest : ℕ → List Packet → ℕ × ℤ → ℕ × ℤ
furthest next [] (seq, dist) = (seq, dist)
furthest next (p ∷ ps) (seq, dist) =
    let d = seq_delta p.seq_num next in
    furthest next ps (if ltb_ℤ dist d then (p.seq_num, d) else (seq, dist))

store : JitterBuffer → Packet → JitterBuffer × PushStatus
store b pkt = (
  record b {
    buffered = pkt ∷ b.buffered;
    stats = record (b.stats) { received = b.stats.received + 1 };
  },
  push_accepted,
)

evicted : JitterBuffer → JitterBuffer
evicted b = record b {
  stats = record (b.stats) { evicted_for_capacity = b.stats.evicted_for_capacity + 1 };
}

-- The capacity check: `victim` is the sequence number that the loop has found.
make_room : JitterBuffer → Packet → ℕ → JitterBuffer × PushStatus
unfolding store evicted
make_room b pkt victim =
    if victim == pkt.seq_num
    then (evicted b, push_evicted_capacity)
    else store (evicted (record b { buffered = delete victim b.buffered })) pkt

-- The first packet sets the base.
unfoldable pub primed : JitterBuffer → Packet → ℤ → JitterBuffer
primed b pkt arrival = if b.initialized then b else record b {
  initialized = true;
  base_seq = pkt.seq_num;
  base_arrival = arrival;
  next_seq = pkt.seq_num;
}

-- Push once the base is set.
unfoldable pub offer : JitterBuffer → Packet → JitterBuffer × PushStatus
unfolding make_room store evicted
offer b pkt =
    let dist = seq_delta pkt.seq_num b.next_seq in
    if ltb_ℤ dist (pos 0)
    then (record b { stats = record (b.stats) { late = b.stats.late + 1 } }, push_late)
    else (if is_some (find pkt.seq_num b.buffered)
        then (
          record b { stats = record (b.stats) { duplicates = b.stats.duplicates + 1 } },
          push_duplicate,
        )
        else (if leb_ℤ b.cfg.max_packets_buffered (pos (length b.buffered))
            then make_room b pkt (furthest b.next_seq b.buffered (pkt.seq_num, dist)).0
            else store b pkt))

unfoldable pub push : JitterBuffer → Packet → ℤ → JitterBuffer × PushStatus
unfolding primed offer
push b pkt arrival = offer (primed b pkt arrival) pkt

-- `Packet{}` beside a status other than `PullOK` is `none` here.
unfoldable pub pull : JitterBuffer → ℤ → JitterBuffer × Option Packet × PullStatus
pull b now =
    if b.initialized
    then elim (find b.next_seq b.buffered) [
      | some pkt ↦ (
        record b { buffered = delete b.next_seq b.buffered; next_seq = next_of b.next_seq },
        some pkt,
        pull_ok,
      )
      | none ↦ if ltb_ℤ now (deadline_locked b b.next_seq) then (b, none, pull_waiting) else (
        record b {
          next_seq = next_of b.next_seq;
          stats = record (b.stats) { lost = b.stats.lost + 1 };
        },
        none,
        pull_lost,
      )
    ]
    else (b, none, pull_empty)

unfoldable pub snapshot : JitterBuffer → Stats
snapshot b = record (b.stats) { currently_buffered = length b.buffered }
