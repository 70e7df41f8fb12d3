-- ===== src/Peer.antt =====
-- pkg/webrtcgw/peer.go and the message loop of pkg/webrtcgw/signaling.go: one browser's connection. The
-- peer connection of pion/webrtc is the environment: which descriptions and candidates it takes is an
-- argument. A candidate is a value of any type.
use lang_stream.Prelude.{
  drop, ℕ, zero, suc, ◌+◌, ◌-◌, ◌*◌, ◌/◌, ◌%◌, ◌^◌, ◌≤◌, ◌<◌, ◌≡◌, refl, sym, ap, ap₂, subst, ◌∙◌,
  ◌≢◌, ◌↔◌, ◌⊎◌, inl, inr, Bool, Bool-cases, Option-cases, true, false, not, ◌&&◌, ◌||◌, Option,
  none, some, List, [], ◌∷◌, ◌++◌, map, arith, ltb, leb, ◌==◌, if◌then◌else◌, if_cases, length,
  take, ==_iff,
}
use lang_stream.Audio.{AudioChunk}
use lang_stream.Alaw.{alaw_to_pcm16, pcm16_to_alaw}
use lang_stream.Inbound.{InboundBuffer, add, flush, sample_rate}
pub mod Bridges
pub mod Samples
pub mod Candidates

-- What the goroutine of startInboundBridge meets: a packet with its payload, an error of ReadRTP (the
-- end of the track too), or the end of the context, seen before a read.
pub data TrackEvent : Type 0 where
  packet : List ℕ → TrackEvent
  read_failed : TrackEvent
  context_done : TrackEvent

-- The PCM of the frames that are pushed into the session. An error of a push is reported and changes
-- nothing.
unfoldable pub inbound_bridge : InboundBuffer → List TrackEvent → List (List ℕ)
inbound_bridge b [] = []
inbound_bridge b (packet [] ∷ rest) = inbound_bridge b rest
inbound_bridge b (packet (x ∷ payload) ∷ rest) =
    let added = add b (alaw_to_pcm16 (x ∷ payload)) in added.1 ++ inbound_bridge added.0 rest
inbound_bridge b (read_failed ∷ rest) = (flush b).1
inbound_bridge b (context_done ∷ rest) = []

-- The PCM bytes of 20 ms.
abbrev pub bytes_per_frame : ℕ
bytes_per_frame = sample_rate * 2 / 1000 * 20

-- The loop over one chunk: pieces of 20 ms, the last one shorter. The fuel is the length of the chunk.
unfoldable pub frames : ℕ → List ℕ → List (List ℕ)
frames fuel [] = []
frames zero (x ∷ pcm) = []
frames (suc fuel) (x ∷ pcm) =
    take bytes_per_frame (x ∷ pcm) ∷ frames fuel (drop bytes_per_frame (x ∷ pcm))

-- The samples that are written for a chunk.
unfoldable pub samples_of : AudioChunk → List (List ℕ)
unfolding frames
samples_of chunk = map pcm16_to_alaw (frames (length chunk.pcm) chunk.pcm)

unfoldable pub all_samples : List AudioChunk → List (List ℕ)
all_samples [] = []
all_samples (c ∷ cs) = samples_of c ++ all_samples cs

-- startOutboundBridge: the samples written for the chunks of the channel, up to the write that fails, if
-- one does, or the end of the context.
unfoldable pub outbound_bridge : List AudioChunk → (cut : Option ℕ) → List (List ℕ)
outbound_bridge chunks none = all_samples chunks
outbound_bridge chunks (some n) = take n (all_samples chunks)

pub record Peer (C : Type 0) : Type 0 where
  pub pending_ice : List C
  pub remote_set : Bool

module _ {Candidate : Type 0} where
  unfoldable pub new_peer : Peer Candidate
  new_peer = record { pending_ice = []; remote_set = false }

  -- Candidates are handed to the peer connection until it refuses one. Those handed on, and whether
  -- it took all.
  unfoldable pub apply_pending :
      (accepts : Candidate → Bool) → List Candidate → List Candidate × Bool
  apply_pending accepts [] = ([], true)
  apply_pending accepts (c ∷ cs) =
      let (handed, ok) = apply_pending accepts cs in
      if accepts c then (c ∷ handed, ok) else (c ∷ [], false)

  -- The peer, the candidates handed on, and whether there is an answer. `described` says that the three
  -- descriptions were taken.
  unfoldable pub handle_offer :
      (described : Bool)
      → (accepts : Candidate → Bool) → Peer Candidate
      → Peer Candidate × List Candidate × Bool
  unfolding apply_pending
  handle_offer false accepts p = (p, [], false)
  handle_offer true accepts p =
      let applied = apply_pending accepts p.pending_ice in
      (record p { remote_set = true; pending_ice = [] }, applied.0, applied.1)

  -- The peer and the candidates handed on; an error is only logged.
  unfoldable pub add_ice_candidate : Candidate → Peer Candidate → Peer Candidate × List Candidate
  add_ice_candidate c p =
      if p.remote_set then (p, c ∷ []) else (record p { pending_ice = p.pending_ice ++ c ∷ [] }, [])

-- A message of the browser behind "join", with what its handling meets.
pub data Message (C : Type 0) : Type 0 where
  offer : (described : Bool) (accepts : C → Bool) (written : Bool) → Message C
  candidate : Option C → Message C
  unknown : Message C

pub data Reply : Type 0 where
  answer : Reply
  error : Reply

-- What one message does: the peer, the candidates handed on, the replies, and whether the loop goes
-- on.
pub record Handled (C : Type 0) : Type 0 where
  pub peer : Peer C
  pub handed : List C
  pub replies : List Reply
  pub goes_on : Bool

module _ {Candidate : Type 0} where
  unfoldable pub handle : Peer Candidate → Message Candidate → Handled Candidate
  unfolding handle_offer add_ice_candidate
  handle p (offer described accepts written) =
      let (p', handed, answered) = handle_offer described accepts p in
      record {
        peer = p';
        handed = handed;
        replies = if not answered then error ∷ [] else if written then answer ∷ [] else [];
        goes_on = not answered || written;
      }
  handle p (candidate none) = record { peer = p; handed = []; replies = []; goes_on = true }
  handle p (candidate (some c)) =
      let added = add_ice_candidate c p in
      record { peer = added.0; handed = added.1; replies = []; goes_on = true }
  handle p unknown = record { peer = p; handed = []; replies = error ∷ []; goes_on = true }

  -- The loop of SignalingHandler over the messages of a connection.
  unfoldable pub serve : Peer Candidate → List (Message Candidate) → Handled Candidate
  unfolding handle
  serve p [] = record { peer = p; handed = []; replies = []; goes_on = true }
  serve p (m ∷ ms) =
      let now = handle p m in
      let later = serve now.peer ms in
      if now.goes_on
      then record later {
        handed = now.handed ++ later.handed;
        replies = now.replies ++ later.replies;
      }
      else now
