-- ===== src/Peer/Bridges.antt =====
-- The audio that pkg/webrtcgw/peer.go carries between a browser and the session.
use lang_stream.Prelude.{
  ℕ, ◌<◌, ◌≡◌, refl, sym, ap, subst, ◌∙◌, ◌⊎◌, inr, List, [], ◌∷◌, ◌++◌, map, length,
}
use mathlib.Core.List.{append_assoc, append-nil}
use lang_stream.Prelude.Bytes.{joined, joined-append}
use lang_stream.Alaw.{alaw_to_pcm16}
use lang_stream.Inbound.{InboundBuffer, new_inbound_buffer, add}
use lang_stream.Inbound.Delivery.{add-Moved, flush_delivers}
use lang_stream.Peer.{TrackEvent, packet, read_failed, context_done, inbound_bridge}

alaw_to_pcm16-append : (a b : List ℕ) → alaw_to_pcm16 (a ++ b) ≡ alaw_to_pcm16 a ++ alaw_to_pcm16 b
unfolding alaw_to_pcm16
alaw_to_pcm16-append [] b = refl
alaw_to_pcm16-append (x ∷ a) b = rw (alaw_to_pcm16-append a b)

-- The buffer behind some packets.
pub buffer_after : InboundBuffer → List (List ℕ) → InboundBuffer
buffer_after b [] = b
buffer_after b ([] ∷ packets) = buffer_after b packets
buffer_after b ((x ∷ p) ∷ packets) = buffer_after (add b (alaw_to_pcm16 (x ∷ p))).0 packets

bridge_step :
    (b : InboundBuffer) (x : ℕ) (p : List ℕ) (later : List (List ℕ)) (tail : List ℕ)
    (packets : List (List ℕ))
    → let added = add b (alaw_to_pcm16 (x ∷ p)) in
      joined later ++ tail ≡ added.0.buffered ++ alaw_to_pcm16 (joined packets)
      → joined (added.1 ++ later) ++ tail ≡ b.buffered ++ alaw_to_pcm16 (joined ((x ∷ p) ∷ packets))
bridge_step b x p later tail packets ih =
    let pcm = alaw_to_pcm16 (x ∷ p) in
    let out = add b pcm in
    ap (λ xs. xs ++ tail) (joined-append out.1 later)
    ∙ append_assoc (joined out.1) (joined later) tail
    ∙ ap (◌++◌ (joined out.1)) ih
    ∙ sym (append_assoc (joined out.1) out.0.buffered _)
    ∙ ap (λ xs. xs ++ alaw_to_pcm16 (joined packets)) (add-Moved b pcm).bytes
    ∙ append_assoc b.buffered pcm (alaw_to_pcm16 (joined packets))
    ∙ ap (◌++◌ (b.buffered)) (sym (alaw_to_pcm16-append (x ∷ p) (joined packets)))

-- What is in the end of the session and what stays in the buffer.
ended_with :
    (b : InboundBuffer) (packets : List (List ℕ)) (ended : TrackEvent) (rest : List TrackEvent)
    (left : InboundBuffer → List ℕ)
    → ((b : InboundBuffer) → joined (inbound_bridge b (ended ∷ rest)) ++ left b ≡ b.buffered)
    → joined (inbound_bridge b (map packet packets ++ (ended ∷ rest)))
        ++ left (buffer_after b packets)
      ≡ b.buffered ++ alaw_to_pcm16 (joined packets)
unfolding inbound_bridge alaw_to_pcm16 buffer_after
ended_with b [] ended rest left h = h b ∙ sym (append-nil b.buffered)
ended_with b ([] ∷ packets) ended rest left h = ended_with b packets ended rest left h
ended_with b ((x ∷ p) ∷ packets) ended rest left h =
    let later = (add b (alaw_to_pcm16 (x ∷ p))).0 in
    bridge_step b x p (inbound_bridge later (map packet packets ++ (ended ∷ rest)))
      (left (buffer_after later packets)) packets (ended_with later packets ended rest left h)

failed_left :
    (b : InboundBuffer) (rest : List TrackEvent)
    → joined (inbound_bridge b (read_failed ∷ rest)) ++ [] ≡ b.buffered
unfolding inbound_bridge
failed_left b rest = append-nil _ ∙ (flush_delivers b).0

done_left :
    (b : InboundBuffer) (rest : List TrackEvent)
    → joined (inbound_bridge b (context_done ∷ rest)) ++ b.buffered ≡ b.buffered
unfolding inbound_bridge
done_left b rest = refl

abbrev IsShort : InboundBuffer → Type 0
IsShort b = (length b.buffered < b.target_bytes) ⊎ (b.buffered ≡ [])

buffer_after-IsShort :
    (b : InboundBuffer) (packets : List (List ℕ))
    → IsShort b
    → IsShort (buffer_after b packets) × ((buffer_after b packets).target_bytes ≡ b.target_bytes)
unfolding buffer_after
buffer_after-IsShort b [] s = (s, refl)
buffer_after-IsShort b ([] ∷ packets) s = buffer_after-IsShort b packets s
buffer_after-IsShort b ((x ∷ p) ∷ packets) s =
    let moved = add-Moved b (alaw_to_pcm16 (x ∷ p)) in
    let added = add b (alaw_to_pcm16 (x ∷ p)) in
    let rest = buffer_after-IsShort added.0 packets (rw moved.target moved.short) in
    (rest.0, rest.1 ∙ moved.target)

-- Whatever packets a browser's track brings: when a read fails at its end, the session has been pushed
-- exactly the decoded samples of all packets, in order; when the context ends instead, it lacks the last of
-- them, fewer bytes than the buffer's target, which are dropped.
pub inbound_bridge_delivers :
    (duration : ℕ) (packets : List (List ℕ)) (rest : List TrackEvent)
    → let b = new_inbound_buffer duration in
      let left = buffer_after b packets in
      (joined (inbound_bridge b (map packet packets ++ (read_failed ∷ rest)))
        ≡ alaw_to_pcm16 (joined packets))
      × (joined (inbound_bridge b (map packet packets ++ (context_done ∷ rest))) ++ left.buffered
          ≡ alaw_to_pcm16 (joined packets))
      × ((length left.buffered < b.target_bytes) ⊎ (left.buffered ≡ []))
unfolding new_inbound_buffer
inbound_bridge_delivers duration packets rest =
    let b = new_inbound_buffer duration in
    let left = buffer_after b packets in
    let short = buffer_after-IsShort b packets (inr refl) in
    (
      sym (append-nil _)
          ∙ ended_with b packets read_failed rest (λ _. []) (λ c. failed_left c rest),
      ended_with b packets context_done rest (λ c. c.buffered) (λ c. done_left c rest),
      subst (λ n. (length left.buffered < n) ⊎ (left.buffered ≡ [])) short.1 short.0,
    )
