-- ===== src/Examples/Media.antt =====
-- Tests of what is carried to and from the vendors and the browsers.
use lang_stream.Prelude.{
  ℕ, ◌<◌, ◌≡◌, refl, ◌⊎◌, true, false, some, List, [], ◌∷◌, ◌++◌, map, arith, length,
}
use lang_stream.Prelude.Bytes.{joined}
use lang_stream.Prelude.Int.{pos}
use lang_stream.Audio.{AudioFrame}
use lang_stream.Alaw.{alaw_to_pcm16}
use lang_stream.Inbound.{new_inbound_buffer}
use lang_stream.Peer.{
  packet, read_failed, context_done, inbound_bridge, new_peer, Message, offer, candidate, unknown,
  serve,
}
use lang_stream.Peer.Bridges.{buffer_after, inbound_bridge_delivers}
use lang_stream.Peer.Candidates.{candidates_in_order}
use lang_stream.Sarvam.{Clocked, ResponseMessage, sends, handle_message, pcm16_mono_to_wav}
use lang_stream.Sarvam.Wav.{read_wav, wav_of, read_wav-pcm16_mono_to_wav}
use lang_stream.Sarvam.Stamps.{IsClose, samples, transcript_at, push_all, transcript_behind_audio}
use lang_stream.Examples.Voice.{numbers}

read_wav-pcm16_mono_to_wav_example :
    read_wav (pcm16_mono_to_wav (1 ∷ 2 ∷ 3 ∷ 4 ∷ []) (pos 8000))
    ≡ some (wav_of (1 ∷ 2 ∷ 3 ∷ 4 ∷ []) 8000)
read_wav-pcm16_mono_to_wav_example =
    read_wav-pcm16_mono_to_wav (1 ∷ 2 ∷ 3 ∷ 4 ∷ []) 8000 (omega arith) (omega arith)

abbrev clocked : Clocked
clocked = record { lang = "hi"; total_ms = pos 0; gen = 1; closed = false }

abbrev spoken_frame : AudioFrame
spoken_frame = record { pcm = 1 ∷ 2 ∷ 3 ∷ 4 ∷ []; sample_rate = pos 100; timestamp_ms = pos 0 }

abbrev answer_of : ResponseMessage ℕ
answer_of = record {
  kind = "data";
  transcript = "namaste";
  audio_duration_sec = 2;
  error = "";
  message = "";
}

transcript_behind_audio_example :
    (ms : ℕ) × IsClose 100 1 2 ms
    × (handle_message numbers (push_all clocked (spoken_frame ∷ [])) 1 (some answer_of)
        ≡ sends (transcript_at numbers "hi" (pos ms) answer_of))
unfolding samples
transcript_behind_audio_example =
    transcript_behind_audio numbers 99 clocked (spoken_frame ∷ []) answer_of refl refl (refl, tt)
      (refl, refl, refl, refl)

abbrev talk : List (Message ℕ)
talk = candidate (some 5) ∷ offer true (λ c. true) true ∷ unknown ∷ candidate (some 6) ∷ []

candidates_in_order_example :
    let out = serve new_peer talk in
    (out.handed ++ out.peer.pending_ice ≡ 5 ∷ 6 ∷ [])
    × (out.peer.remote_set ≡ true → out.handed ≡ 5 ∷ 6 ∷ [])
candidates_in_order_example = candidates_in_order talk (tt, (((λ c. refl), refl), (tt, (tt, tt))))

abbrev packets : List (List ℕ)
packets = (213 ∷ 85 ∷ []) ∷ [] ∷ (7 ∷ []) ∷ []

inbound_bridge_delivers_example :
    let b = new_inbound_buffer 400000000 in
    let left = buffer_after b packets in
    (joined (inbound_bridge b (map packet packets ++ (read_failed ∷ [])))
      ≡ alaw_to_pcm16 (joined packets))
    × (joined (inbound_bridge b (map packet packets ++ (context_done ∷ []))) ++ left.buffered
        ≡ alaw_to_pcm16 (joined packets))
    × ((length left.buffered < b.target_bytes) ⊎ (left.buffered ≡ []))
inbound_bridge_delivers_example = inbound_bridge_delivers 400000000 packets []
