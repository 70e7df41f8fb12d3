-- ===== src/Examples/Legs.antt =====
-- Tests of the legs of a session.
use lang_stream.Fallback.{push, drain, new_leg_state}
use lang_stream.Leg.{SessionConfig, Environment, Leg, draining, BackendError, TtsStream, first_sent}
use lang_stream.Session.{flush_dead_leg_audio, on_tick, on_transcript, low_confidence}
use lang_stream.Session.Heard.{IsLive, transcript_is_told, IsDone, IsTold}
use lang_stream.Session.DeadLeg.{HasRoom, dead_leg_delivers, pushed_bytes}
use Prim.Native.String.{String}
use lang_stream.Prelude.{
  ℕ, ◌≡◌, ◌⊎◌, inl, inr, refl, true, false, none, List, [], ◌∷◌, ◌++◌, arith, subst,
}
use lang_stream.Prelude.Int.{pos}
use lang_stream.Audio.{AudioChunk, Transcript, Chunk}
use lang_stream.Fallback.Passthrough.{bytes_of, frame_bytes}
use lang_stream.Metrics.{new_latency_recorder}
use lang_stream.Session.Run.{Event, pushed, tick, run, heard, step, step_in}
use lang_stream.Session.Degraded.{new_leg}
use lang_stream.Session.Failures.{
  translator_failures_degrade, synthesizer_failures_never_degrade, received,
}
use lang_stream.Examples.Voice.{numbers}

abbrev pub config : SessionConfig ℕ
config = record {
  asr_name = "a";
  translator_name = "t";
  tts_name = "s";
  fallback = record {
    confidence_threshold = 55;
    degrade_tone_enabled = false;
    translate_timeout = pos 6;
    synthesize_timeout = pos 4;
    max_consecutive_failures = pos 2;
    dead_leg_drain_interval = pos 3;
  };
  personas =
      λ lang. record { voice_id = "v"; language = lang; gender = "neutral"; cloned_from = "" };
  src_lang = "hi";
  dst_lang = "en";
  degrade_tone = λ rate. 7 ∷ [];
}

abbrev mild : BackendError
mild = record { fatal = false; circuit_open = false }

abbrev translated : Chunk
translated = record { text = "hello"; source_lang = "hi"; target_lang = "en"; is_final = true }

abbrev pub spoken : AudioChunk
spoken = record { pcm = 1 ∷ 2 ∷ []; sample_rate = pos 8000; is_final = false }

-- Everything works.
abbrev pub works : Environment ℕ
works = record {
  translate = λ text src dst final. inl translated;
  synthesize = λ text persona. inl (first_sent spoken (spoken ∷ []) none);
  passthrough_cut = none;
  asr_ms = 1;
  mt_ms = 2;
  tts_ms = 3;
  total_ms = 6;
}

abbrev pub no_translation : Environment ℕ
no_translation = record works { translate = λ text src dst final. inr mild }

abbrev no_speech : Environment ℕ
no_speech = record works { synthesize = λ text persona. inr mild }

abbrev pub utterance : Transcript ℕ
utterance = record {
  text = "namaste";
  language = "hi";
  is_final = true;
  confidence = 90;
  start_ms = pos 0;
  end_ms = pos 5;
}

abbrev pub leg : Leg ℕ
leg = new_leg numbers "caller" (pos 10)

abbrev dead : Leg ℕ
dead = record {
  mode = draining;
  state = record {
    name = "caller";
    consecutive_failures = 0;
    degraded = true;
    audio = record { frames = []; capacity = 4; utterance_at = none };
  };
  metrics = new_latency_recorder;
}

abbrev failing : List (Transcript ℕ × Environment ℕ)
failing = (utterance, no_translation) ∷ (utterance, no_translation) ∷ []

abbrev mute : List (Transcript ℕ × Environment ℕ)
mute = (utterance, no_speech) ∷ (utterance, no_speech) ∷ (utterance, no_speech) ∷ []

abbrev polls : List (Event ℕ)
polls = pushed (1 ∷ 2 ∷ []) (pos 8000) 1 ∷ tick false works ∷ pushed (3 ∷ []) (pos 8000) 2 ∷ []

translator_failures_degrade_example :
    (run numbers config leg (received numbers failing)).state.degraded ≡ true
unfolding low_confidence
translator_failures_degrade_example =
    translator_failures_degrade numbers config 2 leg failing refl (omega arith) refl
      ((refl, refl, refl), ((refl, refl, refl), tt)) ((mild, refl, refl), ((mild, refl, refl), tt))
      (omega arith)

synthesizer_failures_never_degrade_example :
    (run numbers config leg (received numbers mute)).state.degraded ≡ false
unfolding low_confidence new_leg_state
synthesizer_failures_never_degrade_example =
    synthesizer_failures_never_degrade numbers config 2 leg mute refl (omega arith) refl refl
      ((refl, refl, refl), ((refl, refl, refl), ((refl, refl, refl), tt)))
      (
        (translated, mild, refl, refl, refl, refl),
        (
          (translated, mild, refl, refl, refl, refl),
          ((translated, mild, refl, refl, refl, refl), tt),
        ),
      )

abbrev IsLiveResult : TtsStream ⊎ BackendError → Type 0
IsLiveResult (inl stream) = IsLive stream
IsLiveResult (inr err) = Unit

works-IsLive :
    (text : String) (stream : TtsStream)
    → works.synthesize text (config.personas "en") ≡ inl stream
    → IsLive stream
works-IsLive text stream e = subst IsLiveResult e refl

transcript_is_told_example :
    IsDone numbers config works
      (IsTold numbers config works leg.state utterance)
      (on_transcript numbers config works leg.state leg.metrics utterance)
transcript_is_told_example =
    transcript_is_told numbers config works leg.state leg.metrics utterance refl refl works-IsLive

dead_leg_delivers_example :
    bytes_of (heard numbers config dead polls)
      ++ frame_bytes (run numbers config dead polls).state.audio.frames
    ≡ frame_bytes dead.state.audio.frames ++ pushed_bytes numbers polls
unfolding HasRoom step step_in on_tick flush_dead_leg_audio drain push
dead_leg_delivers_example =
    dead_leg_delivers numbers config dead polls refl refl (tt, ((refl, refl), (tt, tt)))
      (omega arith, (omega arith, (omega arith, tt)))
