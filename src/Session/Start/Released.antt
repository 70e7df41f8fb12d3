-- ===== src/Session/Start/Released.antt =====
-- What NewSession of pkg/langstream/session.go leaves behind.
use lang_stream.Prelude.{
  ℕ, ◌+◌, ◌-◌, ◌≡◌, refl, sym, subst, ◌⊎◌, inl, inr, Bool, true, false, Option, none, some, List,
  [], ◌∷◌, arith, if◌then◌else◌, if_cases,
}
use lang_stream.Prelude.Int.{ℤ, pos, ltb_ℤ, leb_ℤ}
use lang_stream.Floats.{Floats}
use lang_stream.Fallback.{FallbackConfig, default_fallback_config, with_defaults}
use lang_stream.Session.Start.{
  Settings, StartError, Effect, opened, not_opened, stream_closed, context_cancelled, Session, made,
  new_session, validate, start_fallback, leg_config, is_untouched, open_streams,
}

-- How many streams are open at the end, of those opened before and by the effects.
unfoldable pub left_open : (open_before : ℕ) → List Effect → ℕ
left_open n [] = n
left_open n (opened _ ∷ es) = left_open (n + 1) es
left_open n (stream_closed ∷ es) = left_open (n - 1) es
left_open n (not_opened _ ∷ es) = left_open n es
left_open n (context_cancelled ∷ es) = left_open n es

unfoldable pub is_cancelled : List Effect → Bool
is_cancelled [] = false
is_cancelled (context_cancelled ∷ es) = true
is_cancelled (_ ∷ es) = is_cancelled es

abbrev pub Releases : {Float : Type 0} → (StartError ⊎ Session Float) × List Effect → Type 0
Releases (inl err, effects) =
    (left_open 0 effects ≡ 0) × ((effects ≡ []) ⊎ (is_cancelled effects ≡ true))
Releases (inr session, effects) = (left_open 0 effects ≡ 2) × (is_cancelled effects ≡ false)

-- The limits of a leg that are counted or timed are positive.
pub record HasLimits {Float : Type 0} (cfg : FallbackConfig Float) : Type 0 where
  pub translate : ltb_ℤ (pos 0) cfg.translate_timeout ≡ true
  pub synthesize : ltb_ℤ (pos 0) cfg.synthesize_timeout ≡ true
  pub failures : ltb_ℤ (pos 0) cfg.max_consecutive_failures ≡ true
  pub interval : ltb_ℤ (pos 0) cfg.dead_leg_drain_interval ≡ true

abbrev positive : ℤ → Bool
positive z = ltb_ℤ (pos 0) z

default_positive :
    (z d : ℤ) → positive d ≡ true → positive (if leb_ℤ z (pos 0) then d else z) ≡ true
default_positive z d h = ground arith

module _ (F : Floats) where
  open F use {Float}

  open_streams-Releases :
      (tone : ℤ → List ℕ) (s : Settings Float) (checked : Option StartError)
      (caller_opens agent_opens : Bool)
      → Releases (open_streams F tone s checked caller_opens agent_opens)
  unfolding open_streams left_open is_cancelled
  open_streams-Releases tone s (some err) c a = (refl, inl refl)
  open_streams-Releases tone s none false a = (refl, inr refl)
  open_streams-Releases tone s none true false = (refl, inr refl)
  open_streams-Releases tone s none true true = (refl, refl)

  -- Whatever the settings are and whichever streams the recognizer opens: when NewSession fails, no
  -- stream is left open and the context that it made, if any, is cancelled; when it succeeds, two
  -- streams are open and the context is not cancelled.
  pub new_session-Releases :
      (tone : ℤ → List ℕ) (s : Settings Float) (caller_opens agent_opens : Bool)
      → Releases (new_session F tone s caller_opens agent_opens)
  unfolding new_session
  new_session-Releases tone s c a = open_streams-Releases tone s (validate s) c a

  with_defaults-HasLimits : (cfg : FallbackConfig Float) → HasLimits (with_defaults F cfg)
  unfolding with_defaults default_fallback_config
  with_defaults-HasLimits cfg = record {
    translate = default_positive cfg.translate_timeout _ refl;
    synthesize = default_positive cfg.synthesize_timeout _ refl;
    failures = default_positive cfg.max_consecutive_failures _ refl;
    interval = default_positive cfg.dead_leg_drain_interval _ refl;
  }

  default-HasLimits : HasLimits (default_fallback_config F)
  unfolding default_fallback_config
  default-HasLimits = record {
    translate = refl;
    synthesize = refl;
    failures = refl;
    interval = refl;
  }

  pub start_fallback-HasLimits : (s : Settings Float) → HasLimits (start_fallback F s)
  unfolding start_fallback
  start_fallback-HasLimits s =
      if_cases HasLimits (is_untouched F s) (default_fallback_config F) (with_defaults F s.fallback)
        (λ _. default-HasLimits) (λ _. with_defaults-HasLimits s.fallback)

  -- A session is made of settings that pass the checks, by both streams.
  open_streams_made :
      (tone : ℤ → List ℕ) (s : Settings Float) (checked : Option StartError)
      (caller_opens agent_opens : Bool) (session : Session Float)
      → (open_streams F tone s checked caller_opens agent_opens).0 ≡ inr session
      → (checked ≡ none) × (session ≡ made F tone s)
  unfolding open_streams
  open_streams_made tone s (some err) c a session e = cc
  open_streams_made tone s none false a session e = cc
  open_streams_made tone s none true false session e = cc
  open_streams_made tone s none true true session e = (refl, cc)

  pub new_session_made :
      (tone : ℤ → List ℕ) (s : Settings Float) (caller_opens agent_opens : Bool)
      (session : Session Float)
      → (new_session F tone s caller_opens agent_opens).0 ≡ inr session
      → (validate s ≡ none) × (session ≡ made F tone s)
  unfolding new_session
  new_session_made tone s c a session e = open_streams_made tone s (validate s) c a session e

  made-HasLimits :
      (tone : ℤ → List ℕ) (s : Settings Float)
      → HasLimits ((made F tone s).caller_config.fallback)
        × HasLimits ((made F tone s).agent_config.fallback)
  unfolding made leg_config
  made-HasLimits tone s = (start_fallback-HasLimits s, start_fallback-HasLimits s)

  -- In every session that NewSession makes, both legs have positive timeouts, limits of failures and
  -- drain intervals, whatever numbers the settings hold.
  pub new_session-HasLimits :
      (tone : ℤ → List ℕ) (s : Settings Float) (caller_opens agent_opens : Bool)
      (session : Session Float)
      → (new_session F tone s caller_opens agent_opens).0 ≡ inr session
      → HasLimits session.caller_config.fallback × HasLimits session.agent_config.fallback
  new_session-HasLimits tone s c a session e =
      subst (λ x. HasLimits x.caller_config.fallback × HasLimits x.agent_config.fallback)
        (sym (new_session_made tone s c a session e).1) (made-HasLimits tone s)
