-- ===== src/Serving.antt =====
-- The waits of cmd/langstream: serveDashboard, runServeWithContext, runDuplexWithContext, serveWebRTC.
-- What happens meanwhile is a list: the HTTP server fails, with an error of the type E, or a signal
-- ends the context. A result of `none` is a function that still waits.
pub mod Hidden
use lang_stream.Prelude.{
  ℕ, zero, suc, ◌+◌, ◌-◌, ◌*◌, ◌/◌, ◌%◌, ◌^◌, ◌≤◌, ◌<◌, ◌≡◌, refl, sym, ap, ap₂, subst, ◌∙◌, ◌≢◌,
  ◌↔◌, ◌⊎◌, inl, inr, Bool, Bool-cases, Option-cases, true, false, not, ◌&&◌, ◌||◌, Option, none,
  some, List, [], ◌∷◌, ◌++◌, map, arith, ltb, leb, ◌==◌, if◌then◌else◌, if_cases, length, take,
  ==_iff,
}

pub data Happening (E : Type 0) : Type 0 where
  server_failed : E → Happening E
  signalled : Happening E

module _ {E : Type 0} where
  -- serveDashboard; its result is the error, if any. `shutdown` is what srv.Shutdown returns.
  unfoldable pub serve_dashboard : (shutdown : Option E) → List (Happening E) → Option (Option E)
  serve_dashboard shutdown [] = none
  serve_dashboard shutdown (server_failed err ∷ _) = some (some err)
  serve_dashboard shutdown (signalled ∷ _) = some shutdown

  -- serveWebRTC.
  unfoldable pub serve_webrtc : (shutdown : Option E) → List (Happening E) → Option (Option E)
  serve_webrtc shutdown [] = none
  serve_webrtc shutdown (server_failed err ∷ _) = some (some err)
  serve_webrtc shutdown (signalled ∷ _) = some shutdown

  -- `<-ctx.Done()`.
  unfoldable pub is_signalled : List (Happening E) → Bool
  is_signalled [] = false
  is_signalled (signalled ∷ _) = true
  is_signalled (server_failed _ ∷ hs) = is_signalled hs

  abbrev pub first_error : Option E → Option E → Option E
  first_error none later = later
  first_error (some err) later = some err

  abbrev outcome : Option (Option E) → Option E
  outcome none = none
  outcome (some result) = result

  -- runServeWithContext; `closing` is what sess.Close returns.
  unfoldable pub run_serve_with_context :
      (closing shutdown : Option E) → List (Happening E) → Option (Option E)
  unfolding serve_dashboard is_signalled
  run_serve_with_context closing shutdown hs =
      if is_signalled hs
      then some (first_error closing (outcome (serve_dashboard shutdown hs)))
      else none

  -- runDuplexWithContext with a session that is built: `stopping` is what duplex.Stop returns, and
  -- `late` the error when the dashboard does not shut down in time.
  unfoldable pub run_duplex_with_context :
      (closing stopping shutdown : Option E)
      → (late : E) → (has_dashboard in_time : Bool) → List (Happening E)
      → Option (Option E)
  unfolding serve_dashboard is_signalled
  run_duplex_with_context closing stopping shutdown late has_dashboard in_time hs =
      let dashboard =
        if not has_dashboard
        then none
        else if in_time
        then outcome (serve_dashboard shutdown hs)
        else some late in
      if is_signalled hs then some (first_error closing (first_error stopping dashboard)) else none
