-- ===== src/Serving/Hidden.antt =====
-- When cmd/langstream tells that its HTTP server has failed.
use lang_stream.Prelude.{◌≡◌, refl, Bool, true, false, Option, none, some, List, [], ◌∷◌, ◌++◌}
use lang_stream.Serving.{
  Happening, server_failed, signalled, serve_dashboard, serve_webrtc, is_signalled,
  run_serve_with_context, run_duplex_with_context,
}

module _ {E : Type 0} where
  signalled_later : (hs rest : List (Happening E)) → is_signalled (hs ++ (signalled ∷ rest)) ≡ true
  unfolding is_signalled
  signalled_later [] rest = refl
  signalled_later (signalled ∷ hs) rest = refl
  signalled_later (server_failed err ∷ hs) rest = signalled_later hs rest

  -- When the HTTP server fails before any signal, `langstream webrtc` returns the error at once; the commands
  -- serve and duplex go on for as long as no signal comes, though their dashboard is gone, and return the
  -- error only then, when nothing else fails.
  pub failure_waits_for_signal :
      (err late : E) (shutdown : Option E) (hs rest : List (Happening E))
      → is_signalled hs ≡ false
      → (serve_webrtc shutdown (server_failed err ∷ hs) ≡ some (some err))
        × ((closing : Option E)
            → run_serve_with_context closing shutdown (server_failed err ∷ hs) ≡ none)
        × (run_serve_with_context none shutdown (server_failed err ∷ hs ++ (signalled ∷ rest))
            ≡ some (some err))
        × ((closing stopping : Option E) (in_time : Bool)
            → run_duplex_with_context closing stopping shutdown late true in_time
                (server_failed err ∷ hs)
              ≡ none)
        × (run_duplex_with_context none none shutdown late true true
              (server_failed err ∷ hs ++ (signalled ∷ rest))
            ≡ some (some err))
  unfolding serve_webrtc run_serve_with_context run_duplex_with_context is_signalled serve_dashboard
  failure_waits_for_signal err late shutdown hs rest e = (
    refl,
    (λ closing. rw e),
    rw (signalled_later hs rest),
    (λ closing stopping in_time. rw e),
    rw (signalled_later hs rest),
  )
