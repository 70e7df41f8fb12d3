-- ===== src/Peer/Candidates.antt =====
-- The ICE candidates that a browser sends to pkg/webrtcgw/signaling.go, through the buffer of
-- pkg/webrtcgw/peer.go.
use lang_stream.Prelude.{
  All, ◌≡◌, refl, sym, ap, ◌∙◌, inl, inr, Bool, Bool-cases, true, false, none, some, List, [], ◌∷◌,
  ◌++◌, arith,
}
use mathlib.Core.List.{append_assoc, append-nil}
use lang_stream.Peer.{
  Peer, new_peer, apply_pending, handle_offer, add_ice_candidate, Message, offer, candidate,
  unknown, Handled, handle, serve,
}

module _ {Candidate : Type 0} where
  -- The peer connection takes every candidate, and the answer can be written.
  abbrev pub IsFine : Message Candidate → Type 0
  IsFine (offer described accepts written) = ((c : Candidate) → accepts c ≡ true) × (written ≡ true)
  IsFine _ = Unit

  abbrev pub candidates_in : List (Message Candidate) → List Candidate
  candidates_in [] = []
  candidates_in (candidate (some c) ∷ ms) = c ∷ candidates_in ms
  candidates_in (_ ∷ ms) = candidates_in ms

  -- Nothing waits once the remote description is set.
  abbrev pub IsFlushed : Peer Candidate → Type 0
  IsFlushed p = p.remote_set ≡ true → p.pending_ice ≡ []

  apply_pending_all :
      (accepts : Candidate → Bool) (cs : List Candidate)
      → ((c : Candidate) → accepts c ≡ true)
      → (apply_pending accepts cs).0 ≡ cs
  unfolding apply_pending
  apply_pending_all accepts [] all = refl
  apply_pending_all accepts (c ∷ cs) all =
      rw (all c) (ap (◌∷◌ c) (apply_pending_all accepts cs all))

  -- What one message adds to the candidates seen.
  record Adds (p : Peer Candidate) (cs : List Candidate) (out : Handled Candidate) : Type 0 where
    order : out.handed ++ out.peer.pending_ice ≡ p.pending_ice ++ cs
    flushed : IsFlushed out.peer

  handle-Adds :
      (p : Peer Candidate) (m : Message Candidate)
      → IsFine m
      → IsFlushed p
      → Adds p (candidates_in (m ∷ [])) (handle p m)
  unfolding handle handle_offer add_ice_candidate
  handle-Adds p (offer false accepts written) fine f = record {
    order = sym (append-nil p.pending_ice);
    flushed = f;
  }
  handle-Adds p (offer true accepts written) fine f = record {
    order = ap (λ xs. xs ++ []) (apply_pending_all accepts p.pending_ice fine.0);
    flushed = λ _. refl;
  }
  handle-Adds p (candidate none) fine f = record {
    order = sym (append-nil p.pending_ice);
    flushed = f;
  }
  handle-Adds p (candidate (some c)) fine f = elim (Bool-cases p.remote_set) [
    | inl set ↦ rw set (record { order = rw (f set) refl; flushed = λ _. f set })
    | inr unset ↦ rw unset (record { order = refl; flushed = λ e. cc })
  ]
  handle-Adds p unknown fine f = record { order = sym (append-nil p.pending_ice); flushed = f }

  goes_on_fine :
      (p : Peer Candidate) (m : Message Candidate) → IsFine m → (handle p m).goes_on ≡ true
  unfolding handle
  goes_on_fine p (offer described accepts written) fine = ground (arith, fine.1)
  goes_on_fine p (candidate none) fine = refl
  goes_on_fine p (candidate (some c)) fine = refl
  goes_on_fine p unknown fine = refl

  candidates_in-cons :
      (m : Message Candidate) (ms : List (Message Candidate))
      → candidates_in (m ∷ ms) ≡ candidates_in (m ∷ []) ++ candidates_in ms
  candidates_in-cons (offer described accepts written) ms = refl
  candidates_in-cons (candidate none) ms = refl
  candidates_in-cons (candidate (some c)) ms = refl
  candidates_in-cons unknown ms = refl

  serve-Adds :
      (p : Peer Candidate) (ms : List (Message Candidate))
      → All IsFine ms
      → IsFlushed p
      → Adds p (candidates_in ms) (serve p ms)
  unfolding serve
  serve-Adds p [] fine f = record { order = sym (append-nil p.pending_ice); flushed = f }
  serve-Adds p (m ∷ ms) fine f =
      let now = handle-Adds p m fine.0 f in
      let later = serve-Adds (handle p m).peer ms fine.1 now.flushed in
      rw (goes_on_fine p m fine.0) (record {
        order =
            append_assoc (handle p m).handed (serve (handle p m).peer ms).handed _
            ∙ ap (◌++◌ (handle p m).handed) later.order
            ∙ sym (append_assoc (handle p m).handed (handle p m).peer.pending_ice _)
            ∙ ap (λ xs. xs ++ candidates_in ms) now.order
            ∙ append_assoc p.pending_ice (candidates_in (m ∷ [])) (candidates_in ms)
            ∙ ap (◌++◌ p.pending_ice) (sym (candidates_in-cons m ms));
        flushed = later.flushed;
      })

  -- Whatever offers, candidates and other messages a browser sends in whatever order, as long as the
  -- peer connection refuses no candidate and answers can be written: the candidates handed to the peer
  -- connection, followed by those still waiting, are those sent, in order and each once; and none waits
  -- once an offer has been described.
  pub candidates_in_order :
      (ms : List (Message Candidate))
      → All IsFine ms
      → let out = serve new_peer ms in
        (out.handed ++ out.peer.pending_ice ≡ candidates_in ms)
        × (out.peer.remote_set ≡ true → out.handed ≡ candidates_in ms)
  unfolding new_peer
  candidates_in_order ms fine =
      let added = serve-Adds new_peer ms fine (λ e. refl) in
      (
        added.order,
        λ set.
            sym (append-nil (serve new_peer ms).handed)
            ∙ ap (◌++◌ ((serve new_peer ms).handed)) (sym (added.flushed set))
            ∙ added.order,
      )
