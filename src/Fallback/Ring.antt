-- ===== src/Fallback/Ring.antt =====
-- The raw-audio buffer of pkg/langstream/fallback.go.
use lang_stream.Prelude.{
  ap₂, ℕ, ◌-◌, ◌≤◌, ◌≡◌, refl, sym, ap, ◌∙◌, List, [], ◌∷◌, ◌++◌, length, length-append,
  length-drop, drop, drop-drop, drop-append, arith,
}
use mathlib.Core.List.{append_assoc, append-nil}
use lang_stream.Prelude.Int.{ℤ}
use lang_stream.Fallback.{AudioRingBuffer, BufferedFrame, push, trimmed}

-- The last n elements.
abbrev pub last_frames : ℕ → List BufferedFrame → List BufferedFrame
last_frames n xs = drop (length xs - n) xs

-- One call of `push`: PCM, sample rate and the clock's time.
abbrev pub Push : Type 0
Push = List ℕ × ℤ × ℕ

pub push_all : AudioRingBuffer → List Push → AudioRingBuffer
push_all b [] = b
push_all b ((pcm, rate, now) ∷ ps) = push_all (push b pcm rate now) ps

-- The frames that are pushed: an empty one is none.
abbrev pub frames_of : List Push → List BufferedFrame
frames_of [] = []
frames_of (([], rate, now) ∷ ps) = frames_of ps
frames_of ((x ∷ pcm, rate, now) ∷ ps) = record { pcm = x ∷ pcm; sample_rate = rate } ∷ frames_of ps

trimmed_lem : (n : ℕ) (xs : List BufferedFrame) → trimmed n xs ≡ last_frames n xs
unfolding trimmed
trimmed_lem n xs = ground (arith, drop_none xs)
  where
    drop_none : (xs : List BufferedFrame) → drop 0 xs ≡ xs
    drop_none xs = refl

last_frames-last_frames :
    (n : ℕ) (xs ys : List BufferedFrame)
    → last_frames n (last_frames n xs ++ ys) ≡ last_frames n (xs ++ ys)
last_frames-last_frames n xs ys =
    let k = length xs - n in
    let joined : drop k xs ++ ys ≡ drop k (xs ++ ys) = sym (drop-append k xs ys (omega arith)) in
    ap (last_frames n) joined
    ∙ drop-drop (length (drop k (xs ++ ys)) - n) k (xs ++ ys)
    ∙ ap (λ m. drop m (xs ++ ys)) (omega (arith, length-drop k (xs ++ ys), length-append xs ys))

kept :
    (b : AudioRingBuffer)
    → length b.frames ≤ b.capacity
    → last_frames b.capacity b.frames ≡ b.frames
kept b h = ap (λ m. drop m b.frames) {y = 0} (omega arith)

push_nothing : (b : AudioRingBuffer) (rate : ℤ) (now : ℕ) → push b [] rate now ≡ b
unfolding push
push_nothing b rate now = refl

push_frame :
    (b : AudioRingBuffer) (x : ℕ) (pcm : List ℕ) (rate : ℤ) (now : ℕ)
    → ((push b (x ∷ pcm) rate now).frames
        ≡ last_frames b.capacity (b.frames ++ record { pcm = x ∷ pcm; sample_rate = rate } ∷ []))
      × ((push b (x ∷ pcm) rate now).capacity ≡ b.capacity)
unfolding push
push_frame b x pcm rate now = (trimmed_lem b.capacity _, refl)

-- A buffer that has no more frames than its capacity keeps, after any pushes, the last frames of
-- those that it had and those pushed, as many as its capacity, in order; pushes of no bytes do not
-- count.
pub push_all-frames :
    (b : AudioRingBuffer) (ps : List Push)
    → length b.frames ≤ b.capacity
    → (push_all b ps).frames ≡ last_frames b.capacity (b.frames ++ frames_of ps)
unfolding push_all
push_all-frames b [] h = sym (ap (last_frames b.capacity) (append-nil b.frames) ∙ kept b h)
push_all-frames b (([], rate, now) ∷ ps) h =
    ap (λ c. (push_all c ps).frames) (push_nothing b rate now) ∙ push_all-frames b ps h
push_all-frames b ((x ∷ pcm, rate, now) ∷ ps) h =
    let f : BufferedFrame = record { pcm = x ∷ pcm; sample_rate = rate } in
    let (now_has, same) = push_frame b x pcm rate now in
    let b' = push b (x ∷ pcm) rate now in
    let fits : length b'.frames ≤ b'.capacity =
      rw (now_has, same)
        (omega
          (arith, length-drop (length (b.frames ++ f ∷ []) - b.capacity) (b.frames ++ f ∷ []))) in
    push_all-frames b' ps fits
    ∙ ap₂ (λ n fs. last_frames n (fs ++ frames_of ps)) same now_has
    ∙ last_frames-last_frames b.capacity (b.frames ++ f ∷ []) (frames_of ps)
    ∙ ap (last_frames b.capacity) (append_assoc b.frames (f ∷ []) (frames_of ps))
