-- ===== src/Floats.antt =====
-- float64 arithmetic, which Go's hardware and its package math implement: a parameter of the model.
use lang_stream.Prelude.{Bool}
use lang_stream.Prelude.Int.{ℤ}

pub record Floats : Type 1 where
  pub Float : Type 0
  pub of_int : ℤ → Float
  pub floor : Float → ℤ
  pub ceil : Float → ℤ
  pub log : Float → Float
  pub exp : Float → Float
  pub sub : Float → Float → Float
  pub add : Float → Float → Float
  pub mul : Float → Float → Float
  pub div : Float → Float → Float
  pub sqrt : Float → Float
  pub lt : Float → Float → Bool
  pub le : Float → Float → Bool
