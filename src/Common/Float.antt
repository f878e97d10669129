-- ===== src/Common/Float.antt =====
-- What the program uses of float64: an interface, whose values and arithmetic are not modelled.
use mathlib.Core.Bool.{Bool}

pub record Float64 : Type 1 where
  pub Float : Type 0
  pub zero : Float
  pub one : Float
  pub le : Float → Float → Bool
  pub lt : Float → Float → Bool
  pub mul : Float → Float → Float
  pub sub : Float → Float → Float
