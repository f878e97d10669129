-- ===== src/Common/Sorted.antt =====
-- Lists in an order, and what sorting and cutting leave of it.
use sl_open_bark.Common.Equality.{Bool-cases}
use sl_open_bark.Common.Lists.{All, take, insert_by, sort_by, All-insert_by}
use sl_open_bark.Common.Members.{Elem, All-Elem}
use Prim.Native.Nat.{ℕ, zero, suc}
use mathlib.Core.List.{List, [], ◌∷◌}
use mathlib.Core.Bool.{Bool, true, false}
use mathlib.Core.Path.{◌≡◌}
use mathlib.Core.Logic.{◌⊎◌, inl, inr}

module _ {A : Type 0} (R : A → A → Type 0) where
  -- Each element stands before all that follow it.
  abbrev pub IsSorted : List A → Type 0
  IsSorted [] = Unit
  IsSorted (x ∷ xs) = All (R x) xs × IsSorted xs

  module _ (trans : (x y z : A) → R x y → R y z → R x z) where
    All-before : (x y : A) (ys : List A) → R x y → All (R y) ys → All (R x) ys
    All-before x y [] h k = tt
    All-before x y (z ∷ zs) h (p, k) = (trans x y z h p, All-before x y zs h k)

    module _ (before : A → A → Bool) (holds : (x y : A) → before x y ≡ true → R x y)
        (fails : (x y : A) → before x y ≡ false → R y x) where
      insert_by-IsSorted : (x : A) (xs : List A) → IsSorted xs → IsSorted (insert_by before x xs)
      unfolding insert_by
      insert_by-IsSorted x [] s = (tt, tt)
      insert_by-IsSorted x (y ∷ ys) (h, s) = elim (Bool-cases (before x y)) [
        | inl first ↦ rw first ((holds x y first, All-before x y ys (holds x y first) h), (h, s))
        | inr later ↦
            rw later
              (All-insert_by before (R y) x ys (fails x y later) h, insert_by-IsSorted x ys s)
      ]

      pub sort_by-IsSorted : (xs : List A) → IsSorted (sort_by before xs)
      unfolding sort_by
      sort_by-IsSorted [] = tt
      sort_by-IsSorted (x ∷ xs) = insert_by-IsSorted x (sort_by before xs) (sort_by-IsSorted xs)

  -- An element of a list in order is in the first n, or all of these stand before it.
  pub Elem-take :
      (n : ℕ) (xs : List A) (y : A)
      → IsSorted xs
      → Elem y xs
      → Elem y (take n xs) ⊎ All (λ x. R x y) (take n xs)
  Elem-take zero xs y s m = inr tt
  Elem-take (suc n) [] y s m = absurd m
  Elem-take (suc n) (x ∷ xs) y (h, s) (inl e) = inl (inl e)
  Elem-take (suc n) (x ∷ xs) y (h, s) (inr m) = elim (Elem-take n xs y s m) [
    | inl here ↦ inl (inr here)
    | inr past ↦ inr (All-Elem (R x) y xs h m, past)
  ]

module _ {A : Type 0} where
  pub take-Elem : (n : ℕ) (xs : List A) (y : A) → Elem y (take n xs) → Elem y xs
  take-Elem zero xs y m = absurd m
  take-Elem (suc n) [] y m = m
  take-Elem (suc n) (x ∷ xs) y (inl e) = inl e
  take-Elem (suc n) (x ∷ xs) y (inr m) = inr (take-Elem n xs y m)
