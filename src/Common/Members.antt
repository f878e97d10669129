-- ===== src/Common/Members.antt =====
-- Membership in a list, as a predicate by recursion that proofs split on.
use mathlib.Core.Bool.{Bool, true}
use mathlib.Core.Option.{some}
use mathlib.Core.List.{List, [], ◌∷◌, ◌++◌, map}
use mathlib.Core.Logic.{◌⊎◌, inl, inr}
use mathlib.Core.Path.{◌≡◌, refl, ap}
use native.Mathlib.Omega.{arith}
use sl_open_bark.Common.Equality.{if_elim, Bool-cases}
use sl_open_bark.Common.Lists.{All, any, filter, find?, update, insert_by, sort_by}

-- `x` is an element of the list, at a place that is known.
abbrev pub Elem : {A : Type 0} → A → List A → Type 0
Elem x [] = ⊥
Elem x (y ∷ ys) = (x ≡ y) ⊎ Elem x ys

module _ {A : Type 0} where
  pub filter-Elem :
      (p : A → Bool) (x : A) (xs : List A) → Elem x (filter p xs) → Elem x xs × (p x ≡ true)
  filter-Elem p x [] h = absurd h
  filter-Elem p x (y ∷ ys) h = ground (arith, filter-Elem p x ys)

  pub Elem-filter :
      (p : A → Bool) (x : A) (xs : List A) → Elem x xs → p x ≡ true → Elem x (filter p xs)
  Elem-filter p x [] h k = h
  Elem-filter p x (y ∷ ys) h k = ground (arith, Elem-filter p x ys)

  pub Elem-append_left : (x : A) (xs ys : List A) → Elem x xs → Elem x (xs ++ ys)
  Elem-append_left x [] ys m = absurd m
  Elem-append_left x (y ∷ xs) ys (inl e) = inl e
  Elem-append_left x (y ∷ xs) ys (inr m) = inr (Elem-append_left x xs ys m)

  pub Elem-append_right : (x : A) (xs ys : List A) → Elem x ys → Elem x (xs ++ ys)
  Elem-append_right x [] ys m = m
  Elem-append_right x (y ∷ xs) ys m = inr (Elem-append_right x xs ys m)

  pub append-Elem : (x : A) (xs ys : List A) → Elem x (xs ++ ys) → Elem x xs ⊎ Elem x ys
  append-Elem x [] ys m = inr m
  append-Elem x (y ∷ xs) ys m = ground (arith, append-Elem x xs ys)

  pub All-Elem {κ} : (P : A → Type κ) (x : A) (xs : List A) → All P xs → Elem x xs → P x
  All-Elem P x [] h m = absurd m
  All-Elem P x (y ∷ ys) (p, h) (inl e) = rw e p
  All-Elem P x (y ∷ ys) (p, h) (inr m) = All-Elem P x ys h m

module _ {A : Type 0} (before : A → A → Bool) where
  pub Elem-insert_by : (a x : A) (xs : List A) → Elem a (x ∷ xs) → Elem a (insert_by before x xs)
  unfolding insert_by
  Elem-insert_by a x [] m = m
  Elem-insert_by a x (y ∷ ys) m = ground (arith, Elem-insert_by a x ys)

  pub insert_by-Elem : (a x : A) (xs : List A) → Elem a (insert_by before x xs) → Elem a (x ∷ xs)
  unfolding insert_by
  insert_by-Elem a x [] m = m
  insert_by-Elem a x (y ∷ ys) m = ground (arith, insert_by-Elem a x ys)

  -- Sorting keeps the elements.
  pub sort_by-Elem : (a : A) (xs : List A) → Elem a (sort_by before xs) → Elem a xs
  unfolding sort_by
  sort_by-Elem a [] m = m
  sort_by-Elem a (x ∷ xs) m =
      ground (arith, insert_by-Elem a x (sort_by before xs), sort_by-Elem a xs)

  pub Elem-sort_by : (a : A) (xs : List A) → Elem a xs → Elem a (sort_by before xs)
  unfolding sort_by
  Elem-sort_by a [] m = m
  Elem-sort_by a (x ∷ xs) m =
      ground (arith, Elem-insert_by a x (sort_by before xs), Elem-sort_by a xs)

module _ {A : Type 0} where
  -- What a search finds is an element that passes.
  pub find?-Elem :
      (p : A → Bool) (x : A) (xs : List A) → find? p xs ≡ some x → Elem x xs × (p x ≡ true)
  find?-Elem p x [] h = cc
  find?-Elem p x (y ∷ ys) h = ground (arith, find?-Elem p x ys)

module _ {A : Type 0} where
  -- A row after an update is one from before, or the new form of one that passes.
  pub update-Elem :
      (p : A → Bool) (f : A → A) (x : A) (xs : List A)
      → Elem x (update p f xs)
      → (y : A) × Elem y xs × ((x ≡ y) ⊎ ((x ≡ f y) × (p y ≡ true)))
  update-Elem p f x [] m = absurd m
  update-Elem p f x (y ∷ ys) (inl e) = (
    y,
    inl refl,
    if_elim (λ z. x ≡ z → (x ≡ y) ⊎ ((x ≡ f y) × (p y ≡ true))) (p y) (f y) y (λ h i. inr (i, h))
        (λ _ i. inl i) e,
  )
  update-Elem p f x (y ∷ ys) (inr m) =
      let (z, held, how) = update-Elem p f x ys m in (z, inr held, how)

module _ {A B : Type 0} (f : A → B) where
  pub map-Elem : (b : B) (xs : List A) → Elem b (map f xs) → (a : A) × Elem a xs × (b ≡ f a)
  map-Elem b [] m = absurd m
  map-Elem b (x ∷ xs) (inl e) = (x, inl refl, e)
  map-Elem b (x ∷ xs) (inr m) = let (a, k, e) = map-Elem b xs m in (a, inr k, e)

  pub Elem-map : (a : A) (xs : List A) → Elem a xs → Elem (f a) (map f xs)
  Elem-map a [] m = absurd m
  Elem-map a (x ∷ xs) (inl e) = inl (ap f e)
  Elem-map a (x ∷ xs) (inr m) = inr (Elem-map a xs m)

module _ {A : Type 0} (p : A → Bool) where
  pub any-Elem : (xs : List A) → any p xs ≡ true → (x : A) × Elem x xs × (p x ≡ true)
  any-Elem [] h = cc
  any-Elem (x ∷ xs) h = elim (Bool-cases (p x)) [
    | inl hit ↦ (x, inl refl, hit)
    | inr miss ↦ let (y, m, k) = any-Elem xs (ground arith) in (y, inr m, k)
  ]

  pub Elem-any : (x : A) (xs : List A) → Elem x xs → p x ≡ true → any p xs ≡ true
  Elem-any x [] m h = absurd m
  Elem-any x (y ∷ ys) m h = ground (arith, Elem-any x ys)
