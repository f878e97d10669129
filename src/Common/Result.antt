-- ===== src/Common/Result.antt =====
-- Go's `(value, error)` returns, and calls that also change a state `S`. The state is returned with
-- an error too: an early return does not undo what was done before it.

use mathlib.Core.Logic.{◌⊎◌, inl, inr}
use mathlib.Core.Path.{◌≡◌, refl}

pub data Result {ℓ κ} (E : Type ℓ) (A : Type κ) : Type (ℓ ⊔ κ) where
  ok : A → Result E A
  err : E → Result E A

pub Result-cases {ℓ κ} :
    {E : Type ℓ} {A : Type κ} (r : Result E A) → ((e : E) × (r ≡ err e)) ⊎ ((a : A) × (r ≡ ok a))
Result-cases (ok a) = inr (a, refl)
Result-cases (err e) = inl (e, refl)

abbrev pub Action : Type 0 → Type 0 → Type 0 → Type 0
Action S E A = S → Result E A × S

module _ {S E : Type 0} where
  abbrev pub pure : {A : Type 0} → A → Action S E A
  pure a s = (ok a, s)

  abbrev pub raise : {A : Type 0} → E → Action S E A
  raise e s = (err e, s)

  abbrev pub continue_with : {A B : Type 0} → (A → Action S E B) → Result E A × S → Result E B × S
  continue_with f (ok a, s) = f a s
  continue_with f (err e, s) = (err e, s)

  infixl 5 ◌>>=◌ ◌>>◌
  -- `a, err := m(); if err != nil { return err }; ...`
  abbrev pub ◌>>=◌ : {A B : Type 0} → Action S E A → (A → Action S E B) → Action S E B
  ◌>>=◌ m f s = continue_with f (m s)

  abbrev pub ◌>>◌ : {A B : Type 0} → Action S E A → Action S E B → Action S E B
  m >> k = m >>= λ _. k

module _ {S E A B : Type 0} (f : A → Action S E B) (P : Result E B × S → Type 0) where
  continue_with_elim :
      (r : Result E A × S)
      → ((e : E) → r.0 ≡ err e → P (err e, r.1))
      → ((a : A) → r.0 ≡ ok a → P (f a r.1))
      → P (continue_with f r)
  continue_with_elim (ok a, s) failed done = done a refl
  continue_with_elim (err e, s) failed done = failed e refl

  -- A bind either fails as its first part does, or goes on from the state that this part left.
  pub >>=_elim :
      (m : Action S E A) (s : S)
      → ((e : E) → (m s).0 ≡ err e → P (err e, (m s).1))
      → ((a : A) → (m s).0 ≡ ok a → P (f a (m s).1))
      → P ((m >>= f) s)
  >>=_elim m s failed done = continue_with_elim (m s) failed done

module _ {S E A B : Type 0} (f : A → Action S E B) where
  continue_with-ok :
      (r : Result E A × S) (b : B)
      → (continue_with f r).0 ≡ ok b
      → (a : A) × (r.0 ≡ ok a) × ((f a r.1).0 ≡ ok b)
  continue_with-ok (ok a, s) b h = (a, refl, h)
  continue_with-ok (err e, s) b h = cc

  -- Inversion of a bind that succeeds.
  pub >>=-ok :
      (m : Action S E A) (s : S) (b : B)
      → ((m >>= f) s).0 ≡ ok b
      → (a : A) × ((m s).0 ≡ ok a) × ((f a (m s).1).0 ≡ ok b)
  >>=-ok m s b h = continue_with-ok (m s) b h

-- A property of the state that both parts of a bind keep.
pub >>=-keeps :
    {S E A B : Type 0} (P : S → Type 0) (m : Action S E A) (f : A → Action S E B) (s : S)
    → P (m s).1
    → ((a : A) (t : S) → P t → P (f a t).1)
    → P ((m >>= f) s).1
>>=-keeps P m f s h k = >>=_elim f (λ r. P r.1) m s (λ _ _. h) (λ a _. k a (m s).1 h)
