-- ===== src/Prelude/Lists.antt =====
-- Lists over the native numbers, and the tests and updates by which table rows are selected.
use Prim.Native.Nat.{ℕ, zero, suc, ◌+◌, ◌≤◌}
use mathlib.Core.Path.{◌≡◌, refl, subst}
use mathlib.Core.Bool.{Bool, true, false, ◌||◌, ◌&&◌}
use mathlib.Core.Option.{Option, none, some}
use mathlib.Core.List.{List, [], ◌∷◌, ◌++◌}
use mathlib.Core.Logic.{inl, inr}
use mathlib.Core.Option.{some-injective}
use native.Mathlib.Omega.{arith}
use a2a_platform_go.Prelude.Tests.{if◌then◌else◌, Bool-cases}

module _ {ℓ} {A : Type ℓ} where
  abbrev pub length : List A → ℕ
  length [] = 0
  length (x ∷ xs) = suc (length xs)

  abbrev pub take : ℕ → List A → List A
  take zero xs = []
  take (suc n) [] = []
  take (suc n) (x ∷ xs) = x ∷ take n xs

  -- SELECT … WHERE p: the rows that pass, in their order.
  unfoldable pub select : (A → Bool) → List A → List A
  select p [] = []
  select p (x ∷ xs) = if p x then x ∷ select p xs else select p xs

  -- The first row that passes.
  unfoldable pub find : (A → Bool) → List A → Option A
  find p [] = none
  find p (x ∷ xs) = if p x then some x else find p xs

  -- UPDATE … SET f WHERE p.
  unfoldable pub update : (A → Bool) → (A → A) → List A → List A
  update p f [] = []
  update p f (x ∷ xs) = (if p x then f x else x) ∷ update p f xs

  -- DELETE … WHERE p.
  unfoldable pub delete : (A → Bool) → List A → List A
  delete p [] = []
  delete p (x ∷ xs) = if p x then delete p xs else x ∷ delete p xs

  unfoldable pub any : (A → Bool) → List A → Bool
  any p [] = false
  any p (x ∷ xs) = p x || any p xs

  unfoldable pub all : (A → Bool) → List A → Bool
  all p [] = true
  all p (x ∷ xs) = p x && all p xs

  pub length-append : (xs ys : List A) → length (xs ++ ys) ≡ length xs + length ys
  length-append [] ys = omega arith
  length-append (x ∷ xs) ys = omega (arith, length-append xs ys)

  pub length-take_le : (n : ℕ) (xs : List A) → length (take n xs) ≤ n
  length-take_le zero xs = omega arith
  length-take_le (suc n) [] = omega arith
  length-take_le (suc n) (x ∷ xs) = omega (arith, length-take_le n xs)

module _ {ℓ κ} {A : Type ℓ} where
  -- Every row satisfies `P`.
  abbrev pub All : (A → Type κ) → List A → Type κ
  All P [] = Unit
  All P (x ∷ xs) = P x × All P xs

module _ {ℓ κ} {A : Type ℓ} (P : A → Type κ) where
  pub All-append : (xs ys : List A) → All P xs → All P ys → All P (xs ++ ys)
  All-append [] ys h k = k
  All-append (x ∷ xs) ys (p, h) k = (p, All-append xs ys h k)

  pub All-find :
      (p : A → Bool) (xs : List A) (a : A) → find p xs ≡ some a → All P xs → P a × (p a ≡ true)
  unfolding find
  All-find p [] a e h = cc
  All-find p (x ∷ xs) a e (here, rest) = elim (Bool-cases (p x)) [
    | inl t ↦
        let same : some x ≡ some a = rw t at e in
        (
          subst P (some-injective _ _ same) here,
          subst (λ y. p y ≡ true) (some-injective _ _ same) t,
        )
    | inr f ↦ All-find p xs a (rw f at e) rest
  ]

module _ {ℓ κ} {A : Type ℓ} (P Q : A → Type κ) where
  pub All-map : (xs : List A) → ((x : A) → P x → Q x) → All P xs → All Q xs
  All-map [] f h = tt
  All-map (x ∷ xs) f (p, h) = (f x p, All-map xs f h)

  -- An UPDATE: the rows that it selects are changed, the others stay.
  pub All-update :
      (p : A → Bool) (f : A → A) (xs : List A)
      → ((x : A) → p x ≡ true → P x → Q (f x))
      → ((x : A) → p x ≡ false → P x → Q x)
      → All P xs
      → All Q (update p f xs)
  unfolding update
  All-update p f [] hit miss h = tt
  All-update p f (x ∷ xs) hit miss (here, rest) = elim (Bool-cases (p x)) [
    | inl t ↦ (rw t (hit x t here), All-update p f xs hit miss rest)
    | inr e ↦ (rw e (miss x e here), All-update p f xs hit miss rest)
  ]

  -- A DELETE keeps the rows that it does not select.
  pub All-delete :
      (p : A → Bool) (xs : List A)
      → ((x : A) → p x ≡ false → P x → Q x)
      → All P xs
      → All Q (delete p xs)
  unfolding delete
  All-delete p [] miss h = tt
  All-delete p (x ∷ xs) miss (here, rest) = elim (Bool-cases (p x)) [
    | inl t ↦ rw t (All-delete p xs miss rest)
    | inr e ↦ rw e (miss x e here, All-delete p xs miss rest)
  ]

module _ {ℓ κ} {A : Type ℓ} (P Q : A → Type κ) where
  pub All-both : (xs : List A) → All P xs → All Q xs → All (λ x. P x × Q x) xs
  All-both [] h k = tt
  All-both (x ∷ xs) (p, h) (q, k) = ((p, q), All-both xs h k)

-- What holds of more elements holds of all where less did.
pub all_mono {ℓ} :
    {A : Type ℓ} (p q : A → Bool) (xs : List A)
    → ((x : A) → p x ≡ true → q x ≡ true)
    → all p xs ≡ true
    → all q xs ≡ true
unfolding all
all_mono p q [] more h = refl
all_mono p q (x ∷ xs) more h = ground (arith, more x, all_mono p q xs more)

pub all-All {ℓ} :
    {A : Type ℓ} (p : A → Bool) (xs : List A) → all p xs ≡ true → All (λ x. p x ≡ true) xs
unfolding all
all-All p [] h = tt
all-All p (x ∷ xs) h = (ground (arith, h), all-All p xs (ground (arith, h)))

pub All-unit : {A : Type 0} (xs : List A) → All (λ _. Unit {0}) xs
All-unit [] = tt
All-unit (x ∷ xs) = (tt, All-unit xs)
