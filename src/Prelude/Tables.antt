-- ===== src/Prelude/Tables.antt =====
-- Tables with a unique key: every row is the one that a look-up by its key finds.
use a2a_platform_go.Prelude.{
  ◌≡◌, refl, sym, ◌∙◌, ap, subst, ◌↔◌, inl, inr, Bool, true, false, Option, none, some, List, [],
  ◌∷◌, ◌++◌, arith, if◌then◌else◌, find, update, delete, All, Bool-cases, All-append, All-map,
  All-update, All-delete,
}
use mathlib.Core.Option.{some-injective}

-- What an UPDATE makes of one row.
abbrev pub patch {ℓ} : {A : Type ℓ} → (A → Bool) → (A → A) → A → A
patch p f x = if p x then f x else x

abbrev pub map_found {ℓ κ} : {A : Type ℓ} {B : Type κ} → (A → B) → Option A → Option B
map_found f none = none
map_found f (some a) = some (f a)

-- The first of two look-ups that finds something.
abbrev pub or_else {ℓ} : {A : Type ℓ} → Option A → Option A → Option A
or_else none o = o
or_else (some a) o = some a

module _ {ℓ} {A : Type ℓ} where
  pub find-append :
      (q : A → Bool) (xs ys : List A) → find q (xs ++ ys) ≡ or_else (find q xs) (find q ys)
  unfolding find
  find-append q [] ys = refl
  find-append q (x ∷ xs) ys = ground (arith, find-append q xs ys)

  -- An UPDATE that changes no row's match for `q`.
  pub find-update :
      (q p : A → Bool) (f : A → A)
      → ((x : A) → q (f x) ≡ q x)
      → (xs : List A) → find q (update p f xs) ≡ map_found (patch p f) (find q xs)
  unfolding find update
  find-update q p f same [] = refl
  find-update q p f same (x ∷ xs) = ground (arith, same x, find-update q p f same xs)

  pub find-delete :
      (q p : A → Bool) (xs : List A) (r : A)
      → find q xs ≡ some r
      → p r ≡ false
      → find q (delete p xs) ≡ some r
  unfolding find delete
  find-delete q p [] r e h = cc
  find-delete q p (x ∷ xs) r e h = elim (Bool-cases (q x)) [
    | inl t ↦
        let same : x ≡ r = some-injective x r (rw t at e) in
        let kept : p x ≡ false = ap p same ∙ h in rw (kept, t) (ap some same)
    | inr f ↦ ground (arith, find-delete q p xs r)
  ]

  -- A look-up that finds nothing that the deletion takes.
  pub find-delete_apart :
      (q p : A → Bool)
      → ((x : A) → q x ≡ true → p x ≡ false)
      → (xs : List A) → find q (delete p xs) ≡ find q xs
  unfolding find delete
  find-delete_apart q p miss [] = refl
  find-delete_apart q p miss (x ∷ xs) = ground (arith, miss x, find-delete_apart q p miss xs)

  pub find_alone : (q : A → Bool) (x : A) → q x ≡ true → find q (x ∷ []) ≡ some x
  unfolding find
  find_alone q x t = rw t

  -- What the deletion takes is not found any more.
  pub find-delete-none :
      (q p : A → Bool)
      → ((x : A) → q x ≡ true → p x ≡ true)
      → (xs : List A) → find q (delete p xs) ≡ none
  unfolding find delete
  find-delete-none q p hit [] = refl
  find-delete-none q p hit (x ∷ xs) = ground (arith, hit x, find-delete-none q p hit xs)

module _ {ℓ κ} {A : Type ℓ} {K : Type κ} (beq : K → K → Bool)
    (beq_iff : (a b : K) → (beq a b ≡ true) ↔ (a ≡ b)) (key : A → K) where
  abbrev pub at : K → A → Bool
  at k x = beq k (key x)

  abbrev pub IsKeyed : List A → Type ℓ
  IsKeyed rows = All (λ r. find (at (key r)) rows ≡ some r) rows

  at_self : (x : A) → at (key x) x ≡ true
  at_self x = (beq_iff (key x) (key x)).1 refl

  -- Whoever has the key is the row that is found.
  pub IsKeyed-found :
      (k : K) (rows : List A)
      → IsKeyed rows
      → All (λ r. at k r ≡ true → find (at k) rows ≡ some r) rows
  IsKeyed-found k rows keyed =
      All-map _ _ rows
        (λ r found hit.
          subst (λ j. find (at j) rows ≡ some r) (sym ((beq_iff k (key r)).0 hit)) found)
        keyed

  pub IsKeyed-update :
      (p : A → Bool) (f : A → A) (rows : List A)
      → ((x : A) → key (f x) ≡ key x)
      → IsKeyed rows
      → IsKeyed (update p f rows)
  IsKeyed-update p f rows same keyed =
      All-update _ _ p f rows
        (λ r t found.
          rw (same r, find-update (at (key r)) p f (λ x. ap (beq (key r)) (same x)) rows)
            (rw found (rw t)))
        (λ r e found.
          rw (find-update (at (key r)) p f (λ x. ap (beq (key r)) (same x)) rows) (rw found (rw e)))
        keyed

  pub IsKeyed-insert :
      (x : A) (rows : List A)
      → find (at (key x)) rows ≡ none
      → IsKeyed rows
      → IsKeyed (rows ++ x ∷ [])
  IsKeyed-insert x rows new keyed =
      All-append _ rows (x ∷ [])
        (All-map _ _ rows (λ r found. rw (find-append (at (key r)) rows (x ∷ []), found)) keyed)
        (
          rw (find-append (at (key x)) rows (x ∷ []), new) (find_alone (at (key x)) x (at_self x)),
          tt,
        )

  pub IsKeyed-delete : (p : A → Bool) (rows : List A) → IsKeyed rows → IsKeyed (delete p rows)
  IsKeyed-delete p rows keyed =
      All-delete _ _ p rows (λ r e found. find-delete (at (key r)) p rows r found e) keyed
