-- ===== src/Registry/Consecutive.antt =====
-- Failures directly after one another, and what is found in a map after a change to it.
use a2a_platform_go.Prelude.{
  ℕ, ◌+◌, String, ◌≡◌, refl, sym, ◌∙◌, subst, Bool, true, false, ◌&&◌, ◌||◌, none, List, [], ◌∷◌,
  ◌==◌, leb, is_some, find, delete, Bool-cases, inl, inr, eq_iff,
}
use a2a_platform_go.Registry.{Registry, is_key, get_client}

abbrev pub is_connected : String → Registry → Bool
is_connected name r = is_some (get_client name r)

-- Three failures directly after one another.
unfoldable pub three_in_a_row : List Bool → Bool
three_in_a_row (a ∷ b ∷ c ∷ rest) = (a && b && c) || three_in_a_row (b ∷ c ∷ rest)
three_in_a_row _ = false

-- The same, after `n` failures.
unfoldable pub streak : ℕ → List Bool → Bool
streak n [] = false
streak n (false ∷ bs) = streak 0 bs
streak n (true ∷ bs) = leb 3 (n + 1) || streak (n + 1) bs

three-passed : (bs : List Bool) → three_in_a_row (false ∷ bs) ≡ three_in_a_row bs
unfolding three_in_a_row
three-passed [] = refl
three-passed (b ∷ []) = refl
three-passed (b ∷ c ∷ bs) = refl

three-one_passed : (bs : List Bool) → three_in_a_row (true ∷ false ∷ bs) ≡ three_in_a_row bs
unfolding three_in_a_row
three-one_passed [] = refl
three-one_passed (b ∷ bs) = three-passed (b ∷ bs)

three-two_passed : (bs : List Bool) → three_in_a_row (true ∷ true ∷ false ∷ bs) ≡ three_in_a_row bs
unfolding three_in_a_row
three-two_passed bs = three-one_passed bs

pub streak_lem :
    (bs : List Bool)
    → (streak 0 bs ≡ three_in_a_row bs)
      × (streak 1 bs ≡ three_in_a_row (true ∷ bs))
      × (streak 2 bs ≡ three_in_a_row (true ∷ true ∷ bs))
unfolding streak three_in_a_row
streak_lem [] = (refl, refl, refl)
streak_lem (false ∷ bs) =
    let now = (streak_lem bs).0 in
    (now ∙ sym (three-passed bs), now ∙ sym (three-one_passed bs), now ∙ sym (three-two_passed bs))
streak_lem (true ∷ bs) =
    let (none_before, one_before, two_before) = streak_lem bs in (one_before, two_before, refl)

pub find-deleted : {V : Type 0} (p : V → Bool) (xs : List V) → find p (delete p xs) ≡ none
unfolding find delete
find-deleted p [] = refl
find-deleted p (x ∷ xs) = elim (Bool-cases (p x)) [
  | inl t ↦ rw t (find-deleted p xs)
  | inr f ↦ rw f (rw f (find-deleted p xs))
]

apart :
    (key other name : String)
    → (other == name) ≡ false
    → (key == other) ≡ true
    → (key == name) ≡ false
apart key other name differ same =
    subst (λ k. (k == name) ≡ false) (sym ((eq_iff key other).0 same)) differ

pub find-delete_other :
    {V : Type 0} (name other : String) (entries : List (String × V))
    → (other == name) ≡ false
    → find (is_key name) (delete (is_key other) entries) ≡ find (is_key name) entries
unfolding find delete
find-delete_other name other [] differ = refl
find-delete_other name other (e ∷ entries) differ =
    let rest = find-delete_other name other entries differ in
    elim (Bool-cases (e.0 == other)) [
      | inl same ↦ rw same (rw (apart e.0 other name differ same) rest)
      | inr distinct ↦ elim (Bool-cases (e.0 == name)) [
        | inl found ↦ rw distinct (rw found refl)
        | inr passed ↦ rw distinct (rw passed rest)
      ]
    ]
