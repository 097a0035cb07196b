-- ===== src/Subagent/Limit.antt =====
-- The limit on subagents that run side by side: a semaphore with three permits.
use a2a_platform_go.Prelude.{
  ℕ, suc, ◌≤◌, ◌<◌, ◌≡◌, subst, String, true, inl, inr, List, [], ◌∷◌, ◌==◌, any, length,
  Bool-cases, arith,
}
use a2a_platform_go.Sql as Sql
use a2a_platform_go.Subagent.Loop.{Env}
use a2a_platform_go.Subagent.{
  State, Step, refused, entered, worked, finished, refuse, enter, leave, without,
}

pub data Call : Type 0 where
  refusal entry labour exit : Call

-- What a semaphore allows, by the permits that are taken.
pub data Permit : Call → ℕ → ℕ → Type 0 where
  busy : Permit refusal 3 3
  taken : {n : ℕ} → n < 3 → Permit entry n (suc n)
  held : {n : ℕ} → Permit labour n n
  returned : {n : ℕ} → Permit exit (suc n) n

-- The count is the number of the calls that run, of which there are three or fewer.
abbrev pub IsCounted : State → Type 0
IsCounted s = (s.active_count ≡ length s.running) × (length s.running ≤ 3)

module _ (sql : Sql.Env) (env : Env) where
  unfoldable pub call_of : {s u : State} → Step sql env s u → Call
  call_of (refused id full) = refusal
  call_of (entered id free) = entry
  call_of (worked id w t there) = labour
  call_of (finished id there) = exit

  length-without :
      (id : String) (is : List String)
      → any (λ i. i == id) is ≡ true
      → suc (length (without sql env id is)) ≡ length is
  unfolding any
  length-without id [] h = cc
  length-without id (i ∷ is) h = elim (Bool-cases (i == id)) [
    | inl t ↦ rw t (omega arith)
    | inr f ↦ let rest = length-without id is (rw f at h) in rw f (omega (arith, rest))
  ]

  -- Every move of the engine is one of a semaphore with three permits: a call is refused only while
  -- three run and is let in only while fewer do, and it returns its permit when it ends. The count
  -- stays the number of the calls that run.
  pub step-Permit :
      (s u : State) (step : Step sql env s u)
      → IsCounted s
      → IsCounted u × Permit (call_of step) (length s.running) (length u.running)
  unfolding refuse enter leave call_of
  step-Permit s u (refused id full) (same, few) =
      let three : 3 ≡ length s.running = ground (arith, full, same, few) in
      ((same, few), subst (λ n. Permit refusal n n) three busy)
  step-Permit s u (entered id free) (same, few) =
      let room : length s.running < 3 = ground (arith, free, same) in
      ((omega (arith, same), omega (arith, room)), taken room)
  step-Permit s u (worked id w t there) (same, few) = ((same, few), held)
  step-Permit s u (finished id there) (same, few) =
      let left = length (without sql env id s.running) in
      let fewer = length-without id s.running there in
      (
        (omega (arith, same, few, fewer), omega (arith, few, fewer)),
        subst (λ n. Permit exit n left) fewer returned,
      )
