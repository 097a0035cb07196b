-- ===== src/Sql/Invert.antt =====
-- What a successful action has done, step by step.
use a2a_platform_go.Prelude.{◌≡◌, ap, ◌∙◌, refl, Bool, true, false, List, [], ◌∷◌, ◌⊎◌, inl, inr}
use a2a_platform_go.Sql.{
  Env, World, Sql, Result, ok, err, Error, outcome, statement, query, ◌>>=◌, transaction, begun,
  settle, unanswered, committed, same_tables, exec,
}

err_ne_ok : {B : Type 0} {e : Error} {b : B} → ◌≡◌ {A = Result B} (err e) (ok b) → ⊥
err_ne_ok h = cc

-- Two results that agree, agree in their values.
pub ok_same : {A : Type 0} (b a : A) → ok b ≡ ok a → b ≡ a
ok_same b a h = cc

module _ {T A B : Type 0} (m : Sql T A) (f : A → Sql T B) (env : Env) (w : World T) where
  bind_cases : (r : Result A × World T) → ((e : Error) × (r.0 ≡ err e)) ⊎ ((a : A) × (r.0 ≡ ok a))
  bind_cases (ok a, v) = inr (a, refl)
  bind_cases (err e, v) = inl (e, refl)

  -- A bind that succeeds is a success of its first action, followed by the second.
  pub bind_ok :
      {b : B}
      → ((m >>= f) env w).0 ≡ ok b
      → (a : A) × ((m env w).0 ≡ ok a)
        × ((f a env (m env w).1).0 ≡ ok b)
        × ((m >>= f) env w ≡ f a env (m env w).1)
  unfolding ◌>>=◌
  bind_ok h = elim (bind_cases (m env w)) [
    | inl (e, failed) ↦ absurd (err_ne_ok (rw failed at h))
    | inr (a, done) ↦ (a, done, rw done at h, rw done)
  ]

module _ {T A : Type 0} where
  outcome_ok :
      (faults : List Bool) (r : Result A × T) (w : World T) {a : A}
      → (outcome faults r w).0 ≡ ok a
      → (r.0 ≡ ok a) × ((outcome faults r w).1.tables ≡ r.1)
  outcome_ok [] (r, t) w h = (h, refl)
  outcome_ok (true ∷ rest) (r, t) w h = cc
  outcome_ok (false ∷ rest) (r, t) w h = (h, refl)

  -- A statement that succeeds has run, and has left the tables that it computes.
  pub statement_ok :
      (f : Env → World T → Result A × T) (env : Env) (w : World T) {a : A}
      → (statement f env w).0 ≡ ok a
      → ((f env w).0 ≡ ok a) × ((statement f env w).1.tables ≡ (f env w).1)
  unfolding statement
  statement_ok f env w h = outcome_ok w.faults (f env w) w h

  pub query_ok :
      (f : Env → World T → Result A) (env : Env) (w : World T) {a : A}
      → (query f env w).0 ≡ ok a
      → f env w ≡ ok a
  unfolding query
  query_ok f env w h = (statement_ok (λ env w. (f env w, w.tables)) env w h).0

  outcome_same :
      (faults : List Bool) (r : Result A) (w : World T)
      → (outcome faults (r, w.tables) w).1.tables ≡ w.tables
  outcome_same [] r w = refl
  outcome_same (true ∷ rest) r w = refl
  outcome_same (false ∷ rest) r w = refl

  -- A SELECT changes nothing, refused or not.
  pub query_same :
      (f : Env → World T → Result A) (env : Env) (w : World T) → (query f env w).1.tables ≡ w.tables
  unfolding query statement
  query_same f env w = outcome_same w.faults (f env w) w

module _ {T : Type 0} where
  exec_same : (env : Env) (w : World T) → (exec same_tables env w).1.tables ≡ w.tables
  unfolding exec statement
  exec_same env w = outcome_same w.faults (ok tt) w

  -- The world in which the body of a transaction runs: behind BEGIN.
  abbrev pub begin : Env → World T → World T
  begin env w = (exec same_tables env w).1

  pub begin_same : (env : Env) (w : World T) → (begin env w).tables ≡ w.tables
  begin_same env w = exec_same env w

unanswered_cases :
    {T : Type 0} (t : T) (faults : List Bool) (w : World T)
    → ((unanswered t faults w).tables ≡ t) ⊎ ((unanswered t faults w).tables ≡ w.tables)
unanswered_cases t [] w = inl refl
unanswered_cases t (true ∷ rest) w = inr refl
unanswered_cases t (false ∷ rest) w = inl refl

module _ {T A : Type 0} where
  outcome_now :
      (faults : List Bool) (r : Result A × T) (w : World T) → (outcome faults r w).1.now ≡ w.now
  outcome_now [] (r, t) w = refl
  outcome_now (true ∷ rest) (r, t) w = refl
  outcome_now (false ∷ rest) (r, t) w = refl

  -- No statement moves the clock.
  pub query_now :
      (f : Env → World T → Result A) (env : Env) (w : World T) → (query f env w).1.now ≡ w.now
  unfolding query statement
  query_now f env w = outcome_now w.faults (f env w, w.tables) w

  committed_ok :
      (t : T) (b : A) (r : Result (Unit {0}) × World T) {a : A}
      → (committed t b r).0 ≡ ok a
      → (b ≡ a) × ((committed t b r).1.tables ≡ r.1.tables)
  committed_ok t b (ok _, v) {a} h = (ok_same b a h, refl)
  committed_ok t b (err e, v) h = cc

  settle_ok :
      (env : Env) (t : T) (r : Result A × World T) {a : A}
      → (settle env t r).0 ≡ ok a
      → (r.0 ≡ ok a) × ((settle env t r).1.tables ≡ r.1.tables)
  settle_ok env t (err e, v) h = cc
  settle_ok env t (ok b, v) h =
      let (same, left) = committed_ok t b (exec same_tables env v) h in
      (ap ok same, left ∙ exec_same env v)

  begun_ok :
      (m : Sql T A) (env : Env) (r : Result (Unit {0}) × World T) {a : A}
      → (begun m env r).0 ≡ ok a
      → ((m env r.1).0 ≡ ok a) × ((begun m env r).1.tables ≡ (m env r.1).1.tables)
  begun_ok m env (err e, v) h = cc
  begun_ok m env (ok _, v) h = settle_ok env v.tables (m env v) h

  -- What a transaction leaves that reports an error: the tables that it found, or those that its body
  -- left where it succeeded.
  abbrev pub LeftBy : Sql T A → Env → World T → T → Type 0
  LeftBy m env w tables =
      (tables ≡ w.tables)
      ⊎ ((a : A) × ((m env (begin env w)).0 ≡ ok a) × (tables ≡ (m env (begin env w)).1.tables))

  committed_err :
      (t : T) (b : A) (r : Result (Unit {0}) × World T) {e : Error}
      → (committed t b r).0 ≡ err e
      → ((committed t b r).1.tables ≡ t) ⊎ ((committed t b r).1.tables ≡ r.1.tables)
  committed_err t b (ok _, v) h = cc
  committed_err t b (err f, v) h = unanswered_cases t v.faults v

  settle_err :
      (env : Env) (t : T) (r : Result A × World T) {e : Error}
      → (settle env t r).0 ≡ err e
      → ((settle env t r).1.tables ≡ t)
        ⊎ ((a : A) × (r.0 ≡ ok a) × ((settle env t r).1.tables ≡ r.1.tables))
  settle_err env t (err f, v) h = inl refl
  settle_err env t (ok b, v) h = elim (committed_err t b (exec same_tables env v) h) [
    | inl back ↦ inl back
    | inr kept ↦ inr (b, refl, kept ∙ exec_same env v)
  ]

  begun_err :
      (m : Sql T A) (env : Env) (r : Result (Unit {0}) × World T) {e : Error}
      → (begun m env r).0 ≡ err e
      → ((begun m env r).1.tables ≡ r.1.tables)
        ⊎ ((a : A) × ((m env r.1).0 ≡ ok a) × ((begun m env r).1.tables ≡ (m env r.1).1.tables))
  begun_err m env (err f, v) h = inl refl
  begun_err m env (ok _, v) h = settle_err env v.tables (m env v) h

  pub transaction_err :
      (m : Sql T A) (env : Env) (w : World T) {e : Error}
      → (transaction m env w).0 ≡ err e
      → LeftBy m env w (transaction m env w).1.tables
  unfolding transaction
  transaction_err m env w h = elim (begun_err m env (exec same_tables env w) h) [
    | inl back ↦ inl (back ∙ exec_same env w)
    | inr kept ↦ inr kept
  ]

  -- A transaction that succeeds has run its body, and leaves the tables that the body left.
  pub transaction_ok :
      (m : Sql T A) (env : Env) (w : World T) {a : A}
      → (transaction m env w).0 ≡ ok a
      → ((m env (begin env w)).0 ≡ ok a)
        × ((transaction m env w).1.tables ≡ (m env (begin env w)).1.tables)
  unfolding transaction
  transaction_ok m env w h = begun_ok m env (exec same_tables env w) h

-- An UPDATE or DELETE that succeeds has left the tables that it computes.
pub exec_ok :
    {T : Type 0} (f : Env → World T → T) (env : Env) (w : World T) {u : Unit {0}}
    → (exec f env w).0 ≡ ok u
    → (exec f env w).1.tables ≡ f env w
unfolding exec
exec_ok f env w h = (statement_ok (λ env w. (ok tt, f env w)) env w h).1
