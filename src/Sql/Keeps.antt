-- ===== src/Sql/Keeps.antt =====
-- Invariants of the tables, one rule for each way to build an action.
use a2a_platform_go.Prelude.{◌≡◌, refl, Bool, true, false, List, [], ◌∷◌, if◌then◌else◌}
use a2a_platform_go.Sql.{
  Env, World, Sql, Result, ok, err, Error, pure, raise, lift, asks, outcome, statement, query, exec,
  draw, ◌>>=◌, continue, transaction, begun, settle, unanswered, committed, same_tables,
}

-- `m` keeps `P` of the tables, whether it succeeds or fails.
pub record Keeps {T A : Type 0} (P : Env → T → Type 0) (m : Sql T A) : Type 0 where
  pub at : (env : Env) (w : World T) → P env w.tables → P env (m env w).1.tables

module _ {T A : Type 0} (Q : T → Type 0) where
  pub outcome_keeps :
      (faults : List Bool) (r : Result A × T) (w : World T)
      → Q w.tables
      → Q r.1
      → Q (outcome faults r w).1.tables
  outcome_keeps [] (r, t) w h k = k
  outcome_keeps (true ∷ rest) (r, t) w h k = h
  outcome_keeps (false ∷ rest) (r, t) w h k = k

module _ {T A : Type 0} {P : Env → T → Type 0} where
  pub Keeps-pure : (a : A) → Keeps P (pure {T = T} a)
  unfolding pure
  Keeps-pure a = record { at = λ env w h. h }

  pub Keeps-raise : (e : Error) → Keeps P (raise {T = T} {A = A} e)
  unfolding raise
  Keeps-raise e = record { at = λ env w h. h }

  pub Keeps-lift : (r : Result A) → Keeps P (lift {T = T} r)
  unfolding lift
  Keeps-lift r = record { at = λ env w h. h }

  pub Keeps-asks : (f : Env → World T → A) → Keeps P (asks f)
  unfolding asks
  Keeps-asks f = record { at = λ env w h. h }

  pub Keeps-statement :
      (f : Env → World T → Result A × T)
      → ((env : Env) (w : World T) → P env w.tables → P env (f env w).1)
      → Keeps P (statement f)
  unfolding statement
  Keeps-statement f keep = record {
    at = λ env w h. outcome_keeps (P env) w.faults (f env w) w h (keep env w h);
  }

  pub Keeps-query : (f : Env → World T → Result A) → Keeps P (query f)
  unfolding query
  Keeps-query f = Keeps-statement (λ env w. (f env w, w.tables)) (λ env w h. h)

  pub Keeps-if :
      (test : Bool) (first second : Sql T A)
      → (test ≡ true → Keeps P first)
      → (test ≡ false → Keeps P second)
      → Keeps P (if test then first else second)
  Keeps-if true first second keep_first keep_second = keep_first refl
  Keeps-if false first second keep_first keep_second = keep_second refl

module _ {T : Type 0} {P : Env → T → Type 0} where
  pub Keeps-exec :
      (f : Env → World T → T)
      → ((env : Env) (w : World T) → P env w.tables → P env (f env w))
      → Keeps P (exec f)
  unfolding exec
  Keeps-exec f keep = Keeps-statement (λ env w. (ok tt, f env w)) keep

  pub Keeps-draw : Keeps P draw
  unfolding draw
  Keeps-draw = record { at = λ env w h. h }

  Keeps-same : Keeps P (exec same_tables)
  Keeps-same = Keeps-exec same_tables (λ env w h. h)

module _ {T A B : Type 0} {P : Env → T → Type 0} where
  continue_keeps :
      (env : Env) (r : Result A) (f : A → Sql T B) (w : World T)
      → ((a : A) → Keeps P (f a))
      → P env w.tables
      → P env (continue r (λ a. f a env) w).1.tables
  continue_keeps env (ok a) f w kf h = (kf a).at env w h
  continue_keeps env (err e) f w kf h = h

  pub Keeps-bind :
      (head : Sql T A) (tail : A → Sql T B)
      → Keeps P head
      → ((x : A) → Keeps P (tail x))
      → Keeps P (head >>= tail)
  unfolding ◌>>=◌
  Keeps-bind head tail first later = record {
    at = λ env w h.
        let (r, w') = head env w in continue_keeps env r tail w' later (first.at env w h);
  }

unanswered_keeps :
    {T : Type 0} (P : Env → T → Type 0) (env : Env) (t : T) (faults : List Bool) (w : World T)
    → P env t
    → P env w.tables
    → P env (unanswered t faults w).tables
unanswered_keeps P env t [] w h k = h
unanswered_keeps P env t (true ∷ rest) w h k = k
unanswered_keeps P env t (false ∷ rest) w h k = h

module _ {T A : Type 0} (P : Env → T → Type 0) where
  committed_keeps :
      (env : Env) (t : T) (a : A) (r : Result (Unit {0}) × World T)
      → P env t
      → P env r.1.tables
      → P env (committed t a r).1.tables
  committed_keeps env t a (ok _, w) h k = k
  committed_keeps env t a (err e, w) h k = unanswered_keeps P env t w.faults w h k

  settle_keeps :
      (env : Env) (t : T) (r : Result A × World T)
      → P env t
      → P env r.1.tables
      → P env (settle env t r).1.tables
  settle_keeps env t (ok a, w) h k =
      committed_keeps env t a (exec same_tables env w) h ((Keeps-same {P = P}).at env w k)
  settle_keeps env t (err e, w) h k = h

  begun_keeps :
      (env : Env) (m : Sql T A) (r : Result (Unit {0}) × World T)
      → Keeps P m
      → P env r.1.tables
      → P env (begun m env r).1.tables
  begun_keeps env m (ok _, w) km h = settle_keeps env w.tables (m env w) h (km.at env w h)
  begun_keeps env m (err e, w) km h = h

-- Rolled back or committed, a transaction keeps what its body keeps.
pub Keeps-transaction :
    {T A : Type 0} {P : Env → T → Type 0} (m : Sql T A) → Keeps P m → Keeps P (transaction m)
unfolding transaction
Keeps-transaction {P} m km = record {
  at = λ env w h. begun_keeps P env m (exec same_tables env w) km ((Keeps-same {P = P}).at env w h);
}

pub ruleset keeps_rules = (
  Keeps-query, Keeps-transaction, Keeps-draw, Keeps-bind, Keeps-asks, Keeps-pure, Keeps-raise,
  Keeps-lift, Keeps-if,
)

-- The same for one state, where what follows may use what the first action returned.
module _ {T A B : Type 0} (Q : T → Type 0) (f : A → Sql T B) (env : Env) where
  continue_step :
      (r : Result A × World T)
      → Q r.1.tables
      → ((a : A) → r.0 ≡ ok a → Q (f a env r.1).1.tables)
      → Q (continue r.0 (λ a. f a env) r.1).1.tables
  continue_step (ok a, w) h next = next a refl
  continue_step (err e, w) h next = h

  pub bind_step :
      (m : Sql T A) (w : World T)
      → Q (m env w).1.tables
      → ((a : A) → (m env w).0 ≡ ok a → Q (f a env (m env w).1).1.tables)
      → Q ((m >>= f) env w).1.tables
  unfolding ◌>>=◌
  bind_step m w h next = continue_step (m env w) h next
