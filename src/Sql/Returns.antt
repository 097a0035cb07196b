-- ===== src/Sql/Returns.antt =====
-- What an action returns when it succeeds, one rule for each way to build an action.
use a2a_platform_go.Prelude.{◌≡◌, Bool, true, false, if◌then◌else◌, subst}
use a2a_platform_go.Sql.{Env, World, Sql, ok, pure, ◌>>=◌}
use a2a_platform_go.Sql.Invert.{bind_ok, ok_same}

-- Whatever `m` returns satisfies `R`.
pub record Returns {T A : Type 0} (R : A → Type 0) (m : Sql T A) : Type 0 where
  pub holds : (env : Env) (w : World T) (a : A) → (m env w).0 ≡ ok a → R a

module _ {T A : Type 0} {R : A → Type 0} where
  pub Returns-pure : (a : A) → R a → Returns R (pure {T = T} a)
  unfolding pure
  Returns-pure a r = record { holds = λ env w b e. subst R (ok_same a b e) r }

  pub Returns-if :
      (test : Bool) (first second : Sql T A)
      → Returns R first
      → Returns R second
      → Returns R (if test then first else second)
  Returns-if true first second r s = r
  Returns-if false first second r s = s

module _ {T A B : Type 0} {Q : A → Type 0} {R : B → Type 0} where
  -- What follows may use what the first action returned.
  pub Returns-bind :
      (m : Sql T A) (f : A → Sql T B)
      → Returns Q m
      → ((a : A) → Q a → Returns R (f a))
      → Returns R (m >>= f)
  Returns-bind m f q r = record {
    holds = λ env w b e.
        let (a, first, second, _) = bind_ok m f env w e in
        (r a (q.holds env w a first)).holds env (m env w).1 b second;
  }

pub Returns-any : {T A : Type 0} (m : Sql T A) → Returns (λ _. Unit {0}) m
Returns-any m = record { holds = λ env w a e. tt }
