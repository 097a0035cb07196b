-- ===== src/Task/Order/Steps.antt =====
-- The statements that change the table of tasks, and the tools, keep its order.
use a2a_platform_go.Prelude.{
  ℕ, String, ◌≡◌, refl, sym, ◌∙◌, subst, true, false, Option, some, List, [], ◌∷◌, ◌++◌, ◌==◌,
  eq_iff, eq_refl, arith, find, update, Option-cases, inl, inr, All-update, All-append, All-map,
  All-both,
}
use mathlib.Core.Option.{some-injective}
use a2a_platform_go.Prelude.Tables.{IsKeyed-update, IsKeyed-insert, IsKeyed-found, find-append}
use a2a_platform_go.Sql.{Env, World}
use a2a_platform_go.Sql.Keeps.{outcome_keeps}
use a2a_platform_go.Task.{Row, Tasks, has_id, same_text, is_pending, insert_row, claim}
use a2a_platform_go.Task.Order.{
  IsOrdered, id_key, startable, started, deps_done, deps_done_mono, Grows, Grows-update,
}

module _ (unmarshal : String → Option (List String)) where
  -- A row that may be in progress or completed has its dependencies completed.
  abbrev pub Ready : Env → Tasks → Row → Type 0
  Ready env t r = started r.status ≡ true → deps_done unmarshal env t r ≡ true

  Ready-mono :
      {env : Env} {t u : Tasks} (r : Row) → Grows unmarshal env t u → Ready env t r → Ready env u r
  Ready-mono r g h s = deps_done_mono unmarshal r g (h s)

  Grows-append : {env : Env} (r : Row) (t : Tasks) → Grows unmarshal env t (t ++ r ∷ [])
  Grows-append {env} r t = record {
    stays = λ d done. rw (find-append (has_id env d) t (r ∷ [])) (ground arith);
  }

  module _ (env : Env) (separates : same_text env "pending" "completed" ≡ false) where
    pending_not_completed :
        (s : String) → same_text env "pending" s ≡ true → s == "completed" ≡ true → ⊥
    pending_not_completed s h d =
        let e : s ≡ "completed" = (eq_iff s "completed").0 d in
        let both : same_text env "pending" "completed" ≡ true = rw e at h in cc

    has_id_of_pending :
        (id : String) (r : Row) → is_pending env id r ≡ true → has_id env id r ≡ true
    has_id_of_pending id r h = ground arith

    abbrev pub claim_row : String → Row → Row
    claim_row owner r = record r { owner = owner; status = "in_progress" }

    claim-Grows :
        (id owner : String) (t : Tasks)
        → Grows unmarshal env t (update (is_pending env id) (claim_row owner) t)
    claim-Grows id owner t =
        Grows-update unmarshal env (is_pending env id) (claim_row owner) t (λ r. refl)
          (λ r pending done. absurd (pending_not_completed r.status (ground arith) done))

    claim-IsOrdered :
        (id owner : String) (t : Tasks)
        → startable unmarshal env t (find (has_id env id) t) ≡ true
        → IsOrdered unmarshal env t
        → IsOrdered unmarshal env (update (is_pending env id) (claim_row owner) t)
    claim-IsOrdered id owner t may h =
        let p = is_pending env id in
        let g = claim-Grows id owner t in
        record {
          keyed = IsKeyed-update ◌==◌ eq_iff (id_key env) p (claim_row owner) t (λ r. refl) h.keyed;
          ordered =
              All-update _ _ p (claim_row owner) t
                (λ r hit both s. deps_done_mono unmarshal r g (
                  subst (λ o. startable unmarshal env t o ≡ true)
                    (both.1 (has_id_of_pending id r hit)) may))
                (λ r missed both. Ready-mono r g both.0)
                (All-both _ _ t h.ordered
                  (IsKeyed-found ◌==◌ eq_iff (id_key env) (env.collation id) t h.keyed));
        }

    -- TaskItemStore.Claim, whether or not it finds its row, behind a CanStart that said yes.
    pub claim_after_can_start :
        (id owner : String) (w : World Tasks)
        → startable unmarshal env w.tables (find (has_id env id) w.tables) ≡ true
        → IsOrdered unmarshal env w.tables
        → IsOrdered unmarshal env (claim id owner env w).1.tables
    unfolding claim
    claim_after_can_start id owner w may h =
        outcome_keeps (IsOrdered unmarshal env) w.faults _ w h
          (claim-IsOrdered id owner w.tables may h)

    pub insert-IsOrdered :
        (r : Row) (w : World Tasks)
        → started r.status ≡ false
        → IsOrdered unmarshal env w.tables
        → IsOrdered unmarshal env (insert_row r env w).1
    unfolding insert_row
    insert-IsOrdered r w fresh h = elim (Option-cases (find (has_id env r.id) w.tables)) [
      | inr (old, taken) ↦ rw taken h
      | inl free ↦ rw free (record {
        keyed = IsKeyed-insert ◌==◌ eq_iff (id_key env) r w.tables free h.keyed;
        ordered =
            All-append _ w.tables (r ∷ [])
              (All-map _ _ w.tables
                (λ x ready. Ready-mono {env = env} x (Grows-append r w.tables) ready) h.ordered)
              (λ s. cc, tt);
      })
    ]

    abbrev pub final_row : ℕ → String → Row → Row
    final_row now result r = record r {
      status = "completed";
      result = some result;
      error = some "";
      completed_at = some now;
    }

    pub complete-IsOrdered :
        (id result : String) (now : ℕ) (t : Tasks) (r : Row)
        → find (has_id env id) t ≡ some r
        → started r.status ≡ true
        → IsOrdered unmarshal env t
        → IsOrdered unmarshal env (update (has_id env id) (final_row now result) t)
    complete-IsOrdered id result now t r found s h =
        let p = has_id env id in
        let f = final_row now result in
        let g = Grows-update unmarshal env p f t (λ r. refl) (λ r hit done. eq_refl "completed") in
        record {
          keyed = IsKeyed-update ◌==◌ eq_iff (id_key env) p f t (λ r. refl) h.keyed;
          ordered =
              All-update _ _ p f t
                (λ x hit both _. deps_done_mono unmarshal x g (
                  both.0 (
                    subst (λ (y : Row). started y.status ≡ true)
                      (some-injective r x (sym found ∙ both.1 hit)) s)))
                (λ x missed both. Ready-mono x g both.0)
                (All-both _ _ t h.ordered
                  (IsKeyed-found ◌==◌ eq_iff (id_key env) (env.collation id) t h.keyed));
        }
