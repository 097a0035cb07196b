-- ===== src/Registry/Steady.antt =====
-- A connected agent through a sequence of whole health checks.
use a2a_platform_go.Prelude.{
  ℕ, ◌+◌, ◌≤◌, String, ◌≡◌, refl, sym, ◌∙◌, subst, ap, Bool, true, false, Option, none, some, List,
  [], ◌∷◌, ◌==◌, leb, find, Bool-cases, inl, inr, eq_iff, arith,
}
use a2a_platform_go.Sql.{World, Result, ok, err}
use a2a_platform_go.Sql as Sql
use a2a_platform_go.Registry.Cards.{AgentCard, Codec, parse_stored_static_card}
use a2a_platform_go.Registry.Agents.{Agent, Table, list}
use a2a_platform_go.Llm.{Outcome, done, failed}
use a2a_platform_go.Registry.{
  AgentConnection, Registry, Net, is_key, get_client, connect, disconnect, forget_failures,
}
use a2a_platform_go.Registry.Health.{
  failures, Verdict, healthy, failing, verdict, record_failure, apply_verdict, reconnected,
  try_stored, needs_nothing, try_reconnect, static_again, fetched_again, phase_a, phase_b, listed,
  run_health_check,
}
use a2a_platform_go.Registry.Consecutive.{
  is_connected, three_in_a_row, streak, streak_lem, find-deleted, find-delete_other,
}
use a2a_platform_go.Registry.Recovery.{phase_b-kept}
use a2a_platform_go.Registry.Checks.{
  Connections, IsMap, IsMap-delete, IsMap-put, status, after, told, looked, looked_at,
  phase_a-status,
}

module _ (sql : Sql.Env) (codec : Codec) where
  -- Health checks, one after the other, each with what the network answers during it.
  unfoldable pub run_checks : List Net → Registry → Registry
  unfolding run_health_check
  run_checks [] r = r
  run_checks (net ∷ nets) r = run_checks nets (run_health_check sql codec net r)

  -- Which of the checks that look at the agent find it failing.
  unfoldable pub found_failing : String → List Net → Registry → List Bool
  unfolding run_health_check verdict find
  found_failing name [] r = []
  found_failing name (net ∷ nets) r =
      told (looked sql codec net (find (is_key name) r.connections))
        (found_failing name nets (run_health_check sql codec net r))

  record_failure-IsMap :
      (name reported reason : String) (r : Registry)
      → IsMap r.connections
      → IsMap (record_failure sql codec name reported reason r).connections
  unfolding record_failure disconnect
  record_failure-IsMap name reported reason r h = elim (Bool-cases (leb 3 (failures name r + 1))) [
    | inl many ↦ rw many (IsMap-delete name r.connections h)
    | inr few ↦ rw few h
  ]

  apply_verdict-IsMap :
      (name : String) (v : Verdict) (r : Registry)
      → IsMap r.connections
      → IsMap (apply_verdict sql codec name v r).connections
  unfolding apply_verdict forget_failures
  apply_verdict-IsMap name healthy r h = h
  apply_verdict-IsMap name (failing reported reason) r h =
      record_failure-IsMap name reported reason r h

  looked_at-IsMap :
      (net : Net) (e : String × AgentConnection) (r : Registry)
      → IsMap r.connections
      → IsMap (looked_at sql codec net e r).connections
  looked_at-IsMap net (key, conn) r h = elim (Bool-cases (conn.url == "")) [
    | inl idle ↦ rw idle h
    | inr used ↦ rw used (apply_verdict-IsMap key (verdict sql codec net conn) r h)
  ]

  phase_a-IsMap :
      (net : Net) (entries : Connections) (r : Registry)
      → IsMap r.connections
      → IsMap (phase_a sql codec net entries r).connections
  unfolding phase_a
  phase_a-IsMap net [] r h = h
  phase_a-IsMap net (e ∷ entries) r h =
      phase_a-IsMap net entries (looked_at sql codec net e r) (looked_at-IsMap net e r h)

  -- What the second phase keeps: no name stands twice, and no failure is counted.
  abbrev Within : String → ℕ → Registry → Type 0
  Within name n r = IsMap r.connections × (failures name r ≤ n)

  forget_failures_le :
      (name other : String) (r : Registry)
      → failures name (forget_failures other r) ≤ failures name r
  unfolding failures forget_failures
  forget_failures_le name other r = elim (Bool-cases (other == name)) [
    | inl same ↦
        let e : other ≡ name = (eq_iff other name).0 same in
        subst (λ k. failures name (forget_failures k r) ≤ failures name r) (sym e)
          (rw (find-deleted (is_key name) r.fail_counts) (omega arith))
    | inr differ ↦ rw (find-delete_other name other r.fail_counts differ) (omega arith)
  ]

  reconnected-Within :
      (name : String) (n : ℕ) (a : Agent) (card : AgentCard) (r : Registry)
      → Within name n r
      → Within name n (reconnected sql codec a card r)
  unfolding reconnected connect failures forget_failures
  reconnected-Within name n a card r (h, few) =
      let fewer = forget_failures_le name a.name r in
      (
        IsMap-put a.name (record { card = card; url = a.url }) r.connections h,
        omega (arith, fewer, few),
      )

  static_again-Within :
      (name : String) (n : ℕ) (a : Agent) (card : AgentCard) (o : Outcome (Unit {0})) (r : Registry)
      → Within name n r
      → Within name n (static_again sql codec a card o r)
  static_again-Within name n a card (done _) r h = reconnected-Within name n a card r h
  static_again-Within name n a card (failed e) r h = h

  fetched_again-Within :
      (name : String) (n : ℕ) (a : Agent) (o : Outcome AgentCard) (r : Registry)
      → Within name n r
      → Within name n (fetched_again sql codec a o r)
  fetched_again-Within name n a (done card) r h = reconnected-Within name n a _ r h
  fetched_again-Within name n a (failed e) r h = h

  try_stored-Within :
      (name : String) (n : ℕ) (net : Net) (a : Agent) (stored : Option AgentCard) (r : Registry)
      → Within name n r
      → Within name n (try_stored sql codec net a stored r)
  try_stored-Within name n net a none r h = fetched_again-Within name n a _ r h
  try_stored-Within name n net a (some card) r h = static_again-Within name n a card _ r h

  phase_b-Within :
      (name : String) (n : ℕ) (net : Net) (records : List Agent) (r : Registry)
      → Within name n r
      → Within name n (phase_b sql codec net records r)
  unfolding phase_b try_reconnect
  phase_b-Within name n net [] r h = h
  phase_b-Within name n net (a ∷ records) r h =
      phase_b-Within name n net records (try_reconnect sql codec net a r)
        (elim (Bool-cases (needs_nothing sql codec a)) [
          | inl idle ↦ rw idle h
          | inr lost ↦ rw lost (
              try_stored-Within name n net a (parse_stored_static_card codec a.agent_card_json) r h)
        ])

  abbrev IsSteady : String → ℕ → Registry → Type 0
  IsSteady name n r = Within name n r × (is_connected name r ≡ true)

  listed-IsSteady :
      (name : String) (n : ℕ) (net : Net) (r : Registry)
      (result : Result (List Agent) × World Table)
      → IsSteady name n r
      → IsSteady name n (listed sql codec net r result)
  unfolding failures get_client
  listed-IsSteady name n net r (err e, w) h = h
  listed-IsSteady name n net r (ok records, w) (h, on) =
      let r' : Registry = record r { world = w } in
      (phase_b-Within name n net records r' h, phase_b-kept sql codec net name records r' on)

  -- A check keeps what its first phase leaves.
  check-IsSteady :
      (name : String) (n : ℕ) (net : Net) (r : Registry)
      → IsMap r.connections
      → (after (looked sql codec net (find (is_key name) r.connections)) (status name r)).0 ≡ true
      → (after (looked sql codec net (find (is_key name) r.connections)) (status name r)).1 ≤ n
      → IsSteady name n (run_health_check sql codec net r)
  unfolding run_health_check
  check-IsSteady name n net r h on few =
      let first = phase_a sql codec net r.connections r in
      let left = phase_a-status sql codec net name r.connections r h in
      let count : failures name first ≡ _ = ap (λ s. s.1) left in
      listed-IsSteady name n net first (list "" sql first.world)
        ((phase_a-IsMap net r.connections r h, omega (arith, count, few)), ap (λ s. s.0) left ∙ on)

  check_step :
      (name : String) (n : ℕ) (net : Net) (r : Registry) (flag : Option Bool) (later : List Bool)
      → looked sql codec net (find (is_key name) r.connections) ≡ flag
      → IsSteady name n r
      → streak n (told flag later) ≡ false
      → (m : ℕ) × IsSteady name m (run_health_check sql codec net r) × (streak m later ≡ false)
  unfolding streak
  check_step name n net r none later e ((h, few), on) s =
      (n, check-IsSteady name n net r h (rw e on) (rw e few), s)
  check_step name n net r (some false) later e ((h, few), on) s =
      (0, check-IsSteady name 0 net r h (rw e on) (rw e (omega arith)), s)
  check_step name n net r (some true) later e ((h, few), on) s =
      let enough : leb 3 (failures name r + 1) ≡ false = ground (arith, few, s) in
      let next : streak (n + 1) later ≡ false = ground (arith, s) in
      (
        n + 1,
        check-IsSteady name (n + 1) net r h (rw (e, enough) on) (rw e (omega (arith, few))),
        next,
      )

  streak-connected :
      (name : String) (n : ℕ) (nets : List Net) (r : Registry)
      → IsSteady name n r
      → streak n (found_failing name nets r) ≡ false
      → is_connected name (run_checks nets r) ≡ true
  unfolding run_checks found_failing
  streak-connected name n [] r (h, on) s = on
  streak-connected name n (net ∷ nets) r h s =
      let r' = run_health_check sql codec net r in
      let (m, steady, later) =
        check_step name n net r (looked sql codec net (find (is_key name) r.connections))
          (found_failing name nets r') refl h s in
      streak-connected name m nets r' steady later

  -- A connected agent with no failure counted is connected after any number of whole health checks
  -- unless three of those that look at it, directly after one another, find it failing.
  pub run_checks-connected :
      (name : String) (nets : List Net) (r : Registry)
      → IsMap r.connections
      → is_connected name r ≡ true
      → failures name r ≡ 0
      → three_in_a_row (found_failing name nets r) ≡ false
      → is_connected name (run_checks nets r) ≡ true
  run_checks-connected name nets r h on count apart =
      let (same, one, two) = streak_lem (found_failing name nets r) in
      streak-connected name 0 nets r ((h, omega (arith, count)), on) (same ∙ apart)

  -- Where two failures or more are counted of an agent and a health check looks at it and finds it
  -- failing, it is not connected when the first phase of the check ends.
  pub phase_a-given_up :
      (name : String) (net : Net) (r : Registry)
      → IsMap r.connections
      → 2 ≤ failures name r
      → looked sql codec net (find (is_key name) r.connections) ≡ some true
      → is_connected name (phase_a sql codec net r.connections r) ≡ false
  phase_a-given_up name net r h two fails =
      let third : leb 3 (failures name r + 1) ≡ true = ground (arith, two) in
      ap (λ s. s.0) (phase_a-status sql codec net name r.connections r h) ∙ rw (fails, third) refl
