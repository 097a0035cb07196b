-- ===== src/Registry/Checks.antt =====
-- What the first phase of a health check makes of one agent.
use a2a_platform_go.Prelude.{
  ℕ, ◌+◌, String, ◌≡◌, refl, sym, ◌∙◌, subst, ap, Bool, true, false, Option, none, some, List, [],
  ◌∷◌, ◌==◌, leb, find, delete, Bool-cases, inl, inr, eq_refl, eq_iff, if◌then◌else◌,
}
use a2a_platform_go.Sql.{World, Result, ok, err}
use a2a_platform_go.Sql as Sql
use a2a_platform_go.Registry.Cards.{Codec}
use a2a_platform_go.Registry.{
  AgentConnection, Registry, Net, is_key, put, get_client, disconnect, forget_failures,
}
use a2a_platform_go.Registry.Health.{
  failures, Verdict, healthy, failing, verdict, record_failure, apply_verdict, phase_a,
}
use a2a_platform_go.Registry.Consecutive.{is_connected, find-deleted, find-delete_other}

abbrev pub Connections : Type 0
Connections = List (String × AgentConnection)

-- No name stands twice, as in a Go map.
abbrev pub IsMap : Connections → Type 0
IsMap [] = Unit
IsMap (e ∷ entries) = (find (is_key e.0) entries ≡ none) × IsMap entries

none-delete :
    (name other : String) (entries : Connections)
    → find (is_key name) entries ≡ none
    → find (is_key name) (delete (is_key other) entries) ≡ none
none-delete name other entries h = elim (Bool-cases (other == name)) [
  | inl same ↦ rw (sym ((eq_iff other name).0 same)) (find-deleted (is_key other) entries)
  | inr differ ↦ find-delete_other name other entries differ ∙ h
]

pub IsMap-delete :
    (name : String) (entries : Connections) → IsMap entries → IsMap (delete (is_key name) entries)
unfolding delete
IsMap-delete name [] h = tt
IsMap-delete name (e ∷ entries) (fresh, h) = elim (Bool-cases (e.0 == name)) [
  | inl same ↦ rw same (IsMap-delete name entries h)
  | inr differ ↦ rw differ (none-delete e.0 name entries fresh, IsMap-delete name entries h)
]

pub IsMap-put :
    (name : String) (conn : AgentConnection) (entries : Connections)
    → IsMap entries
    → IsMap (put name conn entries)
unfolding put
IsMap-put name conn entries h = (find-deleted (is_key name) entries, IsMap-delete name entries h)

none-parts :
    (name : String) (e : String × AgentConnection) (entries : Connections)
    → find (is_key name) (e ∷ entries) ≡ none
    → (e.0 == name ≡ false) × (find (is_key name) entries ≡ none)
unfolding find
none-parts name e entries h = elim (Bool-cases (e.0 == name)) [
  | inl same ↦ let there : some e ≡ none = rw same at h in cc
  | inr differ ↦ (differ, rw differ at h)
]

-- Whether an agent is connected, and how many failures are counted of it.
abbrev pub status : String → Registry → Bool × ℕ
status name r = (is_connected name r, failures name r)

-- What the first phase makes of it: the agent is not looked at, or in health, or fails.
abbrev pub after : Option Bool → Bool × ℕ → Bool × ℕ
after none s = s
after (some false) s = (s.0, 0)
after (some true) s = (if leb 3 (s.1 + 1) then false else s.0, s.1 + 1)

abbrev pub is_failing : Verdict → Bool
is_failing healthy = false
is_failing (failing status reason) = true

abbrev pub told : Option Bool → List Bool → List Bool
told none fails = fails
told (some fails) later = fails ∷ later

module _ (sql : Sql.Env) (codec : Codec) where
  -- Whether the first phase finds the agent failing; none if it does not look at it.
  abbrev pub looked : Net → Option (String × AgentConnection) → Option Bool
  looked net none = none
  looked net (some (key, conn)) =
      if conn.url == "" then none else some (is_failing (verdict sql codec net conn))

  record_failure-own :
      (name reported reason : String) (r : Registry)
      → status name (record_failure sql codec name reported reason r)
        ≡ after (some true) (status name r)
  unfolding record_failure failures get_client find put disconnect
  record_failure-own name reported reason r = elim (Bool-cases (leb 3 (failures name r + 1))) [
    | inl many ↦ rw many (rw (find-deleted (is_key name) r.connections) (rw (eq_refl name) refl))
    | inr few ↦ rw few (rw (eq_refl name) refl)
  ]

  apply_verdict-own :
      (name : String) (v : Verdict) (r : Registry)
      → status name (apply_verdict sql codec name v r) ≡ after (some (is_failing v)) (status name r)
  unfolding apply_verdict failures get_client forget_failures
  apply_verdict-own name healthy r = rw (find-deleted (is_key name) r.fail_counts) refl
  apply_verdict-own name (failing reported reason) r = record_failure-own name reported reason r

  apply_verdict-other :
      (name other : String) (v : Verdict) (r : Registry)
      → (other == name) ≡ false
      → status name (apply_verdict sql codec other v r) ≡ status name r
  unfolding apply_verdict record_failure failures get_client forget_failures find put disconnect
  apply_verdict-other name other healthy r differ =
      rw (find-delete_other name other r.fail_counts differ) refl
  apply_verdict-other name other (failing reported reason) r differ =
      elim (Bool-cases (leb 3 (failures other r + 1))) [
        | inl many ↦
            rw
              (
                many,
                differ,
                find-delete_other name other r.fail_counts differ,
                find-delete_other name other r.connections differ,
              )
              refl
        | inr few ↦ rw (few, differ, find-delete_other name other r.fail_counts differ) refl
      ]

  abbrev pub looked_at : Net → String × AgentConnection → Registry → Registry
  looked_at net (key, conn) r =
      if conn.url == "" then r else apply_verdict sql codec key (verdict sql codec net conn) r

  looked_at-other :
      (net : Net) (name : String) (e : String × AgentConnection) (r : Registry)
      → (e.0 == name) ≡ false
      → status name (looked_at net e r) ≡ status name r
  looked_at-other net name (key, conn) r differ = elim (Bool-cases (conn.url == "")) [
    | inl idle ↦ rw idle refl
    | inr used ↦ rw used (apply_verdict-other name key (verdict sql codec net conn) r differ)
  ]

  looked_at-own :
      (net : Net) (key : String) (conn : AgentConnection) (r : Registry)
      → status key (looked_at net (key, conn) r)
        ≡ after (looked net (some (key, conn))) (status key r)
  looked_at-own net key conn r = elim (Bool-cases (conn.url == "")) [
    | inl idle ↦ rw idle refl
    | inr used ↦ rw used (apply_verdict-own key (verdict sql codec net conn) r)
  ]

  phase_a-none :
      (net : Net) (name : String) (entries : Connections) (r : Registry)
      → find (is_key name) entries ≡ none
      → status name (phase_a sql codec net entries r) ≡ status name r
  unfolding phase_a
  phase_a-none net name [] r h = refl
  phase_a-none net name (e ∷ entries) r h =
      let (differ, rest) = none-parts name e entries h in
      phase_a-none net name entries (looked_at net e r) rest ∙ looked_at-other net name e r differ

  pub phase_a-status :
      (net : Net) (name : String) (entries : Connections) (r : Registry)
      → IsMap entries
      → status name (phase_a sql codec net entries r)
        ≡ after (looked net (find (is_key name) entries)) (status name r)
  unfolding phase_a find
  phase_a-status net name [] r h = refl
  phase_a-status net name ((key, conn) ∷ entries) r (fresh, h) = elim (Bool-cases (key == name)) [
    | inl same ↦
        let e : key ≡ name = (eq_iff key name).0 same in
        rw same (
          phase_a-none net name entries (looked_at net (key, conn) r)
            (subst (λ k. find (is_key k) entries ≡ none) e fresh)
          ∙ subst
              (λ k.
                status k (looked_at net (key, conn) r)
                ≡ after (looked net (some (key, conn))) (status k r))
              e (looked_at-own net key conn r))
    | inr differ ↦ rw differ (
        phase_a-status net name entries (looked_at net (key, conn) r) h
        ∙ ap (after (looked net (find (is_key name) entries)))
            (looked_at-other net name (key, conn) r differ))
  ]
