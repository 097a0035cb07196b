-- ===== src/Registry/Secret.antt =====
-- Who may register under a name that is taken.
use a2a_platform_go.Prelude.{
  ℕ, String, ◌≡◌, refl, true, false, Option, none, some, List, ◌==◌, Bool-cases, inl, inr, arith,
  eq_iff,
}
use a2a_platform_go.Llm.{Outcome, done, failed}
use a2a_platform_go.Sql.{World, Result, ok, err}
use a2a_platform_go.Sql as Sql
use a2a_platform_go.Registry.Cards.{AgentCard, Skill, Codec}
use a2a_platform_go.Registry.Agents.{Agent, Table, get, upsert}
use a2a_platform_go.Registry.{
  AgentConnection, Registry, Net, register_agent, register_found, may_register, persist, persisted,
  with_card, or_external, agent_record, discover_card,
}

-- What a registration that returns a connection shows of the record that was found.
abbrev pub IsAllowed : String → Result (Option Agent) → Type 0
IsAllowed secret (err e) = Unit
IsAllowed secret (ok none) = Unit
IsAllowed secret (ok (some existing)) = (existing.secret ≡ secret) × ((secret == "") ≡ false)

abbrev pub HasSucceeded :
    String → Result (Option Agent) → Registry → Outcome AgentConnection × Registry → Type 0
HasSucceeded secret found r (done conn, u) = IsAllowed secret found
HasSucceeded secret found r (failed e, u) = u.connections ≡ r.connections

module _ (sql : Sql.Env) (codec : Codec) where
  may_register-some :
      (secret : String) (existing : Agent)
      → may_register sql codec secret (some existing) ≡ true
      → IsAllowed secret (ok (some existing))
  may_register-some secret existing h =
      ((eq_iff existing.secret secret).0 (ground (arith, h)), ground (arith, h))

  persisted-HasSucceeded :
      (secret name : String) (found : Result (Option Agent)) (a : Agent) (card : AgentCard)
      (r : Registry) (result : Result (Unit {0}) × World Table)
      → IsAllowed secret found
      → HasSucceeded secret found r (persisted sql codec name a card r result)
  persisted-HasSucceeded secret name found a card r (err e, w) h = refl
  persisted-HasSucceeded secret name found a card r (ok _, w) h = h

  with_card-HasSucceeded :
      (secret name type_name url : String) (port : ℕ) (skills : List Skill)
      (found : Result (Option Agent)) (r : Registry) (o : Outcome AgentCard)
      → IsAllowed secret found
      → HasSucceeded secret found r (with_card sql codec name type_name url port skills secret r o)
  unfolding persist
  with_card-HasSucceeded secret name type_name url port skills found r (failed e) h = refl
  with_card-HasSucceeded secret name type_name url port skills found r (done card) h =
      let row =
        agent_record sql codec name (or_external sql codec type_name) url port skills card secret
          r.world.now in
      persisted-HasSucceeded secret name found row card r (upsert row sql r.world) h

  allowed :
      (secret : String) (found : Option Agent)
      → may_register sql codec secret found ≡ true
      → IsAllowed secret (ok found)
  allowed secret none h = tt
  allowed secret (some existing) h = may_register-some secret existing h

  module _ (net : Net) (name type_name url : String) (port : ℕ) (skills : List Skill)
      (secret mode : String) (provided : Option AgentCard) (r : Registry) where
    register_found-HasSucceeded :
        (result : Result (Option Agent) × World Table)
        → HasSucceeded secret result.0 r (
            register_found sql codec net name type_name url port skills secret mode provided r
              result)
    register_found-HasSucceeded (err e, w) = refl
    register_found-HasSucceeded (ok existing, w) =
        elim (Bool-cases (may_register sql codec secret existing)) [
          | inl may ↦ elim (Bool-cases (url == "")) [
            | inl missing ↦ rw may (rw missing refl)
            | inr given ↦ rw may (
                rw given (
                  with_card-HasSucceeded secret name type_name url port skills (ok existing)
                    (record r { world = w })
                    (discover_card sql codec net name url skills mode provided)
                    (allowed secret existing may)))
          ]
          | inr refused ↦ rw refused refl
        ]

    -- A registration under a name for which a record is found returns a connection only if it gives
    -- the record's secret, and this is not empty; a registration that fails leaves the connections as
    -- they were.
    pub register_agent-HasSucceeded :
        HasSucceeded secret
          (get name sql r.world).0
          r
          (register_agent sql codec net name type_name url port skills secret mode provided r)
    unfolding register_agent
    register_agent-HasSucceeded = register_found-HasSucceeded (get name sql r.world)
