-- ===== src/Group/Invites/Agree.antt =====
-- InviteUsable, which the handler asks, and the condition of the UPDATE in consumeInvite.
use a2a_platform_go.Prelude.{ℕ, String, ◌≡◌, Bool, true, ◌&&◌, ◌||◌, ◌==◌, arith, eq_iff, eq_refl}
use a2a_platform_go.Sql.{Env}
use a2a_platform_go.Group.{GroupInvite, same_text, normalize_actor_type}
use a2a_platform_go.Group.Invites.{usable, consumable}

-- The actor type that an invite is for.
abbrev pub is_allowed : GroupInvite → String → Bool
is_allowed i actor_type =
    i.actor_type_allowed == "" || i.actor_type_allowed == normalize_actor_type actor_type

active_text : (env : Env) (s : String) → s == "active" ≡ true → same_text env s "active" ≡ true
active_text env s h =
    let e : s ≡ "active" = (eq_iff s "active").0 h in rw e (eq_refl (env.collation "active"))

-- At one instant the handler's test of an invite is the test of the database, the actor's type and
-- the exact spelling of the status.
pub usable_lem :
    (env : Env) (i : GroupInvite) (actor_type : String) (now : ℕ)
    → usable i actor_type now
      ≡ (i.status == "active" && is_allowed i actor_type && consumable env now i)
unfolding usable consumable
usable_lem env i actor_type now = ground (arith, active_text env i.status)
