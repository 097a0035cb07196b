-- ===== src/Posting/Sender.antt =====
-- Who may post under which name.
use a2a_platform_go.Prelude.{
  String, ◌≡◌, refl, true, false, inl, inr, Option, none, some, ◌==◌, ◌&&◌, Bool-cases,
}
use a2a_platform_go.Prelude.Text.{trim_space}
use a2a_platform_go.Sql.{Env, World}
use a2a_platform_go.Sql.Keeps.{Keeps, Keeps-bind, Keeps-query, Keeps-pure}
use a2a_platform_go.Group.{Group, Tables}
use a2a_platform_go.Group.Groups
use a2a_platform_go.Auth.{
  Headers, get_header, auth_principal_header, auth_actor_type_header, auth_actor_id_header,
}
use a2a_platform_go.Turn.{Platform}
use a2a_platform_go.Posting.{
  EventReq, is_member_principal, is_own, post_decoded, post_to, post_event,
}

module _ (P : Env → Tables → Type 0) (p : Platform) (headers : Headers) (req : EventReq)
    (member : is_member_principal headers ≡ true) (forged : is_own headers req ≡ false) where
  post_decoded-Keeps : (group : Group) → Keeps P (post_decoded p headers group (some req))
  post_decoded-Keeps group = elim (Bool-cases (trim_space req.sender_id == "")) [
    | inl nameless ↦ rw nameless (Keeps-pure _)
    | inr named ↦ rw named (rw member (rw forged (Keeps-pure _)))
  ]

  post_to-Keeps : (group : Option Group) → Keeps P (post_to p headers (some req) group)
  post_to-Keeps none = Keeps-pure _
  post_to-Keeps (some group) = elim (Bool-cases (group.orchestration_mode == "p2p")) [
    | inl direct ↦ rw direct (Keeps-pure _)
    | inr group_chat ↦ rw group_chat (post_decoded-Keeps group)
  ]

  post_event-Keeps : (group_id : String) → Keeps P (post_event p headers (some req) group_id)
  unfolding post_event Groups.get
  post_event-Keeps group_id =
      Keeps-bind (Groups.get group_id) (post_to p headers (some req)) (Keeps-query _) post_to-Keeps

-- A member that posts an event under another actor's type or name than its principal headers give
-- changes nothing: every table of the groups is as it was.
pub post_event-forged :
    (p : Platform) (headers : Headers) (req : EventReq) (group_id : String) (env : Env)
    (w : World Tables)
    → (get_header auth_principal_header headers == "member") ≡ true
    → (req.sender_type == get_header auth_actor_type_header headers
        && trim_space req.sender_id == get_header auth_actor_id_header headers)
      ≡ false
    → (post_event p headers (some req) group_id env w).1.tables ≡ w.tables
unfolding is_member_principal is_own
post_event-forged p headers req group_id env w member forged =
    (post_event-Keeps (λ env t. t ≡ w.tables) p headers req member forged group_id).at env w refl
