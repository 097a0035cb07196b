-- ===== src/Turn/Eligible.antt =====
-- Whom freeChatCandidates names.
use a2a_platform_go.Prelude.{
  String, ◌≡◌, refl, ◌∙◌, ap, Bool, true, false, ◌&&◌, ◌||◌, not, List, [], ◌∷◌, ◌==◌, arith,
  if◌then◌else◌, any, eq_iff, eq_refl,
}
use a2a_platform_go.Group.{GroupMember}
use a2a_platform_go.Turn.Candidates.{may_speak, candidates_after, free_chat_candidates}

abbrev pub contains : String → List String → Bool
contains a names = any (λ s. s == a) names

-- The member is an agent, no observer, not the agent that sent the message, and its actor is `a`.
abbrev pub is_eligible : String → String → String → GroupMember → Bool
is_eligible sender_type sender_id a m =
    (m.actor_type == "agent"
      && not (m.role == "observer")
      && not (sender_type == "agent" && m.actor_id == sender_id))
    && m.actor_id == a

-- No name stands twice.
unfoldable pub distinct : List String → Bool
distinct [] = true
distinct (a ∷ names) = not (contains a names) && distinct names

-- The choice that freeChatCandidates makes at a member, for any answers to its two questions.
abbrev choice : Bool → Bool → List String → List String → String → List String
choice may seen skip rest actor = if not may then skip else if seen then skip else actor ∷ rest

contains-choice :
    (a actor : String) (may seen : Bool) (skip rest : List String)
    → contains a (choice may seen skip rest actor) ≡ (
        if not may
        then contains a skip
        else if seen
        then contains a skip
        else actor == a || contains a rest)
unfolding any
contains-choice a actor true true skip rest = refl
contains-choice a actor true false skip rest = refl
contains-choice a actor false seen skip rest = refl

-- `x` stands for the members behind, `same` for an actor that is the one asked for.
choice_holds :
    (may seen_actor seen_a same x : Bool)
    → (same ≡ true → seen_actor ≡ seen_a)
    → (if not may
        then not seen_a && x
        else if seen_actor
        then not seen_a && x
        else same || (not (same || seen_a) && x))
      ≡ (not seen_a && ((may && same) || x))
choice_holds may seen_actor seen_a same x h = ground arith

distinct-choice :
    (actor : String) (may seen : Bool) (skip rest : List String)
    → distinct skip ≡ true
    → distinct rest ≡ true
    → contains actor rest ≡ false
    → distinct (choice may seen skip rest actor) ≡ true
unfolding distinct
distinct-choice actor true true skip rest h k n = h
distinct-choice actor true false skip rest h k n = ground arith
distinct-choice actor false seen skip rest h k n = h

none_left : (b : Bool) → false ≡ (not b && false)
none_left true = refl
none_left false = refl

module _ (sender_type sender_id : String) where
  seen_same :
      (m : GroupMember) (a : String) (seen : List String)
      → m.actor_id == a ≡ true
      → contains m.actor_id seen ≡ contains a seen
  seen_same m a seen h = ap (λ x. contains x seen) ((eq_iff m.actor_id a).0 h)

  contains-candidates_after :
      (a : String) (seen : List String) (members : List GroupMember)
      → contains a (candidates_after seen sender_type sender_id members)
        ≡ (not (contains a seen) && any (is_eligible sender_type sender_id a) members)
  unfolding candidates_after any may_speak
  contains-candidates_after a seen [] = none_left (contains a seen)
  contains-candidates_after a seen (m ∷ ms) =
      let skip = candidates_after seen sender_type sender_id ms in
      let rest = candidates_after (m.actor_id ∷ seen) sender_type sender_id ms in
      contains-choice a m.actor_id (may_speak sender_type sender_id m) (contains m.actor_id seen)
        skip rest
      ∙ rw (contains-candidates_after a seen ms, contains-candidates_after a (m.actor_id ∷ seen) ms)
          (choice_holds (may_speak sender_type sender_id m) (contains m.actor_id seen)
            (contains a seen) (m.actor_id == a) (any (is_eligible sender_type sender_id a) ms)
            (seen_same m a seen))

  distinct-candidates_after :
      (seen : List String) (members : List GroupMember)
      → distinct (candidates_after seen sender_type sender_id members) ≡ true
  unfolding candidates_after any distinct
  distinct-candidates_after seen [] = refl
  distinct-candidates_after seen (m ∷ ms) =
      let skip = candidates_after seen sender_type sender_id ms in
      let rest = candidates_after (m.actor_id ∷ seen) sender_type sender_id ms in
      distinct-choice m.actor_id (may_speak sender_type sender_id m) (contains m.actor_id seen) skip
        rest (distinct-candidates_after seen ms) (distinct-candidates_after (m.actor_id ∷ seen) ms)
        (contains-candidates_after m.actor_id (m.actor_id ∷ seen) ms ∙ rw (eq_refl m.actor_id) refl)

  -- An actor is among the candidates exactly if a member has it that is of the type "agent", whose
  -- role is not "observer" and which is not the agent that sent the message; and no candidate is
  -- named twice.
  pub free_chat_candidates_lem :
      (members : List GroupMember) (a : String)
      → (contains a (free_chat_candidates members sender_type sender_id)
          ≡ any (is_eligible sender_type sender_id a) members)
        × (distinct (free_chat_candidates members sender_type sender_id) ≡ true)
  unfolding free_chat_candidates any
  free_chat_candidates_lem members a =
      (contains-candidates_after a [] members, distinct-candidates_after [] members)
