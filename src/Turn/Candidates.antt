-- ===== src/Turn/Candidates.antt =====
-- internal/handler/group.go: which agents of a group are asked to answer a message, and which
-- answers count as none.
use Prim.Native.Char.{code}
use a2a_platform_go.Prelude.{
  ℕ, ◌-◌, String, Bool, true, false, ◌&&◌, ◌||◌, not, Option, none, some, List, [], ◌∷◌, ◌==◌, ◌=?◌,
  leb, if◌then◌else◌, find, any,
}
use a2a_platform_go.Prelude.Text.{trim_space, trim_right_where}
use a2a_platform_go.Group.{GroupMember}

abbrev pub is_agent : GroupMember → Bool
is_agent m = m.actor_type == "agent"

abbrev pub is_leader : GroupMember → Bool
is_leader m = is_agent m && m.role == "leader"

abbrev pub actor_or : String → Option GroupMember → String
actor_or other none = other
actor_or other (some m) = m.actor_id

-- selectGroupLeader: the first leader, or else the first agent, or else "".
unfoldable pub select_group_leader : List GroupMember → String
unfolding find
select_group_leader members =
    actor_or (actor_or "" (find is_agent members)) (find is_leader members)

-- The members that freeChatCandidates considers.
unfoldable pub may_speak : String → String → GroupMember → Bool
may_speak sender_type sender_id m =
    is_agent m
    && not (m.role == "observer")
    && not (sender_type == "agent" && m.actor_id == sender_id)

-- freeChatCandidates behind the members whose actors are in `seen`
unfoldable pub candidates_after : List String → String → String → List GroupMember → List String
unfolding may_speak any
candidates_after seen sender_type sender_id [] = []
candidates_after seen sender_type sender_id (m ∷ ms) =
    let skip = candidates_after seen sender_type sender_id ms in
    let rest = candidates_after (m.actor_id ∷ seen) sender_type sender_id ms in
    if not (may_speak sender_type sender_id m)
    then skip
    else if any (λ s. s == m.actor_id) seen
    then skip
    else m.actor_id ∷ rest

-- freeChatCandidates
unfoldable pub free_chat_candidates : List GroupMember → String → String → List String
unfolding candidates_after
free_chat_candidates members sender_type sender_id =
    candidates_after [] sender_type sender_id members

-- strings.EqualFold with a text without the letters that fold to more than their other case.
abbrev upper : ℕ → ℕ
upper c = if leb b'a' c && leb c b'z' then c - 32 else c

unfoldable pub equal_fold : String → String → Bool
equal_fold String.[] String.[] = true
equal_fold String.[] (String.◌∷◌ d t) = false
equal_fold (String.◌∷◌ c s) String.[] = false
equal_fold (String.◌∷◌ c s) (String.◌∷◌ d t) = upper (code c) =? upper (code d) && equal_fold s t

-- the characters that isNoReply trims: ` " ' and space
abbrev is_quote : ℕ → Bool
is_quote c = c =? 96 || c =? 34 || c =? 39 || c =? 32

unfoldable pub trim_quotes_left : String → String
trim_quotes_left String.[] = ""
trim_quotes_left (String.◌∷◌ c s) =
    let rest = trim_quotes_left s in if is_quote (code c) then rest else String.◌∷◌ c s

-- isNoReply
unfoldable pub is_no_reply : String → Bool
unfolding equal_fold trim_quotes_left trim_right_where trim_space
is_no_reply text =
    let normalized = trim_space (trim_right_where is_quote (trim_quotes_left text)) in
    equal_fold normalized "NO_REPLY"
    || equal_fold normalized "NO REPLY"
    || equal_fold normalized "不回复"
