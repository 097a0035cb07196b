-- ===== src/Registry/Cards.antt =====
-- internal/svc/registry.go: the cards by which agents describe themselves. encoding/json is a parameter.
use Prim.Native.String.{String, ◌++◌}
use Prim.Native.Char.{code}
use a2a_platform_go.Prelude.{
  ◌+◌, Bool, true, false, ◌&&◌, ◌||◌, Option, none, some, List, [], ◌∷◌, ◌==◌, ◌=?◌, if◌then◌else◌,
}
use a2a_platform_go.Prelude.Text.{trim_space}

pub record Skill : Type 0 where
  pub id : String
  pub name : String
  pub description : String
  pub tags : List String
  pub examples : List String

pub record AgentCapabilities : Type 0 where
  pub streaming : Bool
  pub push_notifications : Bool

-- The parts that the platform reads or writes; `others` stands for the other fields.
pub record AgentCard : Type 0 where
  pub name : String
  pub description : String
  pub version : String
  pub url : String
  pub capabilities : Option AgentCapabilities
  pub default_input_modes : List String
  pub default_output_modes : List String
  pub skills : List Skill
  pub health_url : String
  pub static : Bool
  pub context_mode : String
  pub others : String

-- encoding/json on cards and on lists of skills.
pub record Codec : Type 0 where
  pub encode_card : AgentCard → String
  pub decode_card : String → Option AgentCard
  pub encode_skills : List Skill → String

abbrev pub or_text : String → String → String
or_text fallback s = if s == "" then fallback else s

abbrev or_plain : List String → List String
or_plain [] = "text/plain" ∷ []
or_plain (mode ∷ modes) = mode ∷ modes

abbrev or_streaming : Option AgentCapabilities → Option AgentCapabilities
or_streaming none = some (record { streaming = true; push_notifications = false })
or_streaming (some c) = some c

abbrev pub or_skills : List Skill → List Skill → List Skill
or_skills fallback [] = fallback
or_skills fallback (skill ∷ skills) = skill ∷ skills

-- strings.ToLower(s) == t for a `t` of small ASCII letters other than i and k, to which ToLower sends
-- letters that are not ASCII.
unfoldable pub lower_is : String → String → Bool
lower_is String.[] String.[] = true
lower_is String.[] (String.◌∷◌ d t) = false
lower_is (String.◌∷◌ c s) String.[] = false
lower_is (String.◌∷◌ c s) (String.◌∷◌ d t) =
    (code c =? code d || code c + 32 =? code d) && lower_is s t

unfoldable pub normalize_context_mode : String → String
unfolding lower_is trim_space
normalize_context_mode mode =
    if lower_is (trim_space mode) "stateless" then "stateless" else "context"

unfoldable pub merge_context_mode : String → String → String
unfolding normalize_context_mode
merge_context_mode primary fallback =
    if trim_space primary == ""
    then normalize_context_mode fallback
    else normalize_context_mode primary

unfoldable pub normalize_agent_card : String → List Skill → AgentCard → AgentCard
unfolding normalize_context_mode
normalize_agent_card name skills card = record card {
  name = or_text name card.name;
  url = "/agent/" ++ name;
  version = or_text "1.0.0" card.version;
  capabilities = or_streaming card.capabilities;
  default_input_modes = or_plain card.default_input_modes;
  default_output_modes = or_plain card.default_output_modes;
  context_mode = normalize_context_mode card.context_mode;
  skills = or_skills skills card.skills;
}

unfoldable pub hosted_agent_card : String → AgentCard → AgentCard
unfolding normalize_context_mode
hosted_agent_card name card = record card {
  name = or_text name card.name;
  url = "/agent/" ++ or_text name card.name;
  capabilities = or_streaming card.capabilities;
  default_input_modes = or_plain card.default_input_modes;
  default_output_modes = or_plain card.default_output_modes;
  context_mode = normalize_context_mode card.context_mode;
}

-- &model.AgentCard{Name: name}
abbrev pub bare_card : String → AgentCard
bare_card name = record {
  name = name;
  description = "";
  version = "";
  url = "";
  capabilities = none;
  default_input_modes = [];
  default_output_modes = [];
  skills = [];
  health_url = "";
  static = false;
  context_mode = "";
  others = "";
}

module _ (codec : Codec) where
  unfoldable pub parse_agent_card : String → Option AgentCard
  parse_agent_card json = if json == "" then none else codec.decode_card json

  abbrev only_static : Option AgentCard → Option AgentCard
  only_static none = none
  only_static (some card) = if card.static then some card else none

  unfoldable pub parse_stored_static_card : String → Option AgentCard
  unfolding parse_agent_card
  parse_stored_static_card json = only_static (parse_agent_card json)

  abbrev mode_of : Option AgentCard → String
  mode_of none = "context"
  mode_of (some card) = normalize_context_mode card.context_mode

  unfoldable pub context_mode_from_card_json : String → String
  unfolding parse_agent_card normalize_context_mode
  context_mode_from_card_json json = mode_of (parse_agent_card json)
