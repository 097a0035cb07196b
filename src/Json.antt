-- ===== src/Json.antt =====
-- Decoded JSON, as Go's `any` holds it after encoding/json: a tool's arguments and a trace's data.
use a2a_platform_go.Prelude.{String, Bool, Option, none, some, List, [], ◌∷◌, ◌==◌, if◌then◌else◌}

mutual
  pub data Fields : Type 0 where
    end : Fields
    field : String → Value → Fields → Fields

  pub data Items : Type 0 where
    nil : Items
    cons : Value → Items → Items

  pub data Value : Type 0 where
    null : Value
    bool : Bool → Value
    str : String → Value
    -- a number by its text
    num : String → Value
    obj : Fields → Value
    arr : Items → Value

-- map[string]any: a key is looked up from the front, and a write goes to the front.
abbrev pub Args : Type 0
Args = List (String × Value)

unfoldable pub lookup {ℓ} : {V : Type ℓ} → String → List (String × V) → Option V
lookup k [] = none
lookup k ((j, v) ∷ m) = if j == k then some v else lookup k m

-- `v.(string)`: none where the assertion fails, a missing key included.
abbrev pub as_string : Option Value → Option String
as_string (some (str s)) = some s
as_string _ = none

-- `s, _ := args[key].(string)`
abbrev or_empty : Option String → String
or_empty none = ""
or_empty (some s) = s

unfoldable pub get_string : String → Args → String
unfolding lookup
get_string key args = or_empty (as_string (lookup key args))
