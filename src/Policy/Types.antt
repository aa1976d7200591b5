-- ===== src/Policy/Types.antt =====
-- The records of internal/policy, and those of internal/config and internal/api that it reads and
-- fills in.
use gh_agent_broker.Prelude.{String, Bool, List, Option, Assoc}

-- What the policy takes from `regexp`, `strings` and `fmt`.
pub record Engine : Type 0 where
  -- regexp.Compile, then MatchString: `none` where the pattern does not compile
  pub match_string : String → String → Option Bool
  -- strings.EqualFold
  pub equal_fold : String → String → Bool
  -- strings.ToLower(strings.TrimSpace(s))
  pub lower_trim : String → String
  -- strings.Join
  pub join : List String → String → String
  -- the verb %q
  pub quote : String → String

pub record AssertionField : Type 0 where
  pub name : String
  pub required : Bool
  pub pattern : String
  pub value : String
  pub locations : List String

pub record AssertionPolicy : Type 0 where
  pub mode : String
  pub fields : List AssertionField

-- The fields of `config.Agent` that the policy reads.
pub record Agent : Type 0 where
  pub id : String
  pub enabled : Bool
  pub repositories : List String
  pub operations : List String
  pub branch_patterns : List String
  pub base_branches : List String
  pub permissions : List String
  pub metadata_assertions : Assoc AssertionPolicy

pub record Request : Type 0 where
  pub agent : Agent
  pub agent_id : String
  pub repo : String
  pub operation : String
  pub branch : String
  pub base_branch : String
  pub permissions : List String
  pub metadata : Assoc String
  pub locations : Assoc (Assoc String)

pub record FailedCheck : Type 0 where
  pub dimension : String
  pub field : String
  pub location : String
  pub expected : String
  pub actual : String
  pub safe_to_display : Bool
  pub message : String

pub record RequiredChange : Type 0 where
  pub field : String
  pub location : String
  pub action : String

pub record PolicyResult : Type 0 where
  pub allowed : Bool
  pub decision : String
  pub failed_checks : List FailedCheck
  pub warnings : List FailedCheck
  pub required_changes : List RequiredChange
