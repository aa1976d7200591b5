-- ===== src/Auth.antt =====
-- internal/auth/auth.go: the authentication of agents and of local administration requests. A request
-- is its headers and what `BasicAuth` makes of it; `trim` is strings.TrimSpace.
pub mod Known
use gh_agent_broker.Prelude.{
  String, ◌==◌, ◌≡◌, ◌≢◌, ◌↔◌, inl, inr, arith, eq_iff, eq_refl, Bool, true, false, not, ◌||◌, List,
  [], ◌∷◌, ◌++◌, All, ap, subst, ◌⊎◌, Bool-cases, Option, none, some, Option-cases, if◌then◌else◌,
}

-- The fields of `config.Agent` that authentication reads.
pub record Account : Type 0 where
  pub id : String
  pub enabled : Bool
  pub secret : String

pub record Principal : Type 0 where
  pub agent : Account
  pub id : String
  pub transport_principal : String

pub record Credentials : Type 0 where
  pub user : String
  pub secret : String

pub record AuthRequest : Type 0 where
  pub header : Credentials
  pub admin_secret : String
  pub basic : Option Credentials

unfoldable pub agent_by_id : String → List Account → Option Account
agent_by_id id [] = none
agent_by_id id (a ∷ agents) =
    let later = agent_by_id id agents in if a.id == id then some a else later

-- The headers, or Basic authentication where one of them is missing.
unfoldable pub presented : AuthRequest → Credentials
presented r =
    if r.header.user == "" || r.header.secret == ""
    then (elim r.basic [ none ↦ r.header | some c ↦ c ])
    else r.header

unfoldable pub accept_agent : Option Account → String → String → Option Principal
accept_agent none id secret = none
accept_agent (some a) id secret =
    if not a.enabled || a.secret == ""
    then none
    else if secret == a.secret
    then some (record { agent = a; id = id; transport_principal = id })
    else none

-- Once the id is trimmed.
unfoldable pub authenticate_as : List Account → String → String → Option Principal
unfolding accept_agent
authenticate_as agents id secret =
    if id == "" || secret == "" then none else accept_agent (agent_by_id id agents) id secret

unfoldable pub authenticate_agent :
    (String → String) → List Account → AuthRequest → Option Principal
authenticate_agent trim agents r =
    authenticate_as agents (trim (presented r).user) (presented r).secret

unfoldable pub authenticate_admin : String → AuthRequest → Bool
authenticate_admin admin_secret r =
    if admin_secret == ""
    then false
    else (if r.admin_secret == ""
        then (elim r.basic [ none ↦ "" | some c ↦ c.secret ])
        else r.admin_secret)
      == admin_secret
