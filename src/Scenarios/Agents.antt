-- ===== src/Scenarios/Agents.antt =====
-- internal/auth/auth.go: an agent that authenticates by its headers.
use gh_agent_broker.Prelude.{◌≡◌, ◌↔◌, true, [], ◌∷◌, none, some}
use gh_agent_broker.Auth.{Account, Principal, AuthRequest, authenticate_agent}
use gh_agent_broker.Auth.Known.{IsKnown, authenticate_agent_iff}

abbrev account : Account
account = record { id = "worker"; enabled = true; secret = "s3cret" }

abbrev principal : Principal
principal = record { agent = account; id = "worker"; transport_principal = "worker" }

abbrev request : AuthRequest
request = record {
  header = record { user = "worker"; secret = "s3cret" };
  admin_secret = "";
  basic = none;
}

authenticate_agent_iff_example :
    (authenticate_agent (λ s. s) (account ∷ []) request ≡ some principal)
    ↔ IsKnown (λ s. s) (account ∷ []) request principal
authenticate_agent_iff_example = authenticate_agent_iff (λ s. s) (account ∷ []) request principal
