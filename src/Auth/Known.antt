-- ===== src/Auth/Known.antt =====
-- internal/auth/auth.go: whom `AuthenticateAgent` accepts.
use gh_agent_broker.Prelude.{
  String, ◌==◌, ◌≡◌, ◌≢◌, ◌↔◌, inl, inr, arith, eq_iff, eq_refl, true, ◌||◌, List, [], ◌∷◌, ◌++◌,
  All, ap, subst, ◌⊎◌, Bool-cases, none, some, Option-cases,
}
use gh_agent_broker.Auth.{
  Account, Principal, Credentials, AuthRequest, agent_by_id, presented, accept_agent,
  authenticate_as, authenticate_agent,
}

-- What a request presents: its two headers where both are given, and otherwise the user and the
-- password of Basic authentication, or the headers again where there is none.
pub data Presents (r : AuthRequest) (user secret : String) : Type 0 where
  by_headers :
      r.header.user ≡ user
      → r.header.secret ≡ secret
      → ((user ≢ "") × (secret ≢ "")) ⊎ (r.basic ≡ none)
      → Presents r user secret
  by_basic :
      (c : Credentials)
      → (r.header.user ≡ "") ⊎ (r.header.secret ≡ "")
      → r.basic ≡ some c
      → c.user ≡ user
      → c.secret ≡ secret
      → Presents r user secret

-- The configured agent `a` has the id, and no agent before it has.
pub record IsFirst (agents : List Account) (id : String) (a : Account) : Type 0 where
  pub before : List Account
  pub after : List Account
  pub place : agents ≡ before ++ a ∷ after
  pub has_id : a.id ≡ id
  pub first : All (λ b. b.id ≢ id) before

-- The principal is that of an enabled agent that is configured under the presented id, and of the
-- presented secret.
pub record IsKnown (trim : String → String) (agents : List Account) (r : AuthRequest)
    (p : Principal) : Type 0 where
  pub user : String
  pub presents : Presents r user p.agent.secret
  pub trimmed : trim user ≡ p.id
  pub same_principal : p.transport_principal ≡ p.id
  pub configured : IsFirst agents p.id p.agent
  pub enabled : p.agent.enabled ≡ true
  pub named : p.id ≢ ""
  pub secret_given : p.agent.secret ≢ ""

lacking :
    (r : AuthRequest)
    → (r.header.user == "" || r.header.secret == "") ≡ true
    → (r.header.user ≡ "") ⊎ (r.header.secret ≡ "")
lacking r lacks = elim (Bool-cases (r.header.user == "")) [
  | inl no_user ↦ inl (ground (arith, no_user, eq_iff r.header.user ""))
  | inr user ↦ inr (ground (arith, lacks, user, eq_iff r.header.secret ""))
]

presented_sound : (r : AuthRequest) → Presents r (presented r).user (presented r).secret
unfolding presented
presented_sound r = elim (Bool-cases (r.header.user == "" || r.header.secret == "")) [
  | inr full ↦ by_headers (ground (arith, full)) (ground (arith, full)) (
      inl (
        ground (arith, full, eq_iff r.header.user ""),
        ground (arith, full, eq_iff r.header.secret ""),
      ))
  | inl lacks ↦ elim (Option-cases r.basic) [
    | inl no_basic ↦
        by_headers (ground (arith, lacks, no_basic)) (ground (arith, lacks, no_basic))
          (inr no_basic)
    | inr (c, given) ↦
        by_basic c (lacking r lacks) given (ground (arith, lacks, given))
          (ground (arith, lacks, given))
  ]
]

presented_complete :
    (r : AuthRequest) (user secret : String)
    → Presents r user secret
    → presented r ≡ record { user = user; secret = secret }
unfolding presented
presented_complete r user secret (by_headers u s (inl full)) =
    ground (arith, eq_iff user "", eq_iff secret "")
presented_complete r user secret (by_headers u s (inr no_basic)) = ground (arith, no_basic)
presented_complete r user secret (by_basic c (inl missing) given u s) =
    ground (arith, eq_iff r.header.user "")
presented_complete r user secret (by_basic c (inr missing) given u s) =
    ground (arith, eq_iff r.header.secret "")

agent_by_id_sound :
    (id : String) (agents : List Account) (a : Account)
    → agent_by_id id agents ≡ some a
    → IsFirst agents id a
unfolding agent_by_id
agent_by_id_sound id [] a h = absurd (ground arith)
agent_by_id_sound id (b ∷ agents) a h = elim (Bool-cases (b.id == id)) [
  | inl same ↦
      let e : b ≡ a = ground (arith, h, same) in
      record {
        before = [];
        after = agents;
        place = ap (λ c. c ∷ agents) e;
        has_id = ground (arith, same, e, eq_iff b.id id);
        first = tt;
      }
  | inr other ↦
      let rest = agent_by_id_sound id agents a (ground (arith, h, other)) in
      record {
        before = b ∷ rest.before;
        after = rest.after;
        place = ap (λ l. b ∷ l) rest.place;
        has_id = rest.has_id;
        first = (ground (arith, other, eq_iff b.id id), rest.first);
      }
]

agent_by_id-append :
    (id : String) (before after : List Account) (a : Account)
    → a.id ≡ id
    → All (λ b. b.id ≢ id) before
    → agent_by_id id (before ++ a ∷ after) ≡ some a
unfolding agent_by_id
agent_by_id-append id [] after a same others = ground (arith, eq_iff a.id id)
agent_by_id-append id (b ∷ before) after a same others =
    ground (arith, eq_iff b.id id, others.0, agent_by_id-append id before after a same others.1)

agent_by_id_complete :
    (id : String) (agents : List Account) (a : Account)
    → IsFirst agents id a
    → agent_by_id id agents ≡ some a
agent_by_id_complete id agents a k =
    rw (k.place) (agent_by_id-append id k.before k.after a k.has_id k.first)

accepted :
    (agents : List Account) (id secret : String) (p : Principal)
    → authenticate_as agents id secret ≡ some p
    → (a : Account) × (agent_by_id id agents ≡ some a)
      × ((p ≡ record { agent = a; id = id; transport_principal = id })
          × (p.id ≢ "")
          × (p.agent.secret ≢ ""))
      × ((secret ≡ p.agent.secret) × (p.agent.enabled ≡ true))
unfolding authenticate_as accept_agent
accepted agents id secret p h = elim (Option-cases (agent_by_id id agents)) [
  | inl unknown ↦ absurd (ground (arith, h, unknown))
  | inr (a, found) ↦ (
    a,
    found,
    ground (arith, h, found, eq_iff id "", eq_iff secret "", eq_iff a.secret ""),
    ground (arith, h, found, eq_iff secret "", eq_iff a.secret "", eq_iff secret a.secret),
  )
]

module _ (trim : String → String) (agents : List Account) (r : AuthRequest) (p : Principal) where
  IsKnown-sound : authenticate_agent trim agents r ≡ some p → IsKnown trim agents r p
  unfolding authenticate_agent
  IsKnown-sound h =
      let (a, found, (e, named, given), (same, enabled)) =
        accepted agents (trim (presented r).user) (presented r).secret p h in
      record {
        user = (presented r).user;
        presents = subst (λ s. Presents r (presented r).user s) same (presented_sound r);
        trimmed = ground (arith, e);
        same_principal = ground (arith, e);
        configured = agent_by_id_sound p.id agents p.agent (ground (arith, e, found));
        enabled = enabled;
        named = named;
        secret_given = given;
      }

  IsKnown-complete : IsKnown trim agents r p → authenticate_agent trim agents r ≡ some p
  unfolding authenticate_agent authenticate_as accept_agent
  IsKnown-complete k = ground (
    arith,
    presented_complete r k.user p.agent.secret k.presents,
    k.trimmed,
    k.same_principal,
    k.enabled,
    k.named,
    k.secret_given,
    eq_iff (trim (presented r).user) "",
    eq_iff (presented r).secret "",
    eq_refl p.agent.secret,
    agent_by_id_complete p.id agents p.agent k.configured,
    eq_iff p.id "",
    eq_iff p.agent.secret "",
  )

-- `AuthenticateAgent` returns a principal exactly when its agent is the first one that is configured
-- under the id of the principal, that id is the presented one without the space around it, the agent
-- is enabled, its secret is the presented one, and neither the id nor the secret is empty. What is
-- presented is the two headers where both are given, and Basic authentication otherwise.
pub authenticate_agent_iff :
    (trim : String → String) (agents : List Account) (r : AuthRequest) (p : Principal)
    → (authenticate_agent trim agents r ≡ some p) ↔ IsKnown trim agents r p
authenticate_agent_iff trim agents r p =
    (IsKnown-sound trim agents r p, IsKnown-complete trim agents r p)
