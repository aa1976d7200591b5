-- ===== src/Policy/Verdict.antt =====
-- When `Check` allows a request, against a description that builds no list of failures.
use gh_agent_broker.Prelude.{
  String, ◌≡◌, ◌≢◌, ◌↔◌, ◌⊎◌, inl, inr, arith, eq_iff, true, false, List, [], ◌∷◌, contains, All,
  Bool-cases,
}
use gh_agent_broker.Policy.Types.{Engine, Request}
use gh_agent_broker.Policy.Assertions.{
  Checks, no_checks, check_policies, assertion_policies, check_assertions,
}
use gh_agent_broker.Policy.Check.{
  contains_fold, matches_any, add_failure, require_change, check_agent, check_repo, check_operation,
  check_branch, check_base_branch, check_permissions, append_checks, no_failures, decide, gather,
  check,
}
use gh_agent_broker.Policy.Fields.{IsPermitted, no_failures-append, IsClean, check_policies_iff}

add_failure_dirty :
    (dimension expected actual message : String) (res : Checks)
    → no_failures (add_failure dimension expected actual message res).failed_checks ≡ false
unfolding add_failure
add_failure_dirty d x a m res = ground (
  arith,
  no_failures-append res.failed_checks (
      record {
        dimension = d;
        field = "";
        location = "";
        expected = x;
        actual = a;
        safe_to_display = true;
        message = m;
      }
      ∷ []),
)

module _ (e : Engine) (req : Request) (res : Checks) where
  check_agent_iff : IsClean (check_agent req res) ↔ (
      IsClean res
      × (req.agent_id ≢ "")
      × (req.agent_id ≡ req.agent.id)
      × (req.agent.enabled ≡ true))
  unfolding check_agent
  check_agent_iff = ground (
    arith,
    eq_iff req.agent_id "",
    eq_iff req.agent.id "",
    eq_iff req.agent_id req.agent.id,
    add_failure_dirty "agent" "enabled authenticated agent" req.agent_id
        "agent is not enabled or does not match authenticated identity" res,
  )

  check_repo_iff :
      IsClean (check_repo e req res)
      ↔ (IsClean res × (contains_fold e req.agent.repositories req.repo ≡ true))
  unfolding check_repo
  check_repo_iff = ground (
    arith,
    add_failure_dirty "repo" "allowed repository" req.repo
        "repository is not allowed for this agent" res,
  )

  check_operation_iff :
      IsClean (check_operation req res)
      ↔ (IsClean res × (contains req.agent.operations req.operation ≡ true))
  unfolding check_operation
  check_operation_iff = ground (
    arith,
    add_failure_dirty "operation" "allowed operation" req.operation
        "operation is not allowed for this agent" res,
  )

  check_branch_iff : IsClean (check_branch e req res) ↔ (
      IsClean res
      × ((req.branch ≡ "")
          ⊎ (req.agent.branch_patterns ≡ [])
          ⊎ (matches_any e req.agent.branch_patterns req.branch ≡ true)))
  unfolding check_branch require_change
  check_branch_iff = ground (
    arith,
    eq_iff req.branch "",
    add_failure_dirty "branch" (e.join req.agent.branch_patterns " OR ") req.branch
        "branch does not match an allowed pattern" res,
  )

  check_base_branch_iff : IsClean (check_base_branch e req res) ↔ (
      IsClean res
      × ((req.base_branch ≡ "")
          ⊎ (req.agent.base_branches ≡ [])
          ⊎ (contains req.agent.base_branches req.base_branch ≡ true)))
  unfolding check_base_branch require_change
  check_base_branch_iff = ground (
    arith,
    eq_iff req.base_branch "",
    add_failure_dirty "base_branch" (e.join req.agent.base_branches ", ") req.base_branch
        "base branch is not allowed for this agent" res,
  )

check_permissions_iff :
    (granted permissions : List String) (res : Checks)
    → IsClean (check_permissions granted permissions res)
      ↔ (IsClean res × All (λ p. contains granted p ≡ true) permissions)
unfolding check_permissions
check_permissions_iff granted [] res = ground arith
check_permissions_iff granted (p ∷ permissions) res = elim (Bool-cases (contains granted p)) [
  | inl has ↦
      rw (has, check_permissions) (ground (arith, check_permissions_iff granted permissions res))
  | inr lacks ↦
      rw (lacks, check_permissions)
        (ground (
          arith,
          check_permissions_iff granted permissions (
              add_failure "permission" "permission in agent allowlist" p
                "requested permission is not allowed for this agent" res),
          add_failure_dirty "permission" "permission in agent allowlist" p
              "requested permission is not allowed for this agent" res,
        ))
]

append_checks_iff :
    (res more : Checks) → IsClean (append_checks res more) ↔ (IsClean res × IsClean more)
unfolding append_checks
append_checks_iff res more = ground (arith, no_failures-append res.failed_checks more.failed_checks)

gather_iff : (e : Engine) (req : Request) → IsClean (gather e req) ↔ IsPermitted e req
unfolding gather check_assertions
gather_iff e req =
    let a = check_agent req no_checks in
    let r = check_repo e req a in
    let o = check_operation req r in
    let b = check_branch e req o in
    let bb = check_base_branch e req b in
    let p = check_permissions req.agent.permissions req.permissions bb in
    let policies = assertion_policies req.agent.metadata_assertions req.operation in
    ground (
      arith,
      append_checks_iff p (check_policies e req policies no_checks),
      check_permissions_iff req.agent.permissions req.permissions bb,
      check_base_branch_iff e req b,
      check_branch_iff e req o,
      check_operation_iff e req r,
      check_repo_iff e req a,
      check_agent_iff e req no_checks,
      check_policies_iff e req policies no_checks,
    )

decide_deny : (res : Checks) → ((decide res).decision ≡ "deny") ↔ ((decide res).allowed ≡ false)
unfolding decide
decide_deny res = ground (
  arith,
  eq_iff "deny" "warn",
  eq_iff "deny" "allow",
  eq_iff "warn" "deny",
  eq_iff "allow" "deny",
)

decide_warn :
    (res : Checks)
    → ((decide res).decision ≡ "warn")
      ↔ (((decide res).allowed ≡ true) × ((decide res).warnings ≢ []))
unfolding decide
decide_warn res = ground (
  arith,
  eq_iff "deny" "warn",
  eq_iff "warn" "allow",
  eq_iff "warn" "deny",
  eq_iff "allow" "warn",
)

-- `Check` allows a request exactly when the agent is the authenticated one and enabled, the
-- repository and the operation are listed, the branch and the base branch are absent, unrestricted
-- or matched, every permission asked for is granted, and every field of a binding metadata policy
-- holds. It denies exactly the requests that it does not allow, and of those that it allows it
-- warns exactly where there is a warning.
pub check_correct :
    (e : Engine) (req : Request)
    → (((check e req).allowed ≡ true) ↔ IsPermitted e req)
      × (((check e req).decision ≡ "deny") ↔ ((check e req).allowed ≡ false))
      × (((check e req).decision ≡ "warn")
          ↔ (((check e req).allowed ≡ true) × ((check e req).warnings ≢ [])))
unfolding check
check_correct e req = (gather_iff e req, decide_deny (gather e req), decide_warn (gather e req))
