-- ===== src/Policy/Check.antt =====
-- internal/policy/policy.go: `Check`.
use gh_agent_broker.Prelude.{
  String, ◌==◌, Bool, true, false, not, ◌&&◌, ◌||◌, List, [], ◌∷◌, ◌++◌, contains, if◌then◌else◌,
}
use gh_agent_broker.Policy.Types.{Engine, Request, FailedCheck, PolicyResult}
use gh_agent_broker.Policy.Assertions.{Checks, no_checks, check_assertions, pattern_matches}

module _ (e : Engine) where
  unfoldable pub contains_fold : List String → String → Bool
  contains_fold [] want = false
  contains_fold (item ∷ items) want = e.equal_fold item want || contains_fold items want

  unfoldable pub matches_any : List String → String → Bool
  matches_any [] value = false
  matches_any (p ∷ patterns) value = pattern_matches e p value || matches_any patterns value

-- addFailure, with the fields that every call leaves empty
unfoldable pub add_failure : String → String → String → String → Checks → Checks
add_failure dimension expected actual message res = record res {
  failed_checks =
      res.failed_checks
      ++ record {
        dimension = dimension;
        field = "";
        location = "";
        expected = expected;
        actual = actual;
        safe_to_display = true;
        message = message;
      }
        ∷ [];
}

abbrev pub is_empty : List String → Bool
is_empty [] = true
is_empty (x ∷ xs) = false

unfoldable pub require_change : String → String → Checks → Checks
require_change location action res = record res {
  required_changes =
      res.required_changes ++ record { field = ""; location = location; action = action } ∷ [];
}

unfoldable pub check_agent : Request → Checks → Checks
check_agent req res =
    if req.agent_id == ""
      || req.agent.id == ""
      || not (req.agent_id == req.agent.id)
      || not req.agent.enabled
    then add_failure "agent" "enabled authenticated agent" req.agent_id
        "agent is not enabled or does not match authenticated identity" res
    else res

unfoldable pub check_repo : Engine → Request → Checks → Checks
check_repo e req res =
    if not (contains_fold e req.agent.repositories req.repo)
    then add_failure "repo" "allowed repository" req.repo "repository is not allowed for this agent"
        res
    else res

unfoldable pub check_operation : Request → Checks → Checks
check_operation req res =
    if not (contains req.agent.operations req.operation)
    then add_failure "operation" "allowed operation" req.operation
        "operation is not allowed for this agent" res
    else res

unfoldable pub check_branch : Engine → Request → Checks → Checks
check_branch e req res =
    if not (req.branch == "")
      && not (is_empty req.agent.branch_patterns)
      && not (matches_any e req.agent.branch_patterns req.branch)
    then require_change "branch" "use a branch matching one of the allowed branch patterns" (
        add_failure "branch" (e.join req.agent.branch_patterns " OR ") req.branch
          "branch does not match an allowed pattern" res)
    else res

unfoldable pub check_base_branch : Engine → Request → Checks → Checks
check_base_branch e req res =
    if not (req.base_branch == "")
      && not (is_empty req.agent.base_branches)
      && not (contains req.agent.base_branches req.base_branch)
    then require_change "base_branch" "use an allowed base branch" (
        add_failure "base_branch" (e.join req.agent.base_branches ", ") req.base_branch
          "base branch is not allowed for this agent" res)
    else res

unfoldable pub check_permissions : List String → List String → Checks → Checks
check_permissions granted [] res = res
check_permissions granted (p ∷ permissions) res = check_permissions granted permissions (
    if not (contains granted p)
    then add_failure "permission" "permission in agent allowlist" p
        "requested permission is not allowed for this agent" res
    else res)

unfoldable pub append_checks : Checks → Checks → Checks
append_checks res more = record {
  failed_checks = res.failed_checks ++ more.failed_checks;
  warnings = res.warnings ++ more.warnings;
  required_changes = res.required_changes ++ more.required_changes;
}

abbrev pub no_failures : List FailedCheck → Bool
no_failures [] = true
no_failures (x ∷ xs) = false

-- The end of `Check`.
unfoldable pub decide : Checks → PolicyResult
decide res = record {
  allowed = no_failures res.failed_checks;
  decision =
      if not (no_failures res.failed_checks)
      then "deny"
      else if not (no_failures res.warnings)
      then "warn"
      else "allow";
  failed_checks = res.failed_checks;
  warnings = res.warnings;
  required_changes = res.required_changes;
}

-- The checks in the order of the code.
unfoldable pub gather : Engine → Request → Checks
gather e req =
    append_checks
      (check_permissions req.agent.permissions req.permissions (
        check_base_branch e req (
          check_branch e req (check_operation req (check_repo e req (check_agent req no_checks))))))
      (check_assertions e req)

unfoldable pub check : Engine → Request → PolicyResult
unfolding gather decide
check e req = decide (gather e req)
