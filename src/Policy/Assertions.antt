-- ===== src/Policy/Assertions.antt =====
-- internal/policy/policy.go: the metadata assertions.
use Prim.Native.String.{◌++◌ as append}
use gh_agent_broker.Prelude.{
  String, ◌==◌, Bool, true, false, not, ◌&&◌, ◌||◌, List, [], ◌∷◌, ◌++◌, Option, none, some, Assoc,
  lookup, if◌then◌else◌,
}
use gh_agent_broker.Policy.Types.{
  Engine, AssertionField, AssertionPolicy, Request, FailedCheck, RequiredChange,
}

-- A missing location has no values.
unfoldable pub values_for_location : String → Request → Assoc String
values_for_location loc req =
    if loc == "request" || loc == ""
    then req.metadata
    else elim (lookup loc req.locations) [ none ↦ [] | some values ↦ values ]

abbrev pub locations_of : List String → List String
locations_of [] = "request" ∷ []
locations_of (loc ∷ locations) = loc ∷ locations

abbrev failed_field : AssertionField → String → String → String → String → FailedCheck
failed_field f loc expected actual message = record {
  dimension = "metadata";
  field = f.name;
  location = loc;
  expected = expected;
  actual = actual;
  safe_to_display = true;
  message = message;
}

module _ (e : Engine) where
  unfoldable pub pattern_matches : String → String → Bool
  pattern_matches pattern v = elim (e.match_string pattern v) [
    | none ↦ false
    | some matched ↦ matched
  ]

  -- The tests on a value that is there.
  unfoldable pub check_value : AssertionField → String → String → Option FailedCheck
  check_value f loc v =
      if not (f.value == "") && not (v == f.value)
      then some (
          failed_field f loc f.value v
            (append "metadata field " (append (e.quote f.name) " has an unexpected value")))
      else if not (f.pattern == "") && not (pattern_matches f.pattern v)
      then some (
          failed_field f loc (append "match " f.pattern) v (
            append "metadata field "
              (append (e.quote f.name) " does not match the required pattern")))
      else none

  -- One round of the loop of `checkField`: `values[f.Name]`, missing or empty.
  unfoldable pub check_found : AssertionField → String → Option String → Option FailedCheck
  check_found f loc found =
      let v : String = elim found [ none ↦ "" | some text ↦ text ] in
      if v == ""
      then if f.required
        then some (
            failed_field f loc "present" "" (
              append "required metadata field "
                (append (e.quote f.name) (append " is missing from " loc))))
        else none
      else check_value f loc v

  unfoldable pub check_at : AssertionField → Request → String → Option FailedCheck
  check_at f req loc = check_found f loc (lookup f.name (values_for_location loc req))

  -- The first location that fails ends the loop.
  unfoldable pub check_locations : AssertionField → Request → List String → Option FailedCheck
  check_locations f req [] = none
  check_locations f req (loc ∷ locations) =
      let rest = check_locations f req locations in
      elim (check_at f req loc) [ some failed ↦ some failed | none ↦ rest ]

  unfoldable pub check_field : AssertionField → Request → Option FailedCheck
  check_field f req =
      if f.name == "" then none else check_locations f req (locations_of f.locations)

unfoldable pub required_change_for : AssertionField → FailedCheck → RequiredChange
required_change_for f failed = record {
  field = f.name;
  location = failed.location;
  action =
      if failed.expected == "present"
      then "add the required metadata field"
      else if not (failed.expected == "")
      then append "change the metadata field to satisfy: " failed.expected
      else "supply valid metadata";
}

-- The three lists of a result that assertions add to.
pub record Checks : Type 0 where
  pub failed_checks : List FailedCheck
  pub warnings : List FailedCheck
  pub required_changes : List RequiredChange

abbrev pub no_checks : Checks
no_checks = record { failed_checks = []; warnings = []; required_changes = [] }

unfoldable pub add_check : String → AssertionField → Option FailedCheck → Checks → Checks
add_check mode f none res = res
add_check mode f (some check) res =
    if mode == "warn" then record res { warnings = res.warnings ++ check ∷ [] } else record res {
      failed_checks = res.failed_checks ++ check ∷ [];
      required_changes = res.required_changes ++ required_change_for f check ∷ [];
    }

module _ (e : Engine) where
  unfoldable pub check_fields : String → Request → List AssertionField → Checks → Checks
  check_fields mode req [] res = res
  check_fields mode req (f ∷ fields) res =
      check_fields mode req fields (add_check mode f (check_field e f req) res)

  -- strings.ToLower(strings.TrimSpace(ap.Mode)), where empty is "enforce"
  unfoldable pub mode_of : AssertionPolicy → String
  mode_of ap = let mode = e.lower_trim ap.mode in if mode == "" then "enforce" else mode

  unfoldable pub check_policies : Request → List AssertionPolicy → Checks → Checks
  check_policies req [] res = res
  check_policies req (ap ∷ policies) res =
      check_policies req policies
        (if mode_of ap == "off" then res else check_fields (mode_of ap) req ap.fields res)

abbrev as_list : Option AssertionPolicy → List AssertionPolicy
as_list none = []
as_list (some ap) = ap ∷ []

-- The policy for every operation, then that of the operation.
unfoldable pub assertion_policies : Assoc AssertionPolicy → String → List AssertionPolicy
assertion_policies m op = as_list (lookup "*" m) ++ as_list (lookup op m)

unfoldable pub check_assertions : Engine → Request → Checks
check_assertions e req =
    check_policies e req (assertion_policies req.agent.metadata_assertions req.operation) no_checks
