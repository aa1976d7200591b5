-- ===== src/Policy/Fields.antt =====
-- internal/policy/policy.go: what the checks of the metadata fields ask of a request.
use gh_agent_broker.Prelude.{
  String, ◌==◌, ◌≡◌, ◌≢◌, ◌↔◌, ◌⊎◌, inl, inr, refl, arith, eq_iff, Bool, true, false, ◌&&◌, List,
  [], ◌∷◌, ◌++◌, Option, none, some, lookup, contains, All, Bool-cases,
}
use gh_agent_broker.Policy.Types.{Engine, AssertionField, AssertionPolicy, Request, FailedCheck}
use gh_agent_broker.Policy.Assertions.{
  Checks, values_for_location, locations_of, pattern_matches, check_value, check_found, check_at,
  check_locations, check_field, add_check, check_fields, mode_of, check_policies,
  assertion_policies,
}
use gh_agent_broker.Policy.Check.{contains_fold, matches_any, no_failures}

-- What a field asks of the value at one location.
abbrev pub ValueHolds : Engine → AssertionField → Option String → Type 0
ValueHolds e f none = f.required ≡ false
ValueHolds e f (some v) =
    ((v ≡ "") × (f.required ≡ false))
    ⊎ ((v ≢ "")
        × ((f.value ≡ "") ⊎ (v ≡ f.value))
        × ((f.pattern ≡ "") ⊎ (pattern_matches e f.pattern v ≡ true)))

abbrev pub FieldHolds : Engine → Request → AssertionField → Type 0
FieldHolds e req f =
    (f.name ≡ "")
    ⊎ All (λ loc. ValueHolds e f (lookup f.name (values_for_location loc req)))
        (locations_of f.locations)

-- A policy binds unless its mode is off or warn.
abbrev pub PolicyHolds : Engine → Request → AssertionPolicy → Type 0
PolicyHolds e req ap =
    (mode_of e ap ≡ "off") ⊎ (mode_of e ap ≡ "warn") ⊎ All (FieldHolds e req) ap.fields

pub record IsPermitted (e : Engine) (req : Request) : Type 0 where
  pub identified : req.agent_id ≢ ""
  pub same_agent : req.agent_id ≡ req.agent.id
  pub enabled : req.agent.enabled ≡ true
  pub repo : contains_fold e req.agent.repositories req.repo ≡ true
  pub operation : contains req.agent.operations req.operation ≡ true
  pub branch :
      (req.branch ≡ "")
      ⊎ (req.agent.branch_patterns ≡ [])
      ⊎ (matches_any e req.agent.branch_patterns req.branch ≡ true)
  pub base_branch :
      (req.base_branch ≡ "")
      ⊎ (req.agent.base_branches ≡ [])
      ⊎ (contains req.agent.base_branches req.base_branch ≡ true)
  pub permissions : All (λ p. contains req.agent.permissions p ≡ true) req.permissions
  pub metadata :
      All (PolicyHolds e req) (assertion_policies req.agent.metadata_assertions req.operation)

abbrev pub is_none : Option FailedCheck → Bool
is_none none = true
is_none (some x) = false

pub no_failures-append :
    (xs ys : List FailedCheck) → no_failures (xs ++ ys) ≡ (no_failures xs && no_failures ys)
no_failures-append [] ys = refl
no_failures-append (x ∷ xs) ys = refl

pub check_found_iff :
    (e : Engine) (f : AssertionField) (loc : String) (found : Option String)
    → (is_none (check_found e f loc found) ≡ true) ↔ ValueHolds e f found
unfolding check_found check_value
check_found_iff e f loc none = ground arith
check_found_iff e f loc (some v) =
    ground (arith, eq_iff v "", eq_iff f.value "", eq_iff v f.value, eq_iff f.pattern "")

pub check_locations_iff :
    (e : Engine) (f : AssertionField) (req : Request) (locations : List String)
    → (is_none (check_locations e f req locations) ≡ true)
      ↔ All (λ loc. ValueHolds e f (lookup f.name (values_for_location loc req))) locations
unfolding check_locations check_at
check_locations_iff e f req [] = (λ h. tt, λ h. refl)
check_locations_iff e f req (loc ∷ locations) = ground (
  arith,
  check_found_iff e f loc (lookup f.name (values_for_location loc req)),
  check_locations_iff e f req locations,
)

pub check_field_iff :
    (e : Engine) (req : Request) (f : AssertionField)
    → (is_none (check_field e f req) ≡ true) ↔ FieldHolds e req f
unfolding check_field
check_field_iff e req f =
    ground (arith, eq_iff f.name "", check_locations_iff e f req (locations_of f.locations))

-- Nothing in the list of failures.
abbrev pub IsClean : Checks → Type 0
IsClean res = no_failures res.failed_checks ≡ true

pub add_check_iff :
    (mode : String) (f : AssertionField) (o : Option FailedCheck) (res : Checks)
    → IsClean (add_check mode f o res) ↔ (IsClean res × ((mode ≡ "warn") ⊎ (is_none o ≡ true)))
unfolding add_check
add_check_iff mode f none res = ground arith
add_check_iff mode f (some x) res =
    ground (arith, eq_iff mode "warn", no_failures-append res.failed_checks (x ∷ []))

pub check_fields_iff :
    (e : Engine) (mode : String) (req : Request) (fields : List AssertionField) (res : Checks)
    → IsClean (check_fields e mode req fields res)
      ↔ (IsClean res × ((mode ≡ "warn") ⊎ All (FieldHolds e req) fields))
unfolding check_fields
check_fields_iff e mode req [] res = ground arith
check_fields_iff e mode req (f ∷ fields) res = ground (
  arith,
  check_fields_iff e mode req fields (add_check mode f (check_field e f req) res),
  add_check_iff mode f (check_field e f req) res,
  check_field_iff e req f,
)

pub check_policies_iff :
    (e : Engine) (req : Request) (policies : List AssertionPolicy) (res : Checks)
    → IsClean (check_policies e req policies res) ↔ (IsClean res × All (PolicyHolds e req) policies)
unfolding check_policies
check_policies_iff e req [] res = ground arith
check_policies_iff e req (ap ∷ policies) res = elim (Bool-cases (mode_of e ap == "off")) [
  | inl off ↦
      rw (off, check_policies)
        (ground (arith, eq_iff (mode_of e ap) "off", check_policies_iff e req policies res))
  | inr on ↦
      rw (on, check_policies)
        (ground (
          arith,
          eq_iff (mode_of e ap) "off",
          check_policies_iff e req policies (check_fields e (mode_of e ap) req ap.fields res),
          check_fields_iff e (mode_of e ap) req ap.fields res,
        ))
]
