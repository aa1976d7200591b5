-- ===== src/Tripwire/Permanent.antt =====
-- internal/pushtripwire/pushtripwire.go: the tables under any sequence of calls, and the issuance
-- checks after a halt.
use gh_agent_broker.Prelude.{
  ℕ, String, ◌≡◌, ◌≢◌, inl, inr, arith, Bool, true, List, [], ◌∷◌, Option, none, ℤ, contains,
  lookup, ok, Tx, Option-cases, Result-cases,
}
use gh_agent_broker.Tripwire.Contract.{ResponseRequest, Libraries}
use gh_agent_broker.Tripwire.Store.{
  ResponseResult, CatalogEntry, Tables, replace_checked, replace_enforcement_catalog, respond,
  check_issuance,
}
use gh_agent_broker.Tripwire.Apply.{Adapter, apply_at, apply}
use gh_agent_broker.Tripwire.Halts.{
  IsHalted, respond_keeps, respond_halts, fence_new_halts, replay_halts,
}

pub data Call : Type 0 where
  applying : Bool → Tx → ℕ → Option Adapter → String → ResponseRequest → Call
  replacing : Tx → List CatalogEntry → Call

unfoldable pub step : Libraries → Tables → Call → Tables
step l t (applying reading tx now adapter key req) =
    (apply l t reading tx now adapter key req).tables
step l t (replacing tx profiles) = (replace_enforcement_catalog l t tx profiles).1

unfoldable pub run : Libraries → Tables → List Call → Tables
run l t [] = t
run l t (c ∷ calls) = run l (step l t c) calls

apply_keeps :
    (profile : String) (g : ℤ) (l : Libraries) (t : Tables) (reading : Bool) (tx : Tx) (now : ℕ)
    (adapter : Option Adapter) (key : String) (req : ResponseRequest)
    → IsHalted profile g t
    → IsHalted profile g (apply l t reading tx now adapter key req).tables
unfolding apply apply_at
apply_keeps profile g l t reading tx now adapter key req h =
    elim (Option-cases (lookup key t.responses)) [
      | inr (old, there) ↦ ground (arith, there, h, replay_halts adapter key req old.response t)
      | inl gone ↦ elim (Result-cases (respond l t tx now key req)) [
        | inr (x, bad) ↦ ground (arith, gone, bad, h)
        | inl ((out, t'), done) ↦ ground (
          arith,
          gone,
          done,
          respond_keeps profile g l t tx now key req out t' done h,
          fence_new_halts adapter key req out t',
        )
      ]
    ]

replace_keeps :
    (l : Libraries) (t : Tables) (tx : Tx) (profiles : List CatalogEntry)
    → (replace_enforcement_catalog l t tx profiles).1.halts ≡ t.halts
unfolding replace_enforcement_catalog replace_checked
replace_keeps l t tx profiles = ground arith

step_keeps :
    (profile : String) (g : ℤ) (l : Libraries) (t : Tables) (c : Call)
    → IsHalted profile g t
    → IsHalted profile g (step l t c)
unfolding step
step_keeps profile g l t (applying reading tx now adapter key req) h =
    apply_keeps profile g l t reading tx now adapter key req h
step_keeps profile g l t (replacing tx profiles) h = ground (arith, replace_keeps l t tx profiles)

run_keeps :
    (profile : String) (g : ℤ) (l : Libraries) (t : Tables) (calls : List Call)
    → IsHalted profile g t
    → IsHalted profile g (run l t calls)
unfolding run
run_keeps profile g l t [] h = h
run_keeps profile g l t (c ∷ calls) h =
    run_keeps profile g l (step l t c) calls (step_keeps profile g l t c h)

refused :
    (profile : String) (g : ℤ) (t : Tables) (tx : Tx)
    → IsHalted profile g t
    → check_issuance t tx profile g ≢ ok tt
unfolding check_issuance
refused profile g t tx h e = ground arith

apply_halts :
    (l : Libraries) (t : Tables) (reading : Bool) (tx : Tx) (now : ℕ) (adapter : Option Adapter)
    (key : String) (req : ResponseRequest) (out : ResponseResult)
    → lookup key t.responses ≡ none
    → contains req.actions "halt_issuance" ≡ true
    → (apply l t reading tx now adapter key req).outcome ≡ ok out
    → IsHalted req.profile req.profile_generation (apply l t reading tx now adapter key req).tables
unfolding apply apply_at
apply_halts l t reading tx now adapter key req out gone c e =
    elim (Result-cases (respond l t tx now key req)) [
      | inr (x, bad) ↦ absurd (ground (arith, gone, bad))
      | inl ((o, t'), done) ↦ ground (
        arith,
        gone,
        done,
        respond_halts l t tx now key req o t' c done,
        fence_new_halts adapter key req o t',
      )
    ]

-- Once an `Apply` under a new key has returned for a request with the action halt_issuance, no
-- sequence of later calls, with replacements of the enforcement catalog and failures among them,
-- makes `CheckIssuance` pass again for the profile and generation of the request.
pub check_issuance-run :
    (l : Libraries) (t : Tables) (reading : Bool) (tx : Tx) (now : ℕ) (adapter : Option Adapter)
    (key : String) (req : ResponseRequest) (out : ResponseResult)
    → lookup key t.responses ≡ none
    → contains req.actions "halt_issuance" ≡ true
    → (apply l t reading tx now adapter key req).outcome ≡ ok out
    → (later : List Call) (tx' : Tx)
    → check_issuance
        (run l (apply l t reading tx now adapter key req).tables later)
        tx'
        req.profile
        req.profile_generation
      ≢ ok tt
check_issuance-run l t reading tx now adapter key req out gone c e later tx' =
    let after = (apply l t reading tx now adapter key req).tables in
    refused req.profile req.profile_generation (run l after later) tx' (
      run_keeps req.profile req.profile_generation l after later
        (apply_halts l t reading tx now adapter key req out gone c e))
