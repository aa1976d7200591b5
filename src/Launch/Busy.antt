-- ===== src/Launch/Busy.antt =====
-- internal/sandbox/launch_intents.go: `Create` is asked once per key and admits a profile's runs up
-- to its limit.
use gh_agent_broker.Prelude.{
  ℕ, ◌+◌, ◌≤◌, String, ◌==◌, ◌≡◌, ◌≢◌, ◌≤ℤ◌, All, ◌⊎◌, inl, inr, refl, arith, eq_iff, eq_refl, Bool,
  true, false, List, [], ◌∷◌, ◌++◌, none, some, ℤ, pos, ok, Tx, healthy, Result-cases, Option-cases,
  Bool-cases,
}
use gh_agent_broker.Launch.Intents.{
  LaunchIntent, Intents, by_key, by_run, is_decodable, scan_intent, lookup_intent, active_count,
  is_busy, create_on, create_checked, create,
}

active_count-append :
    (profile : String) (is : Intents) (i : LaunchIntent)
    → active_count profile (is ++ i ∷ []) ≡ active_count profile is + active_count profile (i ∷ [])
unfolding active_count
active_count-append profile [] i = ground arith
active_count-append profile (x ∷ is) i = ground (arith, active_count-append profile is i)

by_key-append :
    (i : LaunchIntent) (is : Intents)
    → by_key i.principal i.profile i.key_digest is ≡ none
    → by_key i.principal i.profile i.key_digest (is ++ i ∷ []) ≡ some i
unfolding by_key
by_key-append i [] h = ground (arith, eq_refl i.principal, eq_refl i.profile, eq_refl i.key_digest)
by_key-append i (x ∷ is) h = ground (arith, by_key-append i is)

by_run-append :
    (run : String) (is more : Intents) (i : LaunchIntent)
    → by_run run is ≡ some i
    → by_run run (is ++ more) ≡ some i
unfolding by_run
by_run-append run [] more i h = cc
by_run-append run (x ∷ is) more i h = ground (arith, by_run-append run is more i)

-- A call that fails or finds its key leaves the rows; else the rows gain the intent, whose key and
-- run were free and whose profile had room.
pub record IsAdmitted (is : Intents) (i : LaunchIntent) (limit : ℤ) : Type 0 where
  pub free_key : by_key i.principal i.profile i.key_digest is ≡ none
  pub free_run : by_run i.run_id is ≡ none
  pub room : is_busy i.profile limit is ≡ false

create_cases :
    (is : Intents) (tx : Tx) (i : LaunchIntent) (limit : ℤ)
    → ((create is tx i limit).1 ≡ is)
      ⊎ (IsAdmitted is i limit × (create is tx i limit ≡ (ok (i, true), is ++ i ∷ [])))
unfolding create create_checked create_on lookup_intent scan_intent
create_cases is tx i limit = elim (Result-cases (create_checked is tx i limit)) [
  | inr (x, e) ↦ inl (rw e refl)
  | inl (out, e) ↦ elim (Option-cases (by_key i.principal i.profile i.key_digest is)) [
    | inr (old, found) ↦ inl (ground arith)
    | inl fresh ↦
        inr
          (record { free_key = fresh; free_run = ground arith; room = ground arith }, ground arith)
  ]
]

-- A call of `Create`.
pub record Ask : Type 0 where
  pub tx : Tx
  pub intent : LaunchIntent
  pub limit : ℤ

unfoldable pub run_asks : Intents → List Ask → Intents
run_asks is [] = is
run_asks is (a ∷ asks) = run_asks (create is a.tx a.intent a.limit).1 asks

-- A call for the profile has a limit, which is at most `m`.
abbrev pub IsLimited : String → ℕ → Ask → Type 0
IsLimited profile m a = (a.intent.profile ≢ profile) ⊎ ((pos 1 ≤ℤ a.limit) × (a.limit ≤ℤ pos m))

count_one :
    (profile : String) (i : LaunchIntent) → i.profile ≢ profile → active_count profile (i ∷ []) ≡ 0
unfolding active_count
count_one profile i h = ground (arith, eq_iff i.profile profile)

room_left :
    (profile : String) (m : ℕ) (is : Intents) (i : LaunchIntent) (limit : ℤ)
    → i.profile ≡ profile
    → pos 1 ≤ℤ limit
    → limit ≤ℤ pos m
    → is_busy i.profile limit is ≡ false
    → active_count profile is + active_count profile (i ∷ []) ≤ m
unfolding active_count
room_left profile m is i limit same low high room = ground (arith, room)

admitted_within :
    (profile : String) (m : ℕ) (is : Intents) (a : Ask)
    → IsLimited profile m a
    → active_count profile is ≤ m
    → IsAdmitted is a.intent a.limit
    → active_count profile (is ++ a.intent ∷ []) ≤ m
admitted_within profile m is a (inl other) h admitted =
    ground (arith, active_count-append profile is a.intent, count_one profile a.intent other)
admitted_within profile m is a (inr (low, high)) h admitted =
    elim (Bool-cases (a.intent.profile == profile)) [
      | inl same ↦ ground (
        arith,
        active_count-append profile is a.intent,
        room_left profile m is a.intent a.limit ((eq_iff a.intent.profile profile).0 same) low high
            admitted.room,
      )
      | inr other ↦ ground (
        arith,
        active_count-append profile is a.intent,
        count_one profile a.intent,
        eq_iff a.intent.profile profile,
      )
    ]

create_within :
    (profile : String) (m : ℕ) (is : Intents) (a : Ask)
    → IsLimited profile m a
    → active_count profile is ≤ m
    → active_count profile (create is a.tx a.intent a.limit).1 ≤ m
create_within profile m is a limited h = elim (create_cases is a.tx a.intent a.limit) [
  | inl same ↦ rw same h
  | inr (admitted, e) ↦ rw e (admitted_within profile m is a limited h admitted)
]

-- From rows in which at most `m` runs of the profile are not terminal, over any sequence of calls of
-- `Create` and any failures, where each call for the profile has a positive limit of at most `m`: at
-- most `m` runs of the profile are not terminal at the end.
pub run_asks_within :
    (profile : String) (m : ℕ) (is : Intents) (asks : List Ask)
    → All (IsLimited profile m) asks
    → active_count profile is ≤ m
    → active_count profile (run_asks is asks) ≤ m
unfolding run_asks
run_asks_within profile m is [] limited h = h
run_asks_within profile m is (a ∷ asks) limited h =
    run_asks_within profile m (create is a.tx a.intent a.limit).1 asks limited.1
      (create_within profile m is a limited.0 h)

stored :
    (is : Intents) (tx : Tx) (i i' : LaunchIntent) (limit : ℤ) (new : Bool)
    → is_decodable i ≡ true
    → (create is tx i limit).0 ≡ ok (i', new)
    → (by_key i.principal i.profile i.key_digest (create is tx i limit).1 ≡ some i')
      × (is_decodable i' ≡ true)
unfolding create create_checked create_on lookup_intent scan_intent
stored is tx i i' limit new d e =
    elim (Option-cases (by_key i.principal i.profile i.key_digest is)) [
      | inr (old, found) ↦ ground arith
      | inl fresh ↦ ground (arith, by_key-append i is fresh)
    ]

found_again :
    (is : Intents) (again i' : LaunchIntent) (later : ℤ)
    → by_key again.principal again.profile again.key_digest is ≡ some i'
    → is_decodable i' ≡ true
    → create is healthy again later ≡ (ok (i', false), is)
unfolding create create_checked create_on lookup_intent scan_intent
found_again is again i' later found good = ground arith

-- Where the intent asked for has version 1, a run id that is not empty and that run id in both its
-- metadata: after `Create` returned an intent, a later `Create` of the same key, where nothing fails, returns
-- that intent as one that was there, and adds no row, whatever else it asks and whatever its limit.
pub create-create :
    (is : Intents) (tx : Tx) (i i' again : LaunchIntent) (limit later : ℤ) (new : Bool)
    → is_decodable i ≡ true
    → (create is tx i limit).0 ≡ ok (i', new)
    → again.principal ≡ i.principal
    → again.profile ≡ i.profile
    → again.key_digest ≡ i.key_digest
    → create (create is tx i limit).1 healthy again later
      ≡ (ok (i', false), (create is tx i limit).1)
create-create is tx i i' again limit later new d e p q r =
    let (found, good) = stored is tx i i' limit new d e in
    found_again (create is tx i limit).1 again i' later (rw (p, q, r) found) good
