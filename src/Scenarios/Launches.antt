-- ===== src/Scenarios/Launches.antt =====
-- internal/sandbox/launch_intents.go: three launches of a profile that admits two runs.
use gh_agent_broker.Prelude.{
  ◌≤◌, String, ◌≡◌, inr, refl, arith, true, false, List, [], ◌∷◌, pos, ok, healthy, All,
}
use gh_agent_broker.Launch.Intents.{
  created, LaunchIntent, by_key, by_run, is_decodable, scan_intent, lookup_intent, active_count,
  create_on, create_checked, create,
}
unfoldable use gh_agent_broker.Launch.Intents.{
  by_key, by_run, is_decodable, scan_intent, lookup_intent, active_count, create_on, create_checked,
  create,
}
use gh_agent_broker.Launch.Busy.{Ask, IsLimited, run_asks, run_asks_within, create-create}

abbrev intent : String → String → LaunchIntent
intent key run = record {
  principal = "orchestrator";
  profile = "worker";
  key_digest = key;
  request_fingerprint = "fingerprint";
  run_id = run;
  state = created;
  version = 1;
  plan_metadata = record { run_id = run; status = "pending" };
  metadata = record { run_id = run; status = "pending" };
}

abbrev ask : String → String → Ask
ask key run = record { tx = healthy; intent = intent key run; limit = pos 2 }

abbrev asks : List Ask
asks = ask "key-1" "run-1" ∷ ask "key-2" "run-2" ∷ ask "key-3" "run-3" ∷ []

limited : All (IsLimited "worker" 2) asks
limited = (
  inr (omega arith, omega arith),
  (inr (omega arith, omega arith), (inr (omega arith, omega arith), tt)),
)

run_asks_within_example : active_count "worker" (run_asks [] asks) ≤ 2
run_asks_within_example =
    run_asks_within "worker" 2 [] asks limited (unfold active_count in omega arith)

decodable : is_decodable (intent "key-1" "run-1") ≡ true
unfolding is_decodable
decodable = refl

made : (create [] healthy (intent "key-1" "run-1") (pos 2)).0 ≡ ok (intent "key-1" "run-1", true)
unfolding create create_checked create_on lookup_intent scan_intent by_key by_run active_count
made = refl

create-create_example :
    create
      (create [] healthy (intent "key-1" "run-1") (pos 2)).1
      healthy
      (intent "key-1" "run-9")
      (pos 1)
    ≡ (ok (intent "key-1" "run-1", false), (create [] healthy (intent "key-1" "run-1") (pos 2)).1)
create-create_example =
    create-create [] healthy (intent "key-1" "run-1") (intent "key-1" "run-1")
      (intent "key-1" "run-9") (pos 2) (pos 1) true decodable made refl refl refl
