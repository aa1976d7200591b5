-- ===== src/Correlation/Trace.antt =====
-- internal/correlation/correlation.go: the store under any sequence of its operations, each of them
-- one transaction.
use gh_agent_broker.Prelude.{ℕ, String, List, [], ◌∷◌, ℤ, Tx}
use gh_agent_broker.Correlation.Clock.{Time}
use gh_agent_broker.Correlation.Outbox.{Database, Codec, Identity, record_correlation}
use gh_agent_broker.Correlation.Lease.{ack, reclaim, claim_pending}

-- One call of the store; `Record` takes what the broker derived.
pub data Call : Type 0 where
  recording : Tx → Time → Identity → String → ℤ → Call
  claiming : Tx → Time → String → ℤ → Time → Call
  acking : Tx → Time → ℕ → String → Call
  reclaiming : Tx → Time → ℕ → String → Call

module _ {B : Type 0} (codec : Codec B) where
  unfoldable pub step : Database B → Call → Database B
  step db (recording tx now id repo pr) = (record_correlation codec db tx now id repo pr).1
  step db (claiming tx now token limit ttl) = (claim_pending db tx now token limit ttl).1
  step db (acking tx now i token) = (ack db tx now i token).1
  step db (reclaiming tx now i token) = (reclaim db tx now i token).1

  unfoldable pub run : Database B → List Call → Database B
  run db [] = db
  run db (c ∷ calls) = run (step db c) calls
