-- ===== src/Lib.antt =====
-- gh-agent-broker: what the broker decides and stores, modelled and verified.
--
-- The broker stands between coding agents and GitHub. A request of an agent passes the policy, the
-- mutation limits and the idempotency keys before the broker acts on GitHub. A run of an agent holds
-- a capability, an opaque handle with budgets of model calls and tokens, which the proxy verifies and
-- reserves from. A pull request that a run opens is recorded with an event in an outbox, which a
-- consumer claims and acknowledges. The sandbox keeps an intent of each launch, so that a launch under
-- the same key happens once and a profile stays within its number of runs, and prunes old runs. A
-- registry keeps the releases of each agent type and the one that a launch uses. A scanner of pushed
-- commits may halt the issuance of new authority for a profile and have a worker fenced. A holder
-- refreshes the Codex credentials and gives each run an access bundle once.
--
-- The parts and their files:
--   Prelude       shared types: Go's maps, (T, error) results, int64 and database transactions
--   Capability    internal/capability/capability.go and store.go. Claims and Evaluator are NewClaims,
--                 Validate and Authorize; Handle and Store are Issue, Verify, Reserve, Revoke and the
--                 offline Validate. Decision, Mint, Minted, Budget, Atomic, Trace, Invariant, Growth,
--                 Ledger, RoundTrip and Offline hold the proofs.
--   Policy        internal/policy/policy.go. Types, Assertions and Check model it, Fields and Verdict prove.
--   Limits        internal/limits/limits.go. Reserve is CheckAndReserve, Bounds proves.
--   Idempotency   internal/idempotency/idempotency.go. Keys models it, Once and Readback
--                 prove.
--   Correlation   internal/correlation/correlation.go. Clock is the order of stored times, Outbox is
--                 Record, Lease is ClaimPending, Ack, Reclaim and PendingCount; Recorded, Select,
--                 Candidates, First, Settle, Leases, Moves, Trace, Lifecycle, Paired and Replay prove.
--   Retention     internal/sandbox/retention.go. Plan and Prune are PruneRuns; Safety, Budget,
--                 Needed and Accounts prove.
--   Launch        internal/sandbox/launch_intents.go. Intents is Create, Lookup, LookupRun, Save,
--                 SaveMetadata and IsNonterminalRun, Busy proves.
--   Auth          internal/auth/auth.go: AuthenticateAgent and AuthenticateAdmin; Known proves.
--   Proxy         internal/capability/rest.go (Wire), internal/proxy/capability.go and capability_enforce.go
--                 (Client) and the model calls of internal/proxy/proxy.go (Calls). Bounds, Paid, Verified,
--                 Forwarded, Trace, Refine and Ledger hold the proofs.
--   CodexAuth     internal/codexauth/holder.go. Files and Holder model it; Issued, Consumed and Usable
--                 prove.
--   Release       internal/release/release.go. Registry, Operations, Activation and Reconcile model it;
--                 Rows, Outcomes, Trace, Traced, Activated, Orderly and Resolution hold the proofs, and
--                 Items, Rounds and Reconciled those of Reconcile.
--   Tripwire      internal/pushtripwire/pushtripwire.go. Contract is the requests, Store and Apply the
--                 tables and the operations on them; Halts, Permanent and Replay hold the proofs.
--   Scenarios     concrete inputs at which the theorems apply.
--
-- How the code is modelled. A store is the list of its rows or the value of its file, and a call of
-- it is one step: the databases have one connection and the files are held under a mutex. A record
-- `Tx` says which statements of a call succeed, and is given by the environment; a call that fails
-- leaves the rows as they were. Integers of type int64 are integers that wrap. Times are nanoseconds
-- since Go's zero time; a stored time is read back if it lies before the year 10000, where its text
-- has four digits of the year. Loops are recursion on lists, so that no fuel is needed.
--
-- Parameters. SHA-256, what encoding/json makes of a raw message and of an event, regexp,
-- strings.EqualFold, strings.ToLower, strings.TrimSpace, strings.Join and the verb %q are arguments of
-- the definitions that use them, and CleanupRun of the sandbox and the file system's answers are
-- arguments of the pruning. The fence adapter and the check
-- of an image's availability are arguments too. A record `Link` says how the network treats a message
-- of the proxy, and a record `Visit` what the broker's store meets in between.
--
-- Not modelled: the other HTTP handlers, the GitHub client, the upstream calls of the model proxy and
-- its streams, the sandbox's containers, the loading of the configuration and the commands, which are
-- mostly input and output; the opening and the schemas of the databases; the texts of most errors.
mod Prelude
pub mod Capability
pub mod Policy
pub mod Limits
pub mod Idempotency
pub mod Correlation
pub mod Retention
pub mod Launch
pub mod Auth
pub mod Proxy
pub mod CodexAuth
pub mod Release
pub mod Tripwire
pub mod Scenarios
