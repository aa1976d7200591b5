-- ===== src/Correlation/Leases.antt =====
-- internal/correlation/correlation.go: when the SELECT of `ClaimPending` takes a claimed event.
use gh_agent_broker.Prelude.{ℕ, ◌+◌, ◌*◌, ◌<◌, String, ◌≡◌, true}
use gh_agent_broker.Correlation.Clock.{nanos, text_le_misorders}
use gh_agent_broker.Correlation.Outbox.{OutboxEvent}
use gh_agent_broker.Correlation.Lease.{lease_over, is_claimable, set_claimed}

-- An event that was claimed after the bound of the query, in the second that starts at the bound, is
-- taken from its holder: its time is written with a fraction and the bound without one.
pub lease_cut_short :
    {B : Type 0} (token : String) (e : OutboxEvent B) (s n : ℕ)
    → 0 < n
    → n < nanos
    → is_claimable (s * nanos) (set_claimed token (s * nanos + n) e) ≡ true
unfolding is_claimable lease_over set_claimed
lease_cut_short token e s n p h = (text_le_misorders s n p h).0
