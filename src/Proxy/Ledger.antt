-- ===== src/Proxy/Ledger.antt =====
-- internal/proxy/proxy.go over internal/capability/store.go: what the forwarded calls of a run cost,
-- together, against the budgets of its capability.
use gh_agent_broker.Prelude.{
  ℕ, ◌+◌, ◌≤◌, String, ◌≡◌, inl, inr, refl, sym, ◌∙◌, subst, arith, List, [], ◌∷◌, ◌++◌, some,
  pos_part, All, lookup,
}
use gh_agent_broker.Capability.Handle.{Handle}
use gh_agent_broker.Capability.Budget.{AllSound}
use gh_agent_broker.Capability.Store.{Row, Rows}
use gh_agent_broker.Capability.Trace.{Call, step, run}
use gh_agent_broker.Capability.Ledger.{budget_respected}
use gh_agent_broker.Proxy.Client.{CapClient}
use gh_agent_broker.Proxy.Calls.{handle_model_call}
use gh_agent_broker.Proxy.Forwarded.{call_cases}
use gh_agent_broker.Proxy.Trace.{
  Event, calling, storing, IsTypedEvent, after_event, forwarded_by, forwarded_in, run-append,
  granted_in-append, All-append, Refines,
}
use gh_agent_broker.Proxy.Refine.{nothing-Refines, outcome-Refines}

event-Refines :
    (c : CapClient) (rows : Rows) (d : String) (e : Event)
    → IsTypedEvent e
    → (calls : List Call) × Refines c.server.hash_handle rows d
        (after_event c rows e)
        (forwarded_by c rows d e)
        calls
unfolding after_event forwarded_by run step
event-Refines c rows d (storing call) typed = (
  call ∷ [],
  record { same_rows = refl; typed = (typed, tt); covers = (omega arith, omega arith) },
)
event-Refines c rows d (calling s req) (sizes, h, k) = elim (call_cases c rows s req sizes) [
  | inl (same, unsent) ↦ (
    [],
    rw unsent
        (nothing-Refines c.server.hash_handle rows d (handle_model_call c rows s req).rows same),
  )
  | inr (run_id, known, outcome) ↦
      outcome-Refines c rows d run_id s req (handle_model_call c rows s req) h k outcome
]

then-Refines :
    (hash : Handle → String) (rows rows' rows'' : Rows) (d : String) (g h : ℕ × ℕ)
    (xs ys : List Call)
    → Refines hash rows d rows' g xs
    → Refines hash rows' d rows'' h ys
    → Refines hash rows d rows'' (g.0 + h.0, g.1 + h.1) (xs ++ ys)
then-Refines hash rows rows' rows'' d g h xs ys f k =
    let k' = subst (λ r. Refines hash r d rows'' h ys) f.same_rows k in
    record {
      same_rows = k'.same_rows ∙ sym (run-append hash rows xs ys);
      typed = All-append xs ys f.typed k.typed;
      covers = ground (arith, f.covers, k'.covers, granted_in-append hash rows d xs ys);
    }

unfoldable pub after_events : CapClient → Rows → List Event → Rows
after_events c rows [] = rows
after_events c rows (e ∷ events) = after_events c (after_event c rows e) events

-- For any model calls through the proxy and calls of the store by others, there is a sequence of calls
-- of the store alone that leads to the same rows and grants the capability at least what was forwarded
-- for it.
pub events-Refines :
    (c : CapClient) (rows : Rows) (d : String) (events : List Event)
    → All IsTypedEvent events
    → (calls : List Call) × Refines c.server.hash_handle rows d
        (after_events c rows events)
        (forwarded_in c rows d events)
        calls
unfolding after_events forwarded_in
events-Refines c rows d [] typed = ([], nothing-Refines c.server.hash_handle rows d rows refl)
events-Refines c rows d (e ∷ events) (now, later) =
    let hash = c.server.hash_handle in
    let (xs, first) = event-Refines c rows d e now in
    let (ys, rest) = events-Refines c (after_event c rows e) d events later in
    (
      xs ++ ys,
      then-Refines hash rows (after_event c rows e) (after_events c (after_event c rows e) events) d
          (forwarded_by c rows d e) (forwarded_in c (after_event c rows e) d events) xs ys first
          rest,
    )

-- From a sound store, for any sequence of model calls through the proxy and calls of the store by
-- others, on typed input and whatever the network and the databases do: the calls that went to the
-- model for a capability, and the bytes of their bodies with the outputs that they asked for, stay
-- within its call budget and its token budget, with what it held at the start.
pub forwarded_within :
    (c : CapClient) (rows : Rows) (events : List Event) (d : String) (row : Row)
    → AllSound rows
    → All IsTypedEvent events
    → lookup d rows ≡ some row
    → (pos_part row.reservation.calls + (forwarded_in c rows d events).0
        ≤ pos_part row.stored.call_budget)
      × (pos_part row.reservation.tokens + (forwarded_in c rows d events).1
          ≤ pos_part row.stored.token_budget)
forwarded_within c rows events d row sound typed at =
    let (calls, r) = events-Refines c rows d events typed in
    let (last, found, held_calls, held_tokens, calls_fit, tokens_fit) =
      budget_respected c.server.hash_handle rows calls d row sound r.typed at in
    ground (arith, r.covers, calls_fit, tokens_fit)
