-- ===== src/Proxy/Refine.antt =====
-- internal/proxy/proxy.go: a model call as the calls of the store that it amounts to.
use gh_agent_broker.Prelude.{
  String, ◌≡◌, inl, inr, sym, ap, ◌∙◌, subst, arith, List, [], ◌∷◌, ◌++◌, some, All,
}
use gh_agent_broker.Capability.Claims.{Claims}
use gh_agent_broker.Capability.Handle.{Handle}
use gh_agent_broker.Capability.Store.{Rows}
use gh_agent_broker.Capability.Trace.{Call, spend, IsTyped, step, run, amount, granted}
use gh_agent_broker.Capability.Ledger.{granted_in}
use gh_agent_broker.Proxy.Wire.{Body, Visit, reserve_request}
use gh_agent_broker.Proxy.Client.{CapClient}
use gh_agent_broker.Proxy.Calls.{ModelCallRequest, Incoming, Scene, Served}
use gh_agent_broker.Proxy.Paid.{spend_of}
use gh_agent_broker.Proxy.Forwarded.{paid_body, IsPaid, Outcome}
use gh_agent_broker.Proxy.Trace.{
  cost_of, CoversPair, run-append, granted_in-append, All-append, Refines,
}

abbrev pub spend_call : Visit → Body → Claims → Call
spend_call v b claims = spend v.tx v.now v.stamp b.handle (reserve_request claims b)

-- The calls by others and the reservation.
abbrev pub spend_trace : Scene → Body → Claims → List Call
spend_trace s b claims =
    s.meanwhile ++ (s.reserve_visit.meanwhile ++ spend_call s.reserve_visit b claims ∷ [])

pub run-spend_trace :
    (hash : Handle → String) (rows : Rows) (s : Scene) (b : Body) (claims : Claims)
    → run hash rows (spend_trace s b claims)
      ≡ (spend_of hash (run hash rows s.meanwhile) s.reserve_visit b claims).1
unfolding run step
run-spend_trace hash rows s b claims =
    run-append hash rows s.meanwhile
      (s.reserve_visit.meanwhile ++ spend_call s.reserve_visit b claims ∷ [])
    ∙ run-append hash (run hash rows s.meanwhile) s.reserve_visit.meanwhile
        (spend_call s.reserve_visit b claims ∷ [])

pub spend_trace-IsTyped :
    (s : Scene) (b : Body) (claims : Claims)
    → All IsTyped s.meanwhile
    → All IsTyped s.reserve_visit.meanwhile
    → All IsTyped (spend_trace s b claims)
spend_trace-IsTyped s b claims h k =
    All-append s.meanwhile (s.reserve_visit.meanwhile ++ spend_call s.reserve_visit b claims ∷ []) h
      (All-append s.reserve_visit.meanwhile (spend_call s.reserve_visit b claims ∷ []) k (tt, tt))

-- The whole grants at least what its last reservation does.
pub spend_covers :
    (hash : Handle → String) (rows : Rows) (d : String) (s : Scene) (b : Body) (claims : Claims)
    → CoversPair
        (amount d
          (hash b.handle)
          (reserve_request claims b)
          (spend_of hash (run hash rows s.meanwhile) s.reserve_visit b claims).0)
        (granted_in hash rows d (spend_trace s b claims))
unfolding granted_in granted
spend_covers hash rows d s b claims =
    let mid = run hash rows s.meanwhile in
    let sp = spend_call s.reserve_visit b claims in
    ground (
      arith,
      granted_in-append hash rows d s.meanwhile (s.reserve_visit.meanwhile ++ sp ∷ []),
      granted_in-append hash mid d s.reserve_visit.meanwhile (sp ∷ []),
    )

pub paid_cost :
    (hash : Handle → String) (rows : Rows) (v : Visit) (d run_id : String) (req : Incoming)
    (call : ModelCallRequest) (rows' : Rows)
    (p : IsPaid hash rows v req.presented req.bytes run_id call rows')
    → let b = paid_body req.presented req.bytes call in
      amount d (hash req.presented) (reserve_request p.claims b) (spend_of hash rows v b p.claims).0
      ≡ cost_of d (hash req.presented) req.bytes (some call)
unfolding amount cost_of
paid_cost hash rows v d run_id req call rows' p = ground (arith, p.reserved)

pub nothing-Refines :
    (hash : Handle → String) (rows : Rows) (d : String) (rows' : Rows)
    → rows' ≡ rows
    → Refines hash rows d rows' (0, 0) []
unfolding run
nothing-Refines hash rows d rows' same = record {
  same_rows = same;
  typed = tt;
  covers = (omega arith, omega arith);
}

pub outcome-Refines :
    (c : CapClient) (rows : Rows) (d run_id : String) (s : Scene) (req : Incoming) (out : Served)
    → All IsTyped s.meanwhile
    → All IsTyped s.reserve_visit.meanwhile
    → Outcome c.server.hash_handle
        (run c.server.hash_handle rows s.meanwhile)
        s.reserve_visit
        req.presented
        req.bytes
        run_id
        out
    → (calls : List Call) × Refines c.server.hash_handle rows d out.rows
        (cost_of d (c.server.hash_handle req.presented) req.bytes out.forwarded)
        calls
unfolding cost_of
outcome-Refines c rows d run_id s req out h k (inl (inl same, unsent)) = (
  s.meanwhile,
  rw unsent (record { same_rows = same; typed = h; covers = (omega arith, omega arith) }),
)
outcome-Refines c rows d run_id s req out h k (inl (inr (b, claims, own, after), unsent)) = (
  spend_trace s b claims,
  rw unsent (record {
    same_rows = after ∙ sym (run-spend_trace c.server.hash_handle rows s b claims);
    typed = spend_trace-IsTyped s b claims h k;
    covers = (omega arith, omega arith);
  }),
)
outcome-Refines c rows d run_id s req out h k (inr (call, sent, p)) =
    let hash = c.server.hash_handle in
    let b = paid_body req.presented req.bytes call in
    (
      spend_trace s b p.claims,
      rw sent (record {
        same_rows = sym (ap (λ r. r.1) p.reserved) ∙ sym (run-spend_trace hash rows s b p.claims);
        typed = spend_trace-IsTyped s b p.claims h k;
        covers =
            subst (λ g. CoversPair g (granted_in hash rows d (spend_trace s b p.claims)))
              (paid_cost hash (run hash rows s.meanwhile) s.reserve_visit d run_id req call out.rows
                p)
              (spend_covers hash rows d s b p.claims);
      }),
    )
