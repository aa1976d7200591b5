-- ===== src/Proxy/Trace.antt =====
-- internal/proxy/proxy.go over internal/capability/store.go: model calls and calls of the store in any
-- order, and what went to the model.
use gh_agent_broker.Prelude.{
  ℕ, ◌+◌, ◌≤◌, String, ◌==◌, ◌≡◌, refl, arith, List, [], ◌∷◌, ◌++◌, Option, none, some, pos_part,
  All, if◌then◌else◌,
}
use gh_agent_broker.Capability.Handle.{Handle}
use gh_agent_broker.Capability.Store.{Rows}
use gh_agent_broker.Capability.Trace.{Call, IsTyped, step, run}
use gh_agent_broker.Capability.Ledger.{granted_in}
use gh_agent_broker.Proxy.Client.{CapClient}
use gh_agent_broker.Proxy.Calls.{ModelCallRequest, Incoming, Scene, handle_model_call}
use gh_agent_broker.Proxy.Forwarded.{IsTypedIncoming}

-- A model call through the proxy, or a call of the store by others.
pub data Event : Type 0 where
  calling : Scene → Incoming → Event
  storing : Call → Event

abbrev pub IsTypedEvent : Event → Type 0
IsTypedEvent (calling s req) =
    IsTypedIncoming req × All IsTyped s.meanwhile × All IsTyped s.reserve_visit.meanwhile
IsTypedEvent (storing call) = IsTyped call

unfoldable pub after_event : CapClient → Rows → Event → Rows
after_event c rows (calling s req) = (handle_model_call c rows s req).rows
after_event c rows (storing call) = step c.server.hash_handle rows call

-- The calls, and the bytes with the largest outputs, of what went to the model for the digest `d`.
unfoldable pub cost_of : String → String → ℕ → Option ModelCallRequest → ℕ × ℕ
cost_of d digest bytes none = (0, 0)
cost_of d digest bytes (some call) =
    if digest == d then (1, bytes + pos_part call.max_tokens) else (0, 0)

unfoldable pub forwarded_by : CapClient → Rows → String → Event → ℕ × ℕ
unfolding cost_of
forwarded_by c rows d (calling s req) =
    cost_of d (c.server.hash_handle req.presented) req.bytes
      (handle_model_call c rows s req).forwarded
forwarded_by c rows d (storing call) = (0, 0)

unfoldable pub forwarded_in : CapClient → Rows → String → List Event → ℕ × ℕ
unfolding forwarded_by
forwarded_in c rows d [] = (0, 0)
forwarded_in c rows d (e ∷ events) =
    let now = forwarded_by c rows d e in
    let later = forwarded_in c (after_event c rows e) d events in (now.0 + later.0, now.1 + later.1)

abbrev pub CoversPair : ℕ × ℕ → ℕ × ℕ → Type 0
CoversPair small large = (small.0 ≤ large.0) × (small.1 ≤ large.1)

pub run-append :
    (hash : Handle → String) (rows : Rows) (xs ys : List Call)
    → run hash rows (xs ++ ys) ≡ run hash (run hash rows xs) ys
unfolding run
run-append hash rows [] ys = refl
run-append hash rows (x ∷ xs) ys = run-append hash (step hash rows x) xs ys

-- What the first part and the second part of a sequence grant, the whole grants.
pub granted_in-append :
    (hash : Handle → String) (rows : Rows) (d : String) (xs ys : List Call)
    → let (a, b) = granted_in hash rows d xs in
      let (a', b') = granted_in hash (run hash rows xs) d ys in
      granted_in hash rows d (xs ++ ys) ≡ (a + a', b + b')
unfolding granted_in run
granted_in-append hash rows d [] ys = ground arith
granted_in-append hash rows d (x ∷ xs) ys =
    ground (arith, granted_in-append hash (step hash rows x) d xs ys)

pub All-append : (xs ys : List Call) → All IsTyped xs → All IsTyped ys → All IsTyped (xs ++ ys)
All-append [] ys h k = k
All-append (x ∷ xs) ys h k = (h.0, All-append xs ys h.1 k)

-- The calls of the store that an event amounts to: they lead to the same rows, and grant the digest at
-- least what was forwarded.
pub record Refines (hash : Handle → String) (rows : Rows) (d : String) (rows' : Rows) (cost : ℕ × ℕ)
    (calls : List Call) : Type 0 where
  pub same_rows : rows' ≡ run hash rows calls
  pub typed : All IsTyped calls
  pub covers : CoversPair cost (granted_in hash rows d calls)
