-- ===== src/Proxy/Forwarded.antt =====
-- internal/proxy/proxy.go: each outcome of a model call, and what a forwarded one has paid.
use mathlib.Core.Path.{ap₂}
use gh_agent_broker.Prelude.{
  ℕ, ◌+◌, ◌^◌, ◌<◌, String, ◌==◌, ◌≡◌, ◌⊎◌, inl, inr, refl, sym, ap, ◌∙◌, subst, arith, Bool, not,
  ◌||◌, Option, none, some, pos, pos_part, IsInt64, leb_ℤ, Result, ok, err, contains, Bool-cases,
  Option-cases, Result-cases,
}
use gh_agent_broker.Capability.Claims.{Claims}
use gh_agent_broker.Capability.Handle.{Handle}
use gh_agent_broker.Capability.Store.{Rows, Reservation}
use gh_agent_broker.Capability.Trace.{run}
use gh_agent_broker.Proxy.Wire.{Body, ReplyBody, Visit}
use gh_agent_broker.Proxy.Client.{
  CapError, CapAuthResult, CapClient, Link, has_models, done, cap_reserve, authenticate_capability,
  preflight_token_bound, reserve_capability_budget,
}
use gh_agent_broker.Proxy.Calls.{
  ModelCallRequest, Incoming, Scene, Served, is_nil, forward_paid, call_as, handle_model_call,
}
use gh_agent_broker.Proxy.Bounds.{IsBound, preflight_token_bound_iff}
use gh_agent_broker.Proxy.Paid.{spend_of, Reserves, cap_reserve-Reserves}
use gh_agent_broker.Proxy.Verified.{IsRun, authenticate_capability-IsRun}

-- The sizes of the body and of the output that is asked for are of type int.
abbrev pub IsTypedCall : Option ModelCallRequest → Type 0
IsTypedCall none = Unit
IsTypedCall (some call) = IsInt64 call.max_tokens

abbrev pub IsTypedIncoming : Incoming → Type 0
IsTypedIncoming req = (req.bytes < 2 ^ 63) × IsTypedCall req.decoded

-- The reservation for a call: one call, and the bytes of the body with the largest output.
abbrev pub paid_body : Handle → ℕ → ModelCallRequest → Body
paid_body handle bytes call = record {
  handle = handle;
  model = call.model;
  calls = pos 1;
  tokens = pos (bytes + pos_part call.max_tokens);
}

-- What was reserved for the forwarded call, and for whom. `rows'` is the store afterwards.
pub record IsPaid (hash : Handle → String) (rows : Rows) (v : Visit) (handle : Handle) (bytes : ℕ)
    (run_id : String) (call : ModelCallRequest) (rows' : Rows) : Type 0 where
  pub claims : Claims
  pub total : Reservation
  pub same_run : call.run_id ≡ run_id
  pub bound : IsBound (pos bytes) call.max_tokens (pos (bytes + pos_part call.max_tokens))
  pub reserved : spend_of hash rows v (paid_body handle bytes call) claims ≡ (ok total, rows')

-- The reservation was sent or not, and the call went out if it was made.
abbrev pub Outcome : (Handle → String) → Rows → Visit → Handle → ℕ → String → Served → Type 0
Outcome hash rows v handle bytes run_id out =
    (((out.rows ≡ rows)
        ⊎ ((b : Body) × (claims : Claims) × (b.handle ≡ handle)
            × (out.rows ≡ (spend_of hash rows v b claims).1)))
      × (out.forwarded ≡ none))
    ⊎ ((call : ModelCallRequest) × (out.forwarded ≡ some call)
        × IsPaid hash rows v handle bytes run_id call out.rows)

paid_cases :
    (c : CapClient) (rows : Rows) (l : Link) (v : Visit) (answers : Bool) (bytes : ℕ)
    (call : ModelCallRequest) (auth : CapAuthResult)
    → IsBound (pos bytes) call.max_tokens (pos (bytes + pos_part call.max_tokens))
    → (out : Result CapError ReplyBody × Rows)
    → Reserves c.server.hash_handle rows v (paid_body auth.handle bytes call) out
    → Outcome c.server.hash_handle rows v auth.handle bytes auth.claims.run_id
        (forward_paid answers call auth (done out))
unfolding forward_paid
paid_cases c rows l v answers bytes call auth bound (err e, rows') (inl (same, bad)) =
    inl (inl same, refl)
paid_cases c rows l v answers bytes call auth bound (ok x, rows') (inl (same, bad)) =
    absurd (bad x refl)
paid_cases c rows l v answers bytes call auth bound (err e, rows') (inr (claims, after, more)) =
    inl (inr (paid_body auth.handle bytes call, claims, refl, after), refl)
paid_cases c rows l v answers bytes call auth bound (ok x, rows') (inr (claims, after, inl bad)) =
    absurd (bad x refl)
paid_cases c rows l v answers bytes call auth bound (ok x, rows')
      (inr (claims, after, inr (total, made))) =
    inr (
      record call { run_id = auth.claims.run_id },
      refl,
      record {
        claims = claims;
        total = total;
        same_run = refl;
        bound = bound;
        reserved = ap₂ (λ r s. (r, s)) made (sym after);
      },
    )

budget_outcome :
    (c : CapClient) (rows : Rows) (l : Link) (v : Visit) (answers : Bool) (bytes : ℕ)
    (call : ModelCallRequest) (auth : CapAuthResult)
    → IsBound (pos bytes) call.max_tokens (pos (bytes + pos_part call.max_tokens))
    → Outcome c.server.hash_handle rows v auth.handle bytes auth.claims.run_id (
        forward_paid answers call auth (
          reserve_capability_budget c rows l v auth call.model
            (pos (bytes + pos_part call.max_tokens))))
unfolding forward_paid reserve_capability_budget
budget_outcome c rows l v answers bytes call auth bound =
    elim (Bool-cases (
      not (has_models auth.claims.allowed_models)
      || leb_ℤ (pos (bytes + pos_part call.max_tokens)) (pos 0))) [
        | inl no_models ↦ rw no_models (inl (inl refl, refl))
        | inr some_model ↦
            elim (Bool-cases
              (call.model == "" || not (contains auth.claims.allowed_models call.model))) [
                | inl denied ↦ rw (some_model, denied) (inl (inl refl, refl))
                | inr allowed ↦
                    rw (some_model, allowed)
                      (paid_cases c rows l v answers bytes call auth bound
                        (cap_reserve c rows l v auth.handle call.model (pos 1)
                          (pos (bytes + pos_part call.max_tokens)))
                        (cap_reserve-Reserves c rows l v auth.handle call.model (pos 1)
                          (pos (bytes + pos_part call.max_tokens))))
              ]
      ]

call_as_cases :
    (c : CapClient) (rows : Rows) (s : Scene) (bytes : ℕ) (call : ModelCallRequest)
    (auth : CapAuthResult)
    → bytes < 2 ^ 63
    → IsInt64 call.max_tokens
    → let out = call_as c rows s bytes call auth in
      let hash = c.server.hash_handle in
      ((out.rows ≡ rows) × (out.forwarded ≡ none))
      ⊎ Outcome hash
          (run hash rows s.meanwhile)
          s.reserve_visit
          auth.handle
          bytes
          auth.claims.run_id
          out
unfolding call_as
call_as_cases c rows s bytes call auth h k = elim (Bool-cases (is_nil call.messages)) [
  | inl empty ↦ inl (rw empty (refl, refl))
  | inr some_messages ↦ elim (Option-cases (preflight_token_bound (pos bytes) call.max_tokens)) [
    | inl refused ↦ inl (rw (some_messages, refused) (refl, refl))
    | inr (t, fits) ↦
        let (some_bytes, some_tokens, small, sum) =
          (preflight_token_bound_iff (pos bytes) call.max_tokens t (omega arith) k).0 fits in
        let fits' = fits ∙ ap some sum in
        inr (
          rw (some_messages, fits')
            (budget_outcome c (run c.server.hash_handle rows s.meanwhile) s.reserve_link
              s.reserve_visit s.model_answers bytes call auth
              (some_bytes, some_tokens, small, refl)))
  ]
]

-- A call does nothing at all, or it has found the capability and has the outcome of its reservation.
abbrev pub CallOutcome : CapClient → Rows → Scene → Incoming → Served → Type 0
CallOutcome c rows s req out =
    ((out.rows ≡ rows) × (out.forwarded ≡ none))
    ⊎ ((run_id : String) × IsRun c.server.hash_handle rows req.presented run_id
        × Outcome c.server.hash_handle (run c.server.hash_handle rows s.meanwhile) s.reserve_visit
            req.presented req.bytes run_id out)

pub call_cases :
    (c : CapClient) (rows : Rows) (s : Scene) (req : Incoming)
    → IsTypedIncoming req
    → CallOutcome c rows s req (handle_model_call c rows s req)
unfolding handle_model_call
call_cases c rows s req typed = elim (Bool-cases req.within_limit) [
  | inr large ↦ inl (rw large (refl, refl))
  | inl small ↦ elim (Option-cases req.decoded) [
    | inl bad ↦ inl (rw (small, bad) (refl, refl))
    | inr (call, json) ↦
        elim (Result-cases
          (authenticate_capability c rows s.verify_link s.verify_visit req.presented call.run_id)) [
            | inr (e, refused) ↦ inl (rw (small, json, refused) (refl, refl))
            | inl (auth, passed) ↦
                let (same, known) =
                  authenticate_capability-IsRun c rows s.verify_link s.verify_visit req.presented
                    call.run_id auth passed in
                let int : IsInt64 call.max_tokens = subst IsTypedCall json typed.1 in
                elim (call_as_cases c rows s req.bytes call auth typed.0 int) [
                  | inl nothing ↦ inl (rw (small, json, passed) nothing)
                  | inr outcome ↦ inr (
                    auth.claims.run_id,
                    known,
                    rw (small, json, passed)
                        (subst
                          (λ h.
                            Outcome c.server.hash_handle (run c.server.hash_handle rows s.meanwhile)
                              s.reserve_visit h req.bytes auth.claims.run_id
                              (call_as c rows s req.bytes call auth))
                          same outcome),
                  )
                ]
          ]
  ]
]

-- A call on typed input goes to the model only under the run id of the capability that the store has for
-- the presented handle, and only after one call and the bytes of its body with the output that it asks
-- for, a sum in int64, were reserved for its model.
pub handle_model_call-IsPaid :
    (c : CapClient) (rows : Rows) (s : Scene) (req : Incoming) (call : ModelCallRequest)
    → IsTypedIncoming req
    → (handle_model_call c rows s req).forwarded ≡ some call
    → IsRun c.server.hash_handle rows req.presented call.run_id
      × IsPaid c.server.hash_handle
          (run c.server.hash_handle rows s.meanwhile)
          s.reserve_visit
          req.presented
          req.bytes
          call.run_id
          call
          (handle_model_call c rows s req).rows
handle_model_call-IsPaid c rows s req call typed sent = elim (call_cases c rows s req typed) [
  | inl (same, unsent) ↦ absurd (ground arith)
  | inr (run_id, known, inl (more, unsent)) ↦ absurd (ground arith)
  | inr (run_id, known, inr (call', sent', paid)) ↦
      let same : call' ≡ call = ground arith in
      let own : run_id ≡ call.run_id = sym paid.same_run ∙ ap (λ r. r.run_id) same in
      let out = (handle_model_call c rows s req).rows in
      let mid = run c.server.hash_handle rows s.meanwhile in
      let paid' =
        subst
          (λ r. IsPaid c.server.hash_handle mid s.reserve_visit req.presented req.bytes r call' out)
          own paid in
      (
        subst (λ r. IsRun c.server.hash_handle rows req.presented r) own known,
        subst
            (λ k.
              IsPaid c.server.hash_handle mid s.reserve_visit req.presented req.bytes call.run_id k
                out)
            same paid',
      )
]
