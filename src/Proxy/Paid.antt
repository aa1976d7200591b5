-- ===== src/Proxy/Paid.antt =====
-- internal/proxy and internal/capability/rest.go: what a forwarded call has reserved in the store.
use mathlib.Core.Path.{ap₂}
use gh_agent_broker.Prelude.{
  ◌≤◌, String, ◌==◌, ◌≡◌, ◌≢◌, ◌⊎◌, inl, inr, refl, sym, subst, ◌∙◌, arith, Bool, true, false, not,
  ◌||◌, some, ℤ, pos, ltb_ℤ, Result, ok, err, Bool-cases, Option-cases, Result-cases,
}
use gh_agent_broker.Capability.Claims.{
  Claims, Error, invalid_claims, expired, agent_type_mismatch, mode_mismatch, run_mismatch,
  work_item_mismatch, model_denied, call_budget_exhausted, token_budget_exhausted, handle_not_found,
  revoked_capability, handle_malformed, storage,
}
use gh_agent_broker.Capability.Handle.{Handle}
use gh_agent_broker.Capability.Store.{Rows, Reservation, verify, reserve}
use gh_agent_broker.Capability.Trace.{run}
use gh_agent_broker.Proxy.Wire.{
  Body, reserve_path, HttpRequest, ReplyBody, Reply, Server, Visit, store_error, reserve_request,
  reply_reserve, reserve_as, handle_reserve, dispatch, serve_http,
}
use gh_agent_broker.Proxy.Client.{CapError, CapClient, Link, read_body, accept, post, cap_reserve}

-- An answer to an error is no success.
pub store_error_status : (e : Error) → 300 ≤ (store_error e).status
unfolding store_error
store_error_status invalid_claims = omega arith
store_error_status expired = omega arith
store_error_status agent_type_mismatch = omega arith
store_error_status mode_mismatch = omega arith
store_error_status run_mismatch = omega arith
store_error_status work_item_mismatch = omega arith
store_error_status model_denied = omega arith
store_error_status call_budget_exhausted = omega arith
store_error_status token_budget_exhausted = omega arith
store_error_status handle_not_found = omega arith
store_error_status revoked_capability = omega arith
store_error_status handle_malformed = omega arith
store_error_status storage = omega arith

-- The reservation of `handleReserve`, under the claims that its own `Verify` gave.
abbrev pub spend_of :
    (Handle → String) → Rows → Visit → Body → Claims → Result Error Reservation × Rows
spend_of hash rows v b c =
    reserve hash (run hash rows v.meanwhile) v.tx v.now v.stamp b.handle (reserve_request c b)

-- Either the store is as it was and the answer is a refusal, or the store is as the reservation left
-- it and the answer is a refusal unless the reservation was made.
abbrev Spends : (Handle → String) → Rows → Visit → Body → Reply × Rows → Type 0
Spends hash rows v b out =
    ((out.1 ≡ rows) × (300 ≤ out.0.status))
    ⊎ ((c : Claims) × (out.1 ≡ (spend_of hash rows v b c).1)
        × ((300 ≤ out.0.status)
            ⊎ ((total : Reservation) × ((spend_of hash rows v b c).0 ≡ ok total))))

reserve_as-Spends :
    (hash : Handle → String) (rows : Rows) (v : Visit) (b : Body)
    (r : Result Error (Claims × Reservation))
    → Spends hash rows v b (reserve_as hash rows v b r)
unfolding reserve_as reply_reserve
reserve_as-Spends hash rows v b (err e) = inl (refl, store_error_status e)
reserve_as-Spends hash rows v b (ok (c, held)) = elim (Result-cases (spend_of hash rows v b c).0) [
  | inr (e, failed) ↦
      inr (c, ground (arith, failed), inl (ground (arith, failed, store_error_status e)))
  | inl (total, made) ↦ inr (c, ground (arith, made), inr (total, made))
]

handle_reserve-Spends :
    (hash : Handle → String) (rows : Rows) (v : Visit) (b : Body)
    → Spends hash rows v b (handle_reserve hash rows v b)
unfolding handle_reserve
handle_reserve-Spends hash rows v b =
    elim (Bool-cases (ltb_ℤ b.calls (pos 0) || ltb_ℤ b.tokens (pos 0))) [
      | inl negative ↦ rw negative (inl (refl, omega arith))
      | inr fine ↦
          rw fine
            (reserve_as-Spends hash rows v b (verify hash rows v.verify_tx v.verify_now b.handle))
    ]

-- A request passes the guards of `ServeHTTP`, or is refused and the store is as it was.
abbrev pub IsRefused : Rows → Reply × Rows → Type 0
IsRefused rows out = (out.1 ≡ rows) × (300 ≤ out.0.status)

pub serve_http_cases :
    (s : Server) (rows : Rows) (v : Visit) (req : HttpRequest)
    → IsRefused rows (serve_http s rows v req)
      ⊎ (serve_http s rows v req ≡ dispatch s.hash_handle rows v req.path req.body)
unfolding serve_http
serve_http_cases s rows v req = elim (Option-cases req.bearer) [
  | inl bare ↦ inl (ground (arith, bare))
  | inr (presented, shown) ↦
      elim (Bool-cases
        (not s.has_store || s.token == "" || not (presented == s.token) || not req.is_post)) [
          | inl bad ↦ inl (ground (arith, shown, bad))
          | inr fine ↦ inr (ground (arith, shown, fine))
        ]
]

serve_http-Spends :
    (s : Server) (rows : Rows) (v : Visit) (req : HttpRequest) (b : Body)
    → req.path ≡ reserve_path
    → ((code : String) × (req.body ≡ err code)) ⊎ (req.body ≡ ok b)
    → Spends s.hash_handle rows v b (serve_http s rows v req)
unfolding dispatch
serve_http-Spends s rows v req b p h = elim (serve_http_cases s rows v req) [
  | inl refused ↦ inl refused
  | inr passed ↦ elim h [
    | inl (code, bad) ↦ inl (ground (arith, passed, p, bad))
    | inr full ↦
        subst (λ out. Spends s.hash_handle rows v b out)
          (sym (passed ∙ ap₂ (dispatch s.hash_handle rows v) p full))
          (handle_reserve-Spends s.hash_handle rows v b)
  ]
]

read_body_cases :
    (readable : Bool) (b : Body)
    → ((code : String) × (read_body readable b ≡ err code)) ⊎ (read_body readable b ≡ ok b)
read_body_cases true b = inr refl
read_body_cases false b = inl ("request body invalid or too large", refl)

-- What `cap_reserve` did: nothing that counts, or the reservation, which was made where it succeeds.
abbrev pub Reserves :
    (Handle → String) → Rows → Visit → Body → Result CapError ReplyBody × Rows → Type 0
Reserves hash rows v b out =
    ((out.1 ≡ rows) × ((x : ReplyBody) → out.0 ≢ ok x))
    ⊎ ((c : Claims) × (out.1 ≡ (spend_of hash rows v b c).1)
        × (((x : ReplyBody) → out.0 ≢ ok x)
            ⊎ ((total : Reservation) × ((spend_of hash rows v b c).0 ≡ ok total))))

pub accept_success :
    (whole : Bool) (reply : Reply) (x : ReplyBody) → 300 ≤ reply.status → accept whole reply ≢ ok x
unfolding accept
accept_success whole reply x h e = ground arith

pub cap_reserve-Reserves :
    (c : CapClient) (rows : Rows) (l : Link) (v : Visit) (handle : Handle) (model : String)
    (calls tokens : ℤ)
    → Reserves c.server.hash_handle rows v
        (record { handle = handle; model = model; calls = calls; tokens = tokens })
        (cap_reserve c rows l v handle model calls tokens)
unfolding cap_reserve post
cap_reserve-Reserves c rows l v handle model calls tokens =
    let b : Body = record { handle = handle; model = model; calls = calls; tokens = tokens } in
    let req : HttpRequest = record {
      bearer = some c.token;
      is_post = true;
      path = reserve_path;
      body = read_body l.readable b;
    } in
    elim (Bool-cases l.sent) [
      | inr lost ↦ inl (ground (arith, lost), λ x e. ground (arith, lost, e))
      | inl arrived ↦
          elim (serve_http-Spends c.server rows v req b refl (read_body_cases l.readable b)) [
            | inl (same, bad) ↦ inl (
              ground (arith, arrived, same),
              λ x e. ground (
                arith,
                arrived,
                e,
                accept_success l.whole (serve_http c.server rows v req).0 x bad,
              ),
            )
            | inr (claims, after, inl bad) ↦ inr (
              claims,
              ground (arith, arrived, after),
              inl (λ x e. ground (
                arith,
                arrived,
                e,
                accept_success l.whole (serve_http c.server rows v req).0 x bad,
              )),
            )
            | inr (claims, after, inr made) ↦ inr (claims, ground (arith, arrived, after), inr made)
          ]
    ]
