-- ===== src/Proxy/Verified.antt =====
-- internal/proxy/capability.go and capability_enforce.go: what an authenticated call knows of the
-- stored capability.
use gh_agent_broker.Prelude.{
  String, ◌≡◌, inl, inr, arith, Bool, true, [], ◌∷◌, some, pos, ok, err, Tx, lookup, Result-cases,
}
use gh_agent_broker.Capability.Claims.{Time, Claims}
use gh_agent_broker.Capability.Handle.{Handle, digest_of}
use gh_agent_broker.Capability.Store.{Row, Rows, Reservation, scan_capability, verify}
use gh_agent_broker.Capability.Budget.{scan_capability_sound}
use gh_agent_broker.Proxy.Wire.{
  Body, verify_path, HttpRequest, ReplyBody, Server, Visit, reply_verify, dispatch, serve_http,
}
use gh_agent_broker.Proxy.Client.{
  CapAuthResult, CapClient, Link, read_body, accept, post, decode_claims, claims_of, cap_verify,
  reconcile_identity, authenticate_capability,
}
use gh_agent_broker.Proxy.Paid.{serve_http_cases, store_error_status, accept_success}

-- The stored capability of the handle.
abbrev pub IsRun : (Handle → String) → Rows → Handle → String → Type 0
IsRun hash rows handle run_id =
    (row : Row) × (lookup (hash handle) rows ≡ some row) × (run_id ≡ row.stored.run_id)

digest_of_hash :
    (hash : Handle → String) (handle : Handle) (d : String)
    → digest_of hash handle ≡ ok d
    → d ≡ hash handle
unfolding digest_of
digest_of_hash hash handle d e = ground arith

verify-IsRun :
    (hash : Handle → String) (rows : Rows) (tx : Tx) (now : Time) (handle : Handle) (c : Claims)
    (held : Reservation)
    → verify hash rows tx now handle ≡ ok (c, held)
    → IsRun hash rows handle c.run_id
unfolding verify
verify-IsRun hash rows tx now handle c held e = elim (Result-cases (digest_of hash handle)) [
  | inr (x, bad) ↦ absurd (ground arith)
  | inl (d, fine) ↦ elim (Result-cases (scan_capability rows tx d)) [
    | inr (x, bad) ↦ absurd (ground arith)
    | inl (r, read) ↦
        let (row, at, s) = scan_capability_sound rows tx d r read in
        let minted = s.minted in
        (row, ground (arith, digest_of_hash hash handle d fine), ground (arith, minted.run))
  ]
]

-- What a successful answer to `capClient.verify` says.
abbrev Tells : (Handle → String) → Rows → Handle → ReplyBody → Type 0
Tells hash rows handle body = IsRun hash rows handle (decode_claims body).run_id

verify_answer :
    (s : Server) (rows : Rows) (v : Visit) (b : Body) (whole : Bool) (body : ReplyBody)
    → accept whole (reply_verify (verify s.hash_handle rows v.verify_tx v.verify_now b.handle))
      ≡ ok body
    → Tells s.hash_handle rows b.handle body
unfolding reply_verify accept decode_claims
verify_answer s rows v b whole body e =
    elim (Result-cases (verify s.hash_handle rows v.verify_tx v.verify_now b.handle)) [
      | inr (x, bad) ↦ absurd (ground (arith, store_error_status x))
      | inl ((c, held), fine) ↦
          let (row, at, same) =
            verify-IsRun s.hash_handle rows v.verify_tx v.verify_now b.handle c held fine in
          (row, at, ground (arith, same))
    ]

post_verify :
    (c : CapClient) (rows : Rows) (l : Link) (v : Visit) (b : Body) (body : ReplyBody)
    → (post c rows l v verify_path b).0 ≡ ok body
    → Tells c.server.hash_handle rows b.handle body
unfolding post dispatch
post_verify c rows l v b body e =
    let req : HttpRequest = record {
      bearer = some c.token;
      is_post = true;
      path = verify_path;
      body = read_body l.readable b;
    } in
    elim (serve_http_cases c.server rows v req) [
      | inl (same, bad) ↦
          absurd
            (ground (arith, accept_success l.whole (serve_http c.server rows v req).0 body bad))
      | inr passed ↦ verify_answer c.server rows v b l.whole body (
          ground (
            arith,
            passed,
            accept_success l.whole
                (dispatch c.server.hash_handle rows v verify_path
                  (err "request body invalid or too large")).0
                body,
          ))
    ]

pub authenticate_capability-IsRun :
    (c : CapClient) (rows : Rows) (l : Link) (v : Visit) (presented : Handle) (caller : String)
    (auth : CapAuthResult)
    → authenticate_capability c rows l v presented caller ≡ ok auth
    → (auth.handle ≡ presented) × IsRun c.server.hash_handle rows presented auth.claims.run_id
unfolding authenticate_capability reconcile_identity cap_verify claims_of
authenticate_capability-IsRun c rows l v [] caller auth e = absurd (ground arith)
authenticate_capability-IsRun c rows l v (h ∷ handle) caller auth e =
    let b : Body = record { handle = h ∷ handle; model = ""; calls = pos 0; tokens = pos 0 } in
    elim (Result-cases (post c rows l v verify_path b).0) [
      | inr (x, bad) ↦ absurd (ground (arith, bad))
      | inl (body, fine) ↦
          let (row, at, same) = post_verify c rows l v b body fine in
          (ground (arith, fine), (row, at, ground (arith, fine, same)))
    ]
