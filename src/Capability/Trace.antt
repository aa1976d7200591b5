-- ===== src/Capability/Trace.antt =====
-- The store under any sequence of calls: each call runs to its end, in its transaction, before the
-- next one starts, as the store's single connection has it.
use gh_agent_broker.Prelude.{
  ℕ, String, ◌==◌, Option, List, [], ◌∷◌, pos_part, IsInt64, ok, err, Tx, Result, if◌then◌else◌,
}
use gh_agent_broker.Capability.Claims.{Time, Claims, ClaimsInput, Error, new_claims}
use gh_agent_broker.Capability.Evaluator.{Request}
use gh_agent_broker.Capability.Handle.{Handle}
use gh_agent_broker.Capability.Store.{Rows, Reservation, issue, reserve, revoke}

-- A call of the store. `Claims` are made by `NewClaims` only, so a minting carries its input.
-- `verify` writes nothing and is left out.
pub data Call : Type 0 where
  mint : Tx → Time → Time → Option (List ℕ) → ClaimsInput → Call
  spend : Tx → Time → Time → Handle → Request → Call
  cancel : Tx → Time → Handle → Call

-- The budgets of the input are of type int64.
abbrev pub IsTyped : Call → Type 0
IsTyped (mint tx now stamp raw input) = IsInt64 input.call_budget × IsInt64 input.token_budget
IsTyped (spend tx now stamp handle req) = Unit
IsTyped (cancel tx stamp handle) = Unit

unfoldable pub issue_minted :
    (Handle → String) → Rows → Tx → Time → Time → Option (List ℕ) → Result Error Claims → Rows
issue_minted hash rows tx now stamp raw (ok c) = (issue hash rows tx now stamp raw c).1
issue_minted hash rows tx now stamp raw (err e) = rows

unfoldable pub step : (Handle → String) → Rows → Call → Rows
unfolding issue_minted
step hash rows (mint tx now stamp raw input) =
    issue_minted hash rows tx now stamp raw (new_claims input)
step hash rows (spend tx now stamp handle req) = (reserve hash rows tx now stamp handle req).1
step hash rows (cancel tx stamp handle) = (revoke hash rows tx stamp handle).1

unfoldable pub run : (Handle → String) → Rows → List Call → Rows
run hash rows [] = rows
run hash rows (c ∷ calls) = run hash (step hash rows c) calls

-- What a call grants to the capability with digest `d`: the pair of calls and tokens.
unfoldable pub amount : String → String → Request → Result Error Reservation → ℕ × ℕ
amount d digest req (err e) = (0, 0)
amount d digest req (ok total) =
    if digest == d then (pos_part req.calls, pos_part req.tokens) else (0, 0)

unfoldable pub granted : (Handle → String) → Rows → String → Call → ℕ × ℕ
unfolding amount
granted hash rows d (spend tx now stamp handle req) =
    amount d (hash handle) req (reserve hash rows tx now stamp handle req).0
granted hash rows d (mint tx now stamp raw input) = (0, 0)
granted hash rows d (cancel tx stamp handle) = (0, 0)
