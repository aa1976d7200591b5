-- ===== src/Tripwire/Apply.antt =====
-- internal/pushtripwire/pushtripwire.go: `Apply`, with the calls of the fence adapter.
use gh_agent_broker.Prelude.{
  ℕ, String, ◌==◌, Bool, true, false, not, ◌&&◌, List, [], ◌∷◌, ◌++◌, Option, none, some, lookup,
  insert, Result, ok, err, Tx, if◌then◌else◌,
}
use gh_agent_broker.Tripwire.Contract.{Binding, ResponseRequest, Libraries, fingerprint}
use gh_agent_broker.Tripwire.Store.{
  Error, invalid_key, key_reused, storage, fenced, ActionState, fence_requested, fenced_status,
  ResponseResult, StoredResponse, Tables, respond,
}

-- A call of `Apply`: its outcome, the tables, and the bindings that the adapter was asked to fence.
pub record Applied : Type 0 where
  pub outcome : Result Error ResponseResult
  pub tables : Tables
  pub asked : List Binding

-- The adapter, and which of the updates after a fence succeed.
pub record Adapter : Type 0 where
  pub fence : Binding → String → Bool
  pub marks : Bool
  pub stores : Bool
  pub now : ℕ

abbrev pub mark_fenced : String → Tables → Tables
mark_fenced finding t = elim (lookup finding t.fences) [
  | none ↦ t
  | some f ↦ record t { fences = insert finding (record f { state = fenced }) t.fences }
]

abbrev pub store_response : String → ResponseResult → Tables → Tables
store_response key out t = elim (lookup key t.responses) [
  | none ↦ t
  | some r ↦ record t { responses = insert key (record r { response = out }) t.responses }
]

abbrev set_fenced : ℕ → ActionState → ActionState
set_fenced now a =
    if a.action == "fence_worker_session"
    then record a { state = fenced_status; completed_at = now }
    else a

unfoldable pub fence_all : ℕ → List ActionState → List ActionState
fence_all now [] = []
fence_all now (a ∷ actions) = set_fenced now a ∷ fence_all now actions

-- What follows the transaction of a new key.
unfoldable pub fence_new :
    Option Adapter → String → ResponseRequest → ResponseResult → Tables → Applied
unfolding fence_all
fence_new none key req out t = record { outcome = ok out; tables = t; asked = [] }
fence_new (some a) key req out t = elim req.binding [
  | none ↦ record { outcome = ok out; tables = t; asked = [] }
  | some b ↦
      if not (a.fence b req.finding_id)
      then record { outcome = ok out; tables = t; asked = b ∷ [] }
      else if not a.marks
      then record { outcome = err storage; tables = t; asked = b ∷ [] }
      else (let out' = record out { actions = fence_all a.now out.actions } in
          let t' = mark_fenced req.finding_id t in
          if not a.stores
          then record { outcome = err storage; tables = t'; asked = b ∷ [] }
          else record { outcome = ok out'; tables = store_response key out' t'; asked = b ∷ [] })
]

abbrev pub is_open_fence : ActionState → Bool
is_open_fence a =
    a.action == "fence_worker_session" && (elim a.state [ fence_requested ↦ true | _ ↦ false ])

-- The loop over the stored actions on a replay: `before` is what was passed.
unfoldable pub fence_old :
    Adapter
    → Binding
    → String
    → String
    → ResponseResult
    → List ActionState
    → List ActionState
    → Tables
    → List Binding
    → Applied
fence_old a b finding key out before [] t asked = record {
  outcome = ok (record out { actions = before; idempotent_replay = true });
  tables = t;
  asked = asked;
}
fence_old a b finding key out before (s ∷ rest) t asked =
    let now_fenced = record s { state = fenced_status; completed_at = a.now } in
    let passed = fence_old a b finding key out (before ++ s ∷ []) rest t asked in
    let refused = fence_old a b finding key out (before ++ s ∷ []) rest t (asked ++ b ∷ []) in
    let stored =
      store_response key (record out { actions = before ++ now_fenced ∷ rest })
        (mark_fenced finding t) in
    let done =
      fence_old a b finding key out (before ++ now_fenced ∷ []) rest stored (asked ++ b ∷ []) in
    if not (is_open_fence s)
    then passed
    else if not (a.fence b finding)
    then refused
    else if not a.marks
    then record { outcome = err storage; tables = t; asked = asked ++ b ∷ [] }
    else if not a.stores
    then record { outcome = err storage; tables = mark_fenced finding t; asked = asked ++ b ∷ [] }
    else done

unfoldable pub replay :
    Option Adapter → String → ResponseRequest → ResponseResult → Tables → Applied
unfolding fence_old
replay none key req out t = record {
  outcome = ok (record out { idempotent_replay = true });
  tables = t;
  asked = [];
}
replay (some a) key req out t = elim req.binding [
  | none ↦ record { outcome = ok (record out { idempotent_replay = true }); tables = t; asked = [] }
  | some b ↦ fence_old a b req.finding_id key out [] out.actions t []
]

abbrev after_respond :
    Option Adapter
    → String
    → ResponseRequest
    → Tables
    → Result Error (ResponseResult × Tables)
    → Applied
after_respond adapter key req t (err e) = record { outcome = err e; tables = t; asked = [] }
after_respond adapter key req t (ok (out, t')) = fence_new adapter key req out t'

abbrev refused_as : Error → Tables → Applied
refused_as e t = record { outcome = err e; tables = t; asked = [] }

unfoldable pub apply_at :
    Libraries
    → Tables
    → Tx
    → ℕ
    → Option Adapter
    → String
    → ResponseRequest
    → Option StoredResponse
    → Applied
unfolding respond fence_new replay
apply_at l t tx now adapter key req none =
    after_respond adapter key req t (respond l t tx now key req)
apply_at l t tx now adapter key req (some old) =
    if old.fingerprint == fingerprint l req
    then replay adapter key req old.response t
    else refused_as key_reused t

-- `reading` says whether the first query succeeds.
unfoldable pub apply :
    Libraries → Tables → Bool → Tx → ℕ → Option Adapter → String → ResponseRequest → Applied
unfolding apply_at
apply l t reading tx now adapter key req =
    if not (l.is_id key)
    then refused_as invalid_key t
    else if not reading
    then refused_as storage t
    else apply_at l t tx now adapter key req (lookup key t.responses)
