-- ===== src/Tripwire/Replay.antt =====
-- internal/pushtripwire/pushtripwire.go: an idempotency key that is used again, and the calls of the
-- fence adapter.
use mathlib.Core.List.{append_assoc, append-nil}
use gh_agent_broker.Prelude.{
  ℕ, String, ◌==◌, ◌≡◌, ◌⊎◌, inl, inr, refl, arith, eq_refl, Bool, true, false, not, List, [], ◌∷◌,
  ◌++◌, Option, none, some, all_of, lookup, lookup-insert, ok, err, Tx, if◌then◌else◌, Option-cases,
  Result-cases,
}
use gh_agent_broker.Tripwire.Contract.{Binding, ResponseRequest, Libraries, fingerprint}
use gh_agent_broker.Tripwire.Store.{
  key_reused, ActionState, ResponseResult, StoredResponse, Tables, act_each, respond,
}
use gh_agent_broker.Tripwire.Apply.{
  Applied, Adapter, mark_fenced, store_response, fence_all, is_open_fence, fence_new, fence_old,
  replay, apply_at, apply,
}

abbrev stored_of : Libraries → ResponseRequest → ResponseResult → StoredResponse
stored_of l req out = record { fingerprint = fingerprint l req; request = req; response = out }

respond_stores :
    (l : Libraries) (t : Tables) (tx : Tx) (now : ℕ) (key : String) (req : ResponseRequest)
    (out : ResponseResult) (t' : Tables)
    → respond l t tx now key req ≡ ok (out, t')
    → lookup key t'.responses ≡ some (stored_of l req out)
unfolding respond
respond_stores l t tx now key req out t' e =
    elim (Result-cases (act_each tx now req req.actions [] t)) [
      | inr (x, bad) ↦ absurd (ground arith)
      | inl ((d, m), done) ↦
          ground (arith, eq_refl key, lookup-insert key key (stored_of l req out) m.responses)
    ]

mark_responses : (finding : String) (t : Tables) → (mark_fenced finding t).responses ≡ t.responses
mark_responses finding t = elim (Option-cases (lookup finding t.fences)) [
  | inl gone ↦ rw (gone, mark_fenced) refl
  | inr (f, there) ↦ rw (there, mark_fenced) refl
]

store_response_own :
    (key : String) (out : ResponseResult) (t : Tables) (old : StoredResponse)
    → lookup key t.responses ≡ some old
    → lookup key (store_response key out t).responses ≡ some (record old { response = out })
store_response_own key out t old h =
    rw (h, store_response) ground
      (arith, eq_refl key, lookup-insert key key (record old { response = out }) t.responses)

fence_new_stores :
    (l : Libraries) (adapter : Option Adapter) (key : String) (req : ResponseRequest)
    (first : ResponseResult) (t : Tables) (out : ResponseResult)
    → lookup key t.responses ≡ some (stored_of l req first)
    → (fence_new adapter key req first t).outcome ≡ ok out
    → lookup key (fence_new adapter key req first t).tables.responses ≡ some (stored_of l req out)
unfolding fence_new
fence_new_stores l none key req first t out h e = ground arith
fence_new_stores l (some a) key req first t out h e = elim (Option-cases req.binding) [
  | inl free ↦ ground (arith, free)
  | inr (b, bound) ↦ ground (
    arith,
    bound,
    mark_responses req.finding_id t,
    store_response_own key (record first { actions = fence_all a.now first.actions })
        (mark_fenced req.finding_id t) (stored_of l req first),
  )
]

apply_stores :
    (l : Libraries) (t : Tables) (reading : Bool) (tx : Tx) (now : ℕ) (adapter : Option Adapter)
    (key : String) (req : ResponseRequest) (out : ResponseResult)
    → lookup key t.responses ≡ none
    → (apply l t reading tx now adapter key req).outcome ≡ ok out
    → lookup key (apply l t reading tx now adapter key req).tables.responses
      ≡ some (stored_of l req out)
unfolding apply apply_at
apply_stores l t reading tx now adapter key req out gone e =
    elim (Result-cases (respond l t tx now key req)) [
      | inr (x, bad) ↦ absurd (ground (arith, gone, bad))
      | inl ((o, t'), done) ↦ ground (
        arith,
        gone,
        done,
        respond_stores l t tx now key req o t' done,
        fence_new_stores l adapter key req o t' out,
      )
    ]

-- No action waits for a fence.
abbrev pub is_settled : List ActionState → Bool
is_settled actions = all_of (λ s. not (is_open_fence s)) actions

fence_old_settled :
    (a : Adapter) (b : Binding) (finding key : String) (out : ResponseResult)
    (before after : List ActionState) (t : Tables) (asked : List Binding)
    → is_settled after ≡ true
    → fence_old a b finding key out before after t asked ≡ record {
      outcome = ok (record out { actions = before ++ after; idempotent_replay = true });
      tables = t;
      asked = asked;
    }
unfolding fence_old
fence_old_settled a b finding key out before [] t asked h = ground (arith, append-nil before)
fence_old_settled a b finding key out before (s ∷ rest) t asked h = ground (
  arith,
  fence_old_settled a b finding key out (before ++ s ∷ []) rest t asked,
  append_assoc before (s ∷ []) rest,
)

abbrev replayed : ResponseResult → Tables → Applied
replayed out t = record {
  outcome = ok (record out { idempotent_replay = true });
  tables = t;
  asked = [];
}

replay_settled :
    (adapter : Option Adapter) (key : String) (req : ResponseRequest) (out : ResponseResult)
    (t : Tables)
    → (adapter ≡ none) ⊎ (is_settled out.actions ≡ true)
    → replay adapter key req out t ≡ replayed out t
unfolding replay
replay_settled none key req out t h = refl
replay_settled (some a) key req out t (inl free) = absurd (ground arith)
replay_settled (some a) key req out t (inr h) = elim (Option-cases req.binding) [
  | inl free ↦ rw free refl
  | inr (b, bound) ↦ rw bound (fence_old_settled a b req.finding_id key out [] out.actions t [] h)
]

abbrev conflict : Tables → Applied
conflict t = record { outcome = err key_reused; tables = t; asked = [] }

apply_stored :
    (l : Libraries) (t : Tables) (tx : Tx) (now : ℕ) (adapter : Option Adapter) (key : String)
    (req req' : ResponseRequest) (out : ResponseResult)
    → l.is_id key ≡ true
    → lookup key t.responses ≡ some (stored_of l req out)
    → ((fingerprint l req == fingerprint l req') ≡ false)
      ⊎ ((adapter ≡ none) ⊎ (is_settled out.actions ≡ true))
    → apply l t true tx now adapter key req'
      ≡ (if fingerprint l req == fingerprint l req' then replayed out t else conflict t)
unfolding apply apply_at
apply_stored l t tx now adapter key req req' out named stored (inl other) = ground (arith, other)
apply_stored l t tx now adapter key req req' out named stored (inr h) =
    ground (arith, replay_settled adapter key req' out t h)

apply_named :
    (l : Libraries) (t : Tables) (reading : Bool) (tx : Tx) (now : ℕ) (adapter : Option Adapter)
    (key : String) (req : ResponseRequest) (out : ResponseResult)
    → (apply l t reading tx now adapter key req).outcome ≡ ok out
    → l.is_id key ≡ true
unfolding apply
apply_named l t reading tx now adapter key req out e = ground arith

-- After an `Apply` under a new key has returned, an `Apply` under that key of a request with the
-- same fingerprint returns the same result marked as a replay, and one of a request with another
-- fingerprint is refused; neither changes a table or asks for a fence. The condition is that the
-- database can be read and that the fingerprints differ, or there is no adapter, or no returned action
-- waits for a fence.
pub apply-apply :
    (l : Libraries) (t : Tables) (reading : Bool) (tx tx' : Tx) (now now' : ℕ)
    (adapter adapter' : Option Adapter) (key : String) (req req' : ResponseRequest)
    (out : ResponseResult)
    → lookup key t.responses ≡ none
    → (apply l t reading tx now adapter key req).outcome ≡ ok out
    → ((fingerprint l req == fingerprint l req') ≡ false)
      ⊎ ((adapter' ≡ none) ⊎ (is_settled out.actions ≡ true))
    → let after = (apply l t reading tx now adapter key req).tables in
      apply l after true tx' now' adapter' key req'
      ≡ (if fingerprint l req == fingerprint l req' then replayed out after else conflict after)
apply-apply l t reading tx tx' now now' adapter adapter' key req req' out gone e h =
    let after = (apply l t reading tx now adapter key req).tables in
    apply_stored l after tx' now' adapter' key req req' out
      (apply_named l t reading tx now adapter key req out e)
      (apply_stores l t reading tx now adapter key req out gone e) h

-- Where an `Apply` under a new key returns for a request with a binding, the adapter was asked to
-- fence that binding once, whatever the actions of the request are.
pub apply_asks :
    (l : Libraries) (t : Tables) (reading : Bool) (tx : Tx) (now : ℕ) (a : Adapter) (key : String)
    (req : ResponseRequest) (b : Binding) (out : ResponseResult)
    → lookup key t.responses ≡ none
    → req.binding ≡ some b
    → (apply l t reading tx now (some a) key req).outcome ≡ ok out
    → (apply l t reading tx now (some a) key req).asked ≡ b ∷ []
unfolding apply apply_at fence_new
apply_asks l t reading tx now a key req b out gone bound e =
    elim (Result-cases (respond l t tx now key req)) [
      | inr (x, bad) ↦ absurd (ground (arith, gone, bad))
      | inl ((o, t'), done) ↦ ground (arith, gone, done, bound)
    ]
