-- ===== src/Tripwire/Halts.antt =====
-- internal/pushtripwire/pushtripwire.go: what a halt does to the later issuance checks, under any
-- sequence of calls.
use gh_agent_broker.Prelude.{
  ℕ, String, ◌==◌, ◌≡◌, inl, inr, refl, arith, eq_refl, true, ◌&&◌, List, [], ◌∷◌, ◌++◌, Option,
  none, some, ℤ, eqb_ℤ, contains, lookup, ok, Tx, Bool-cases, Option-cases, Result-cases,
}
use gh_agent_broker.Tripwire.Contract.{Binding, ResponseRequest, Libraries}
use gh_agent_broker.Tripwire.Store.{
  ActionState, fenced_status, ResponseResult, Halt, Tables, is_halted, add_halt, act_one, act_each,
  respond,
}
use gh_agent_broker.Tripwire.Apply.{
  Adapter, mark_fenced, store_response, fence_all, fence_new, fence_old, replay,
}

eqb_ℤ-refl : (g : ℤ) → eqb_ℤ g g ≡ true
eqb_ℤ-refl g = ground arith

is_halted-append :
    (profile : String) (g : ℤ) (hs more : List Halt)
    → is_halted profile g hs ≡ true
    → is_halted profile g (hs ++ more) ≡ true
unfolding is_halted
is_halted-append profile g [] more h = absurd (ground arith)
is_halted-append profile g (x ∷ hs) more h =
    elim (Bool-cases (x.profile == profile && eqb_ℤ x.generation g)) [
      | inl here ↦ ground (arith, here)
      | inr other ↦ ground (arith, is_halted-append profile g hs more (ground arith))
    ]

is_halted-last :
    (h : Halt) (hs : List Halt) → is_halted h.profile h.generation (hs ++ h ∷ []) ≡ true
unfolding is_halted
is_halted-last h [] = ground (arith, eq_refl h.profile, eqb_ℤ-refl h.generation)
is_halted-last h (x ∷ hs) = ground (arith, is_halted-last h hs)

add_halt_keeps :
    (profile p : String) (generation g : ℤ) (finding : String) (hs : List Halt)
    → is_halted profile generation hs ≡ true
    → is_halted profile generation (add_halt p g finding hs) ≡ true
add_halt_keeps profile p generation g finding hs h = elim (Bool-cases (is_halted p g hs)) [
  | inl old ↦ ground (arith, old)
  | inr new ↦ ground (
    arith,
    new,
    is_halted-append profile generation hs
        (record { profile = p; generation = g; finding_id = finding } ∷ []) h,
  )
]

add_halt_own :
    (p : String) (g : ℤ) (finding : String) (hs : List Halt)
    → is_halted p g (add_halt p g finding hs) ≡ true
add_halt_own p g finding hs = elim (Bool-cases (is_halted p g hs)) [
  | inl old ↦ ground (arith, old)
  | inr new ↦
      ground (
        arith,
        new,
        is_halted-last (record { profile = p; generation = g; finding_id = finding }) hs,
      )
]

abbrev pub IsHalted : String → ℤ → Tables → Type 0
IsHalted profile g t = is_halted profile g t.halts ≡ true

act_one_keeps :
    (profile : String) (g : ℤ) (tx : Tx) (now : ℕ) (req : ResponseRequest) (action : String)
    (done : List ActionState) (t : Tables) (done' : List ActionState) (t' : Tables)
    → act_one tx now req action done t ≡ ok (done', t')
    → IsHalted profile g t
    → IsHalted profile g t'
unfolding act_one
act_one_keeps profile g tx now req action done t done' t' e h =
    ground
      (arith, add_halt_keeps profile req.profile g req.profile_generation req.finding_id t.halts h)

act_each_keeps :
    (profile : String) (g : ℤ) (tx : Tx) (now : ℕ) (req : ResponseRequest) (actions : List String)
    (done : List ActionState) (t : Tables) (done' : List ActionState) (t' : Tables)
    → act_each tx now req actions done t ≡ ok (done', t')
    → IsHalted profile g t
    → IsHalted profile g t'
unfolding act_each
act_each_keeps profile g tx now req [] done t done' t' e h = ground arith
act_each_keeps profile g tx now req (action ∷ actions) done t done' t' e h =
    elim (Result-cases (act_one tx now req action done t)) [
      | inr (x, bad) ↦ absurd (ground arith)
      | inl ((d, m), one) ↦
          act_each_keeps profile g tx now req actions d m done' t' (ground arith)
            (act_one_keeps profile g tx now req action done t d m one h)
    ]

act_one_halts :
    (tx : Tx) (now : ℕ) (req : ResponseRequest) (action : String) (done : List ActionState)
    (t : Tables) (done' : List ActionState) (t' : Tables)
    → (action == "halt_issuance") ≡ true
    → act_one tx now req action done t ≡ ok (done', t')
    → IsHalted req.profile req.profile_generation t'
unfolding act_one
act_one_halts tx now req action done t done' t' s e =
    ground (arith, add_halt_own req.profile req.profile_generation req.finding_id t.halts)

act_each_halts :
    (tx : Tx) (now : ℕ) (req : ResponseRequest) (actions : List String) (done : List ActionState)
    (t : Tables) (done' : List ActionState) (t' : Tables)
    → contains actions "halt_issuance" ≡ true
    → act_each tx now req actions done t ≡ ok (done', t')
    → IsHalted req.profile req.profile_generation t'
unfolding act_each contains
act_each_halts tx now req [] done t done' t' c e = absurd (ground arith)
act_each_halts tx now req (action ∷ actions) done t done' t' c e =
    elim (Result-cases (act_one tx now req action done t)) [
      | inr (x, bad) ↦ absurd (ground arith)
      | inl ((d, m), one) ↦ elim (Bool-cases (action == "halt_issuance")) [
        | inl same ↦
            act_each_keeps req.profile req.profile_generation tx now req actions d m done' t'
              (ground arith) (act_one_halts tx now req action done t d m same one)
        | inr other ↦ act_each_halts tx now req actions d m done' t' (ground arith) (ground arith)
      ]
    ]

pub respond_keeps :
    (profile : String) (g : ℤ) (l : Libraries) (t : Tables) (tx : Tx) (now : ℕ) (key : String)
    (req : ResponseRequest) (out : ResponseResult) (t' : Tables)
    → respond l t tx now key req ≡ ok (out, t')
    → IsHalted profile g t
    → IsHalted profile g t'
unfolding respond
respond_keeps profile g l t tx now key req out t' e h =
    elim (Result-cases (act_each tx now req req.actions [] t)) [
      | inr (x, bad) ↦ absurd (ground arith)
      | inl ((d, m), done) ↦
          ground (arith, act_each_keeps profile g tx now req req.actions [] t d m done h)
    ]

pub respond_halts :
    (l : Libraries) (t : Tables) (tx : Tx) (now : ℕ) (key : String) (req : ResponseRequest)
    (out : ResponseResult) (t' : Tables)
    → contains req.actions "halt_issuance" ≡ true
    → respond l t tx now key req ≡ ok (out, t')
    → IsHalted req.profile req.profile_generation t'
unfolding respond
respond_halts l t tx now key req out t' c e =
    elim (Result-cases (act_each tx now req req.actions [] t)) [
      | inr (x, bad) ↦ absurd (ground arith)
      | inl ((d, m), done) ↦ ground (arith, act_each_halts tx now req req.actions [] t d m c done)
    ]

mark_halts : (finding : String) (t : Tables) → (mark_fenced finding t).halts ≡ t.halts
mark_halts finding t = elim (Option-cases (lookup finding t.fences)) [
  | inl gone ↦ rw (gone, mark_fenced) refl
  | inr (f, there) ↦ rw (there, mark_fenced) refl
]

store_halts :
    (key : String) (out : ResponseResult) (t : Tables) → (store_response key out t).halts ≡ t.halts
store_halts key out t = elim (Option-cases (lookup key t.responses)) [
  | inl gone ↦ rw (gone, store_response) refl
  | inr (f, there) ↦ rw (there, store_response) refl
]

pub fence_new_halts :
    (adapter : Option Adapter) (key : String) (req : ResponseRequest) (out : ResponseResult)
    (t : Tables)
    → (fence_new adapter key req out t).tables.halts ≡ t.halts
unfolding fence_new
fence_new_halts none key req out t = refl
fence_new_halts (some a) key req out t = elim (Option-cases req.binding) [
  | inl free ↦ rw free refl
  | inr (b, bound) ↦ ground (
    arith,
    bound,
    mark_halts req.finding_id t,
    store_halts key (record out { actions = fence_all a.now out.actions })
        (mark_fenced req.finding_id t),
  )
]

fence_old_halts :
    (a : Adapter) (b : Binding) (finding key : String) (out : ResponseResult)
    (before after : List ActionState) (t : Tables) (asked : List Binding)
    → (fence_old a b finding key out before after t asked).tables.halts ≡ t.halts
unfolding fence_old
fence_old_halts a b finding key out before [] t asked = refl
fence_old_halts a b finding key out before (s ∷ rest) t asked =
    let now_fenced : ActionState = record s { state = fenced_status; completed_at = a.now } in
    let stored = record out { actions = before ++ now_fenced ∷ rest } in
    ground (
      arith,
      fence_old_halts a b finding key out (before ++ s ∷ []) rest t asked,
      fence_old_halts a b finding key out (before ++ s ∷ []) rest t (asked ++ b ∷ []),
      fence_old_halts a b finding key out (before ++ now_fenced ∷ []) rest
          (store_response key stored (mark_fenced finding t)) (asked ++ b ∷ []),
      mark_halts finding t,
      store_halts key stored (mark_fenced finding t),
    )

pub replay_halts :
    (adapter : Option Adapter) (key : String) (req : ResponseRequest) (out : ResponseResult)
    (t : Tables)
    → (replay adapter key req out t).tables.halts ≡ t.halts
unfolding replay
replay_halts none key req out t = refl
replay_halts (some a) key req out t = elim (Option-cases req.binding) [
  | inl free ↦ rw free refl
  | inr (b, bound) ↦
      ground (arith, bound, fence_old_halts a b req.finding_id key out [] out.actions t [])
]
