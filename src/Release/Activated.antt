-- ===== src/Release/Activated.antt =====
-- internal/release/release.go: the registry stays orderly as a release becomes the active one.
use gh_agent_broker.Prelude.{
  ℕ, ◌+◌, ◌≤◌, String, ◌==◌, ◌≡◌, inl, inr, refl, sym, subst, ◌∙◌, arith, eq_iff, eq_refl, Bool,
  true, false, List, [], ◌∷◌, ◌++◌, if◌then◌else◌, Bool-cases, Option-cases,
}
use gh_agent_broker.Release.Registry.{
  State, verified, active, Operation, verify_op, acquire_op, evict_op, Release, AuditEntry,
  Registry, is_active, is_candidate, by_active, update_release, record_audit,
}
use gh_agent_broker.Release.Operations.{set_state}
use gh_agent_broker.Release.Rows.{
  one, active_count, by_generation-update_release, Numbered-update_release,
  active_count-update_release, active_count-by_active, by_active_found, by_generation-of,
}
use gh_agent_broker.Release.Outcomes.{IsRow, displaced}
use gh_agent_broker.Release.Trace.{
  is_verify, is_acquire, is_activation, has_entry, in_use, traced, IsOrderly,
}
use gh_agent_broker.Release.Traced.{
  has_entry-append, all_of_found, all_of-update_release, audit-IsOrderly,
}

-- What an update of one row must show to keep the registry orderly.
pub update-IsOrderly :
    (reg : Registry) (g : ℕ) (row : Release) (f : Release → Release)
    → IsOrderly reg
    → IsRow reg g row
    → ((r : Release) → (f r).generation ≡ r.generation)
    → traced reg.audit (f row) ≡ true
    → ((type : String) → one type (f row) + active_count type reg.releases ≤ 1 + one type row)
    → IsOrderly (record reg { releases = update_release g f reg.releases })
update-IsOrderly reg g row f h found keeps new room = record {
  numbered = Numbered-update_release f keeps g 1 reg.next_generation reg.releases h.numbered;
  single = λ type. omega (
    arith,
    room type,
    active_count-update_release type f g 1 reg.next_generation reg.releases row h.numbered found,
  );
  audited =
      all_of-update_release (traced reg.audit) f g 1 reg.next_generation reg.releases row h.numbered
        h.audited found new;
}

pub one_active :
    (reg : Registry) (row : Release) (t : String) (now : ℕ)
    → active_count t reg.releases ≤ 1
    → active_count t reg.releases ≡ 0
    → one t (record row { state = active; updated_at = now }) + active_count t reg.releases
      ≤ 1 + one t row
one_active reg row t now h e = ground arith

pub none_active :
    (reg : Registry) (row : Release) (t : String) (now : ℕ)
    → (row.agent_type == t) ≡ false
    → active_count t reg.releases ≤ 1
    → one t (record row { state = active; updated_at = now }) + active_count t reg.releases
      ≤ 1 + one t row
none_active reg row t now other h = ground arith

abbrev pub entry_of : ℕ → String → Operation → String → String → ℕ → AuditEntry
entry_of g type operation actor detail now = record {
  generation = g;
  agent_type = type;
  operation = operation;
  actor = actor;
  detail = detail;
  recorded_at = now;
}

-- The entries that the operations write support the rows that they leave.
module _ (entries : List AuditEntry) (row : Release) (h : traced entries row ≡ true) (g : ℕ)
    (at : row.generation ≡ g) (type : String) (actor detail : String) (now : ℕ) where
  pub traced-active :
      (op : Operation)
      → is_activation op ≡ true
      → is_candidate row.state ≡ false
      → traced
          (entries ++ entry_of g type op actor detail now ∷ [])
          (record row { state = active; updated_at = now })
        ≡ true
  unfolding has_entry
  traced-active op act past =
      let more : List AuditEntry = entry_of g type op actor detail now ∷ [] in
      ground (
        arith,
        has_entry-append is_verify row.generation entries more,
        has_entry-append is_activation row.generation entries more,
        has_entry-append is_acquire row.generation entries more,
      )

  pub traced-verified :
      in_use row.state ≡ false
      → traced
          (entries ++ entry_of g type verify_op actor detail now ∷ [])
          (record row { state = verified; updated_at = now })
        ≡ true
  unfolding has_entry
  traced-verified unused =
      let more : List AuditEntry = entry_of g type verify_op actor detail now ∷ [] in
      ground (
        arith,
        has_entry-append is_verify row.generation entries more,
        has_entry-append is_activation row.generation entries more,
        has_entry-append is_acquire row.generation entries more,
      )

  pub traced-available :
      (available : Bool)
      → traced
          (entries
            ++ entry_of g type (if available then acquire_op else evict_op) actor detail now ∷ [])
          (record row { available = available; updated_at = now })
        ≡ true
  unfolding has_entry
  traced-available available =
      let more : List AuditEntry =
        entry_of g type (if available then acquire_op else evict_op) actor detail now ∷ [] in
      ground (
        arith,
        has_entry-append is_verify row.generation entries more,
        has_entry-append is_activation row.generation entries more,
        has_entry-append is_acquire row.generation entries more,
      )

module _ (reg : Registry) (h : IsOrderly reg) where
  pub row-traced : (g : ℕ) (row : Release) → IsRow reg g row → traced reg.audit row ≡ true
  row-traced g row found = all_of_found (traced reg.audit) g reg.releases row h.audited found

  pub displaced-IsOrderly :
      (s : State) (type : String) (now : ℕ)
      → is_candidate s ≡ false
      → is_active s ≡ false
      → IsOrderly (displaced s reg type now)
  displaced-IsOrderly s type now nc na = elim (Option-cases (by_active type reg.releases)) [
    | inl free ↦ rw (free, displaced) h
    | inr (current, held) ↦
        let (found, same, live, low) =
          by_active_found type 1 reg.next_generation reg.releases current h.numbered held in
        rw (held, displaced)
          (update-IsOrderly reg current.generation current _ h found (λ r. refl)
            (ground (arith, row-traced current.generation current found))
            (λ t. ground (arith, h.single t)))
  ]

  -- The release to activate is still there, and no other one of its type is active.
  pub displaced_row :
      (s : State) (type : String) (now g : ℕ) (row : Release)
      → IsRow reg g row
      → is_active row.state ≡ false
      → IsRow (displaced s reg type now) g row
  displaced_row s type now g row found idle = elim (Option-cases (by_active type reg.releases)) [
    | inl free ↦ rw (free, displaced) found
    | inr (current, held) ↦
        let (at, same, live, low) =
          by_active_found type 1 reg.next_generation reg.releases current h.numbered held in
        rw (held, displaced)
          (ground (
            arith,
            found,
            at,
            idle,
            live,
            by_generation-update_release (λ r. record r { state = s; updated_at = now }) (λ r. refl)
                current.generation g reg.releases,
          ))
  ]

  pub displaced_count :
      (s : State) (type : String) (now : ℕ)
      → is_active s ≡ false
      → active_count type (displaced s reg type now).releases ≡ 0
  displaced_count s type now na = elim (Option-cases (by_active type reg.releases)) [
    | inl free ↦ rw (free, displaced) (active_count-by_active type reg.releases free)
    | inr (current, held) ↦
        let (at, same, live, low) =
          by_active_found type 1 reg.next_generation reg.releases current h.numbered held in
        rw (held, displaced)
          (ground (
            arith,
            same,
            live,
            eq_refl type,
            h.single type,
            active_count-update_release type (λ r. record r { state = s; updated_at = now })
                current.generation 1 reg.next_generation reg.releases current h.numbered at,
          ))
  ]

  pub activated-IsOrderly :
      (s : State) (type : String) (now g : ℕ) (row : Release) (op : Operation)
      (actor detail : String)
      → is_candidate s ≡ false
      → is_active s ≡ false
      → is_activation op ≡ true
      → IsRow reg g row
      → row.agent_type ≡ type
      → is_active row.state ≡ false
      → is_candidate row.state ≡ false
      → IsOrderly (
          record_audit
            (set_state g active now (displaced s reg type now))
            g
            type
            op
            actor
            detail
            now)
  unfolding record_audit
  activated-IsOrderly s type now g row op actor detail nc na act found same idle past =
      let reg' = displaced s reg type now in
      let entry : AuditEntry = entry_of g type op actor detail now in
      let row_at = displaced_row s type now g row found idle in
      let h' = displaced-IsOrderly s type now nc na in
      let logged = audit-IsOrderly reg' (entry ∷ []) h' in
      update-IsOrderly (record reg' { audit = reg'.audit ++ entry ∷ [] }) g row
        (λ r. record r { state = active; updated_at = now }) logged row_at (λ r. refl)
        (traced-active reg'.audit row
          (all_of_found (traced reg'.audit) g reg'.releases row h'.audited row_at) g
          (by_generation-of g reg'.releases row row_at) type actor detail now op act past)
        (λ t. elim (Bool-cases (row.agent_type == t)) [
          | inl this ↦ one_active reg' row t now (h'.single t) (
              subst (λ x. active_count x reg'.releases ≡ 0)
                (sym same ∙ (eq_iff row.agent_type t).0 this) (displaced_count s type now na))
          | inr other ↦ none_active reg' row t now other (h'.single t)
        ])
