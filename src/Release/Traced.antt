-- ===== src/Release/Traced.antt =====
-- internal/release/release.go: the audit entries of the releases, as rows change.
use gh_agent_broker.Prelude.{
  ℕ, suc, ◌<◌, ◌≡◌, inl, inr, refl, arith, Bool, true, ◌||◌, List, [], ◌∷◌, ◌++◌, some, eqb, all_of,
  Bool-cases,
}
use gh_agent_broker.Release.Registry.{
  Operation, Release, AuditEntry, Registry, by_generation, update_release,
}
use gh_agent_broker.Release.Rows.{Numbered}
use gh_agent_broker.Release.Trace.{
  is_verify, is_acquire, is_activation, has_entry, traced, IsOrderly,
}

pub has_entry-append :
    (p : Operation → Bool) (g : ℕ) (entries more : List AuditEntry)
    → has_entry p g (entries ++ more) ≡ (has_entry p g entries || has_entry p g more)
unfolding has_entry
has_entry-append p g [] more = refl
has_entry-append p g (a ∷ entries) more = ground (arith, has_entry-append p g entries more)

pub traced-append :
    (entries more : List AuditEntry) (r : Release)
    → traced entries r ≡ true
    → traced (entries ++ more) r ≡ true
traced-append entries more r h = ground (
  arith,
  has_entry-append is_verify r.generation entries more,
  has_entry-append is_activation r.generation entries more,
  has_entry-append is_acquire r.generation entries more,
)

pub all_traced-append :
    (entries more : List AuditEntry) (rs : List Release)
    → all_of (traced entries) rs ≡ true
    → all_of (traced (entries ++ more)) rs ≡ true
all_traced-append entries more [] h = refl
all_traced-append entries more (r ∷ rs) h =
    ground (arith, traced-append entries more r, all_traced-append entries more rs)

pub all_of_found :
    (q : Release → Bool) (g : ℕ) (rs : List Release) (row : Release)
    → all_of q rs ≡ true
    → by_generation g rs ≡ some row
    → q row ≡ true
unfolding by_generation
all_of_found q g [] row h e = cc
all_of_found q g (r ∷ rs) row h e = ground (arith, all_of_found q g rs row)

-- Past the generation no row is touched.
pub all_of-update_past :
    (q : Release → Bool) (f : Release → Release) (g lo next : ℕ) (rs : List Release)
    → g < lo
    → Numbered lo rs next
    → all_of q rs ≡ true
    → all_of q (update_release g f rs) ≡ true
unfolding update_release
all_of-update_past q f g lo next [] less n h = refl
all_of-update_past q f g lo next (r ∷ rs) less n h =
    ground (arith, all_of-update_past q f g (suc r.generation) next rs)

pub all_of-update_release :
    (q : Release → Bool) (f : Release → Release) (g lo next : ℕ) (rs : List Release) (row : Release)
    → Numbered lo rs next
    → all_of q rs ≡ true
    → by_generation g rs ≡ some row
    → q (f row) ≡ true
    → all_of q (update_release g f rs) ≡ true
unfolding update_release by_generation
all_of-update_release q f g lo next [] row n h e new = refl
all_of-update_release q f g lo next (r ∷ rs) row n h e new =
    elim (Bool-cases (eqb r.generation g)) [
      | inl same ↦ ground (arith, n.1, all_of-update_past q f g (suc r.generation) next rs)
      | inr other ↦ ground (arith, n.1, all_of-update_release q f g (suc r.generation) next rs row)
    ]

pub audit-IsOrderly :
    (reg : Registry) (more : List AuditEntry)
    → IsOrderly reg
    → IsOrderly (record reg { audit = reg.audit ++ more })
audit-IsOrderly reg more h = record {
  numbered = h.numbered;
  single = h.single;
  audited = all_traced-append reg.audit more reg.releases h.audited;
}

pub all_of-append :
    (q : Release → Bool) (rs : List Release) (r : Release)
    → all_of q rs ≡ true
    → q r ≡ true
    → all_of q (rs ++ r ∷ []) ≡ true
all_of-append q [] r h n = ground arith
all_of-append q (x ∷ rs) r h n = ground (arith, all_of-append q rs r)
