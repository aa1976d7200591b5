-- ===== src/Capability/Minted.antt =====
-- The columns that `Issue` writes, and the row that a minting adds.
use gh_agent_broker.Prelude.{
  ℕ, String, ◌≡◌, ◌≢◌, refl, arith, false, Option, none, some, List, [], ◌∷◌, pos, ok, Tx, lookup,
  insert, contains,
}
use gh_agent_broker.Capability.Claims.{Time, Claims}
use gh_agent_broker.Capability.Decision.{IsCoherent}
use gh_agent_broker.Capability.Mint.{IsWellFormed}
use gh_agent_broker.Capability.Handle.{Handle}
use gh_agent_broker.Capability.Store.{
  active, Row, Rows, insert_sorted, sort_strings, allowed_models, columns_of, issue_row,
}

contains-insert_sorted :
    (m x : String) (xs : List String) → contains (insert_sorted m xs) x ≡ contains (m ∷ xs) x
unfolding contains insert_sorted
contains-insert_sorted m x [] = refl
contains-insert_sorted m x (y ∷ xs) = ground (arith, contains-insert_sorted m x xs)

pub contains-sort_strings :
    (x : String) (xs : List String) → contains (sort_strings xs) x ≡ contains xs x
unfolding contains sort_strings
contains-sort_strings x [] = refl
contains-sort_strings x (y ∷ xs) =
    ground (arith, contains-insert_sorted y x (sort_strings xs), contains-sort_strings x xs)

insert_sorted-ne-nil : (m : String) (xs : List String) → insert_sorted m xs ≢ []
unfolding insert_sorted
insert_sorted-ne-nil m [] h = cc
insert_sorted-ne-nil m (y ∷ xs) h = ground arith

sort_strings-nil : (xs : List String) → (sort_strings xs ≡ []) → xs ≡ []
unfolding sort_strings
sort_strings-nil [] h = refl
sort_strings-nil (x ∷ xs) h = absurd (insert_sorted-ne-nil x (sort_strings xs) h)

-- The columns written for minted claims are well-formed again.
pub columns_of-IsWellFormed :
    (c : Claims) → IsCoherent c → contains c.allowed_models "" ≡ false → IsWellFormed (columns_of c)
unfolding columns_of allowed_models
columns_of-IsWellFormed c k b = record {
  agent = k.agent;
  mode = k.mode;
  run = k.run;
  work_item = k.work_item;
  expires = k.expires;
  no_blank = rw (contains-sort_strings "" c.allowed_models) b;
  access = ground (arith, k.access, sort_strings-nil c.allowed_models);
}

pub issue_row_inserts :
    (hash : Handle → String) (rows : Rows) (tx : Tx) (now stamp : Time) (raw : Option (List ℕ))
    (c : Claims) (out : Handle × Rows)
    → issue_row hash rows tx now stamp raw c ≡ ok out
    → (lookup (hash out.0) rows ≡ none)
      × (out.1
          ≡ insert
              (hash out.0)
              (record {
                stored = columns_of c;
                state = active;
                reservation = record { calls = pos 0; tokens = pos 0 };
                created_at = stamp;
                updated_at = stamp;
              })
              rows)
unfolding issue_row
issue_row_inserts hash rows tx now stamp none c out h = ground arith
issue_row_inserts hash rows tx now stamp (some raw) c out h = ground arith

-- The row that a minting writes.
abbrev pub fresh_row : Claims → Time → Row
fresh_row c stamp = record {
  stored = columns_of c;
  state = active;
  reservation = record { calls = pos 0; tokens = pos 0 };
  created_at = stamp;
  updated_at = stamp;
}
