-- ===== src/Proxy/Bounds.antt =====
-- internal/proxy/capability_enforce.go: the bound on the tokens of a call.
use gh_agent_broker.Prelude.{
  ◌+◌, ◌-◌, ◌^◌, ◌<◌, ◌≡◌, ◌↔◌, arith, some, ℤ, pos, negsuc, pos_part, IsInt64, add64_pos,
  sub64_pos,
}
use gh_agent_broker.Proxy.Client.{preflight_token_bound}

-- The bound, where the sum is one of int64.
abbrev pub IsBound : ℤ → ℤ → ℤ → Type 0
IsBound a b t =
    (0 < pos_part a)
    × (0 < pos_part b)
    × (pos_part a + pos_part b < 2 ^ 63)
    × (t ≡ pos (pos_part a + pos_part b))

preflight_pos :
    (a b : ℤ) (t : ℤ) → IsInt64 a → IsInt64 b → preflight_token_bound a b ≡ some t → IsBound a b t
unfolding preflight_token_bound
preflight_pos (pos a) (pos b) t h k e = ground (arith, sub64_pos (2 ^ 63 - 1) b, add64_pos a b)
preflight_pos (negsuc a) b t h k e = absurd (ground arith)
preflight_pos (pos a) (negsuc b) t h k e = absurd (ground arith)

preflight_of :
    (a b : ℤ) (t : ℤ) → IsInt64 a → IsInt64 b → IsBound a b t → preflight_token_bound a b ≡ some t
unfolding preflight_token_bound
preflight_of (pos a) (pos b) t h k e = ground (arith, sub64_pos (2 ^ 63 - 1) b, add64_pos a b)
preflight_of (negsuc a) b t h k e = absurd (ground arith)
preflight_of (pos a) (negsuc b) t h k e = absurd (ground arith)

-- On two values of int64, `preflightTokenBound` gives their sum where both are positive and the sum is
-- a value of int64, and refuses all else.
pub preflight_token_bound_iff :
    (a b t : ℤ) → IsInt64 a → IsInt64 b → (preflight_token_bound a b ≡ some t) ↔ IsBound a b t
preflight_token_bound_iff a b t h k = (preflight_pos a b t h k, preflight_of a b t h k)
