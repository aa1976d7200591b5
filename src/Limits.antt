-- ===== src/Limits.antt =====
-- internal/limits: the budgets of new GitHub objects for a run.
pub mod Reserve
pub mod Bounds
