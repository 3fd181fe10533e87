-- ===== src/Paging.antt =====
-- Pages of a list, as the services ask the database for them: `Math.ceil(total / limit)`, and
-- `.skip((page - 1) * limit).limit(limit)`.
use chain_verse_backend.Base.{ℕ, ◌+◌, ◌-◌, ◌/◌, List}

-- The quotient of a division by a positive number, rounded up.
abbrev pub ceil_div : ℕ → ℕ → ℕ
ceil_div n m = (n + (m - 1)) / m

pub record Page (A : Type 0) : Type 0 where
  pub items : List A
  pub total : ℕ
  pub page : ℕ
  pub limit : ℕ
  pub total_pages : ℕ
