-- ===== src/Analytics/Trends.antt =====
-- The trend of the enrollments against an exact reading of its two bounds.
use chain_verse_backend.Base.{ℕ, ◌*◌, ◌<◌, ◌≡◌, ◌↔◌, arith}
use chain_verse_backend.Analytics.{Trend, calculate_trend}

-- The trend is up exactly where the current count exceeds the previous one by more than a
-- tenth of it, and down exactly where it falls short by more than a tenth, a previous count
-- of 0 included.
pub calculate_trend_iff :
    (current previous : ℕ)
    → ((calculate_trend current previous ≡ Trend.up) ↔ (11 * previous < 10 * current))
      × ((calculate_trend current previous ≡ Trend.down) ↔ (10 * current < 9 * previous))
calculate_trend_iff current previous = ground arith
