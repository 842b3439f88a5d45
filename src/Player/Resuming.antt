-- ===== src/Player/Resuming.antt =====
-- track.ts: when a listener is put back to a stored position.
use lamp_light.Base.{ℕ, ◌+◌, ◌≤◌, ◌<◌, ◌↔◌, some, arith}
use lamp_light.Player.{should_resume_from}

-- For a recording of known length above zero, playing resumes past the start exactly when the stored position
-- is at least fifteen seconds in and more than fifteen seconds before the end.
pub should_resume_from_iff :
    (stored duration : ℕ)
    → 0 < duration
    → (0 < should_resume_from stored (some duration)) ↔ ((15 ≤ stored) × (stored + 15 < duration))
unfolding should_resume_from
should_resume_from_iff stored duration h = ground arith
