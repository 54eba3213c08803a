-- ===== src/Timestamps/Window.antt =====
-- What the clean-up of the time stamps removes.
use iceflow.Prelude.{ℕ, ◌≤◌, ◌≡◌, refl, List, [], ◌∷◌, ◌++◌, arith, All, All-append}
use iceflow.Timestamps.{clean_up_timestamps, save_timestamp}

-- A time stamp from before the reference is never removed, however old it is.
pub clean_up_timestamps-past :
    (max_age reference : ℕ) (stamps : List ℕ)
    → All (λ t. t ≤ reference) stamps
    → clean_up_timestamps max_age reference stamps ≡ stamps
unfolding clean_up_timestamps
clean_up_timestamps-past max_age reference [] h = refl
clean_up_timestamps-past max_age reference (t ∷ ts) h = ground (arith, h.0)

-- The stamps that are left are a final part of those that were there.
pub save_timestamp-past :
    (max_age now : ℕ) (stamps : List ℕ)
    → All (λ t. t ≤ now) stamps
    → save_timestamp max_age now stamps ≡ stamps ++ now ∷ []
unfolding save_timestamp
save_timestamp-past max_age now stamps h =
    clean_up_timestamps-past max_age now _
      (All-append (λ t. t ≤ now) stamps (now ∷ []) h (omega arith, tt))
