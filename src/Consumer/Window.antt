-- ===== src/Consumer/Window.antt =====
-- How many deliveries the statistics of a consumer count.
use iceflow.Prelude.{
  ℕ, ◌≤◌, ◌≡◌, ap, sym, ◌∙◌, Option, List, [], ◌∷◌, ◌++◌, String, arith, length, All, All-append,
  All-map,
}
use mathlib.Core.List.{append-nil, append_assoc}
use iceflow.Timestamps.Window.{clean_up_timestamps-past, save_timestamp-past}
use iceflow.Consumer.{Consumer, create, save_consumption, get_consumption_stats}

-- Each time is at or after the one before.
abbrev pub IsRising : ℕ → List ℕ → Type 0
IsRising last [] = Unit
IsRising last (time ∷ times) = (last ≤ time) × IsRising time times

-- the last of the times
abbrev pub final : ℕ → List ℕ → ℕ
final last [] = last
final last (time ∷ times) = final time times

module _ {K R : Type 0} where
  -- Deliveries at these times, one after the other.
  abbrev pub save_all : List ℕ → Consumer K R → Consumer K R
  save_all [] c = c
  save_all (time ∷ times) c = save_all times (save_consumption time c)

  save_all-stamps :
      (last : ℕ) (times : List ℕ) (c : Consumer K R)
      → All (λ t. t ≤ last) c.consumption_timestamps
      → IsRising last times
      → ((save_all times c).consumption_timestamps ≡ c.consumption_timestamps ++ times)
        × All (λ t. t ≤ final last times) (c.consumption_timestamps ++ times)
  unfolding save_consumption
  save_all-stamps last [] c old rising =
      (sym (append-nil c.consumption_timestamps), All-append _ c.consumption_timestamps [] old tt)
  save_all-stamps last (time ∷ times) c old rising =
      let stamps = c.consumption_timestamps in
      let past : All (λ t. t ≤ time) stamps =
        All-map _ _ stamps (λ t h. omega (arith, h, rising.0)) old in
      let e = save_timestamp-past c.max_consumption_age time stamps past in
      let all : All (λ t. t ≤ time) (stamps ++ time ∷ []) =
        All-append _ stamps (time ∷ []) past (omega arith, tt) in
      let (kept, old') = save_all-stamps time times (save_consumption time c) (rw e all) rising.1 in
      (
        kept ∙ ap (λ l. l ++ times) e ∙ append_assoc stamps (time ∷ []) times,
        rw (← append_assoc stamps (time ∷ []) times, ← e) old',
      )

module _ (K : Type 0) {R : Type 0} where
  -- The statistics of a new consumer after deliveries in the order of time count every one of them,
  -- however long ago it was: the age of one second does not limit the count.
  pub get_consumption_stats-save_all :
      (sync edge : String) (reporter : Option R) (start now : ℕ) (times : List ℕ)
      → IsRising start times
      → final start times ≤ now
      → (get_consumption_stats now
          (save_all times (create {K = K} sync edge reporter start))).0.units_consumed
        ≡ length times
  unfolding get_consumption_stats create
  get_consumption_stats-save_all sync edge reporter start now times rising later =
      let c : Consumer K R = save_all times (create sync edge reporter start) in
      let (kept, past) =
        save_all-stamps {K = K} start times (create sync edge reporter start) tt rising in
      let past' : All (λ t. t ≤ now) times =
        All-map _ _ times (λ t h. omega (arith, h, later)) past in
      rw kept (ap length (clean_up_timestamps-past c.max_consumption_age now times past'))
