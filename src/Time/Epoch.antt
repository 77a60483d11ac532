-- ===== src/Time/Epoch.antt =====
-- ph_correct_wall_epoch of src/ph_time.c.
use posthog_c.Base.{ℕ, ◌+◌, ◌-◌, ◌^◌, ◌≤◌, ◌<◌, ◌≡◌, leb, if◌then◌else◌, arith}
use posthog_c.Time.{add_saturating, distance, correct_wall_epoch}

-- Whatever jump the wall clock has made, the corrected epoch predicts its present reading to within the
-- threshold, where the monotonic clock has not gone back, no reading is before its epoch and all fit 64
-- bits; where the prediction of the old epoch does not fit, to within what it exceeds them by, besides.
-- An epoch whose prediction, cut at the largest, was within the threshold is left as it is.
pub correct_wall_epoch_lem :
    (epoch_wall epoch_mono now_wall now_mono threshold : ℕ)
    → epoch_mono ≤ now_mono
    → now_mono - epoch_mono ≤ now_wall
    → epoch_wall < 2 ^ 64
    → now_wall < 2 ^ 64
    → let corrected = correct_wall_epoch epoch_wall epoch_mono now_wall now_mono threshold in
      let elapsed = now_mono - epoch_mono in
      let excess = epoch_wall + elapsed - (2 ^ 64 - 1) in
      (distance now_wall (corrected + elapsed) ≤ threshold + excess)
      × (corrected < 2 ^ 64)
      × ((if leb (distance now_wall (epoch_wall + elapsed - excess)) threshold
            then epoch_wall
            else now_wall + excess - elapsed)
          ≡ corrected)
unfolding correct_wall_epoch distance add_saturating
correct_wall_epoch_lem epoch_wall epoch_mono now_wall now_mono threshold hm hp hs hw = ground arith
