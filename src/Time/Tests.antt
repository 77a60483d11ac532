-- ===== src/Time/Tests.antt =====
-- The theorems on src/ph_time.c at concrete inputs, and its formats.
use posthog_c.Base.{
  ◌+◌, ◌-◌, ◌/◌, ◌^◌, ◌≤◌, ◌<◌, ◌≡◌, refl, length, take, get_or, leb, if◌then◌else◌, codes, arith,
}
use posthog_c.Time.{distance, correct_wall_epoch, uuid_v7, Tm, format_iso8601}
use posthog_c.Time.Epoch.{correct_wall_epoch_lem}
use posthog_c.Time.Uuid.{read_uuid, big_endian, uuid_v7_lem}

-- The wall clock has jumped ahead by 3990.
correct_wall_epoch_lem_example :
    let corrected = correct_wall_epoch 1000 10 5000 20 100 in
    let elapsed = 20 - 10 in
    let excess = 1000 + elapsed - (2 ^ 64 - 1) in
    (distance 5000 (corrected + elapsed) ≤ 100 + excess)
    × (corrected < 2 ^ 64)
    × ((if leb (distance 5000 (1000 + elapsed - excess)) 100 then 1000 else 5000 + excess - elapsed)
        ≡ corrected)
correct_wall_epoch_lem_example =
    correct_wall_epoch_lem 1000 10 5000 20 100 (omega arith) (omega arith) (omega arith)
      (omega arith)

uuid_v7_lem_example :
    let u = uuid_v7 1700000000000 12345 1 in
    (length u ≡ 36)
    × (length (read_uuid u) ≡ 16)
    × (big_endian 0 (take 6 (read_uuid u)) ≡ 1700000000000)
    × (get_or (read_uuid u) 6 0 / 16 ≡ 7)
    × (get_or (read_uuid u) 8 0 / 64 ≡ 2)
uuid_v7_lem_example = uuid_v7_lem 1700000000000 12345 1 (omega arith)

abbrev new_year : Tm
new_year = record { year = 2024; month = 1; day = 1; hour = 0; minute = 0; second = 5 }

iso_text : format_iso8601 (λ s. new_year) 1704067205042000000 ≡ codes "2024-01-01T00:00:05.042Z"
unfolding format_iso8601
iso_text = refl
