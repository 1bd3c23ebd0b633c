-- ===== src/Utils/Tests.antt =====
-- Time stamps and timers of src/utils.rs at concrete values.
use reactio_rs.Base.{
  ℕ, ◌≡◌, ◌≤◌, refl, List, [], ◌∷◌, ◌++◌, true, arith, inl, debug, release, done, panic, replicate,
  take,
}
use reactio_rs.Base.Int.{pos}
use reactio_rs.Utils.{
  Tm, low_digits, padded, write_at, date_text, fraction_text, with_fraction, format_time,
}
use reactio_rs.Utils.Stamp.{IsDate, late_date_of, format_time_lem}
use reactio_rs.Utils.Timer.{sleep_or_expire, sleep_or_expire_lem}

-- Noon on the second of January 2024.
abbrev noon : ℕ → Tm
noon seconds = record {
  tm_year = 124;
  tm_mon = 0;
  tm_mday = 2;
  tm_hour = 12;
  tm_min = 0;
  tm_sec = 5;
}

noon-IsDate : (seconds : ℕ) → IsDate (noon seconds)
noon-IsDate seconds = record {
  year = omega arith;
  month = omega arith;
  day = omega arith;
  hour = omega arith;
  minute = omega arith;
  second = omega arith;
}

-- "20240102-13:00:05.007": the hour is 13.
abbrev stamp : List ℕ
stamp =
    50 ∷ 48 ∷ 50 ∷ 52 ∷ 48 ∷ 49 ∷ 48 ∷ 50 ∷ 45 ∷ 49 ∷ 51 ∷ 58 ∷ 48 ∷ 48 ∷ 58 ∷ 48 ∷ 53 ∷ 46 ∷ 48
    ∷ 48 ∷ 55 ∷ []

shown : format_time noon noon debug (replicate 24 0) 5007000000 3 true ≡ done stamp
unfolding format_time write_at date_text fraction_text with_fraction padded
shown = refl

-- The buffer passes the debug assertion.
too_short : format_time noon noon release (replicate 22 0) 5007000000 3 true ≡ panic
unfolding format_time write_at date_text fraction_text with_fraction padded
too_short = refl

format_time_lem_example :
    format_time noon noon debug (replicate 24 0) 5007000000 3 true
    ≡ done (late_date_of (noon 5) ++ 46 ∷ take 3 (low_digits 9 7000000))
format_time_lem_example =
    format_time_lem noon noon debug (replicate 24 0) 5007000000 3 true (inl refl) (noon-IsDate 5)
      (omega arith) (omega arith)

-- Ten nanoseconds are left, and the call is for ten milliseconds at most.
sleep_or_expire_lem_example :
    (sleep_or_expire debug (pos 90) (record { start = pos 0; target = pos 100 }) (pos 20) ≡ done 10)
    × (0x8000_0000_0000_0000 ≤ 0x1_0000_0000_0000_0000)
sleep_or_expire_lem_example =
    sleep_or_expire_lem debug (pos 0) 100 90 20 (omega arith) (omega arith)
