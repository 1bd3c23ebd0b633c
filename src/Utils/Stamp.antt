-- ===== src/Utils/Stamp.antt =====
-- The time stamps of src/utils.rs's `format_time`.
use native.Mathlib.Nat.{zero-add}
use reactio_rs.Base.{
  ℕ, zero, suc, ◌+◌, ◌*◌, ◌/◌, ◌%◌, ◌^◌, ◌≤◌, ◌<◌, ◌≡◌, refl, ap, ◌∙◌, arith, List, [], ◌∷◌, ◌++◌,
  Bool, true, ◌⊎◌, inl, inr, Build, done, panic, Bool-cases, ◌&&◌, ◌==◌, ◌||◌, debug_assert-true,
  if◌then◌else◌, length, take, drop, length-append, length-drop, take-append, ltb, leb, ◌==◌,
  suc-add,
}
use reactio_rs.Utils.{
  Tm, low_digits, padded, write_at, date_text, fraction_text, with_fraction, format_time,
}

-- The fields as libc documents them, in a year of four digits.
pub record IsDate (tm : Tm) : Type 0 where
  pub year : tm.tm_year + 1900 < 10000
  pub month : tm.tm_mon < 12
  pub day : tm.tm_mday ≤ 31
  pub hour : tm.tm_hour < 24
  pub minute : tm.tm_min < 60
  pub second : tm.tm_sec ≤ 60

padded-fits : (width n : ℕ) → n < 10 ^ width → padded width n ≡ low_digits width n
unfolding padded
padded-fits width n h = ground (arith, h)

-- `YYYYMMDD-hh:mm:ss` of the hour after `tm_hour`, which libc counts from 0: an hour too late, and 24
-- in the last hour of a day.
abbrev pub late_date_of : Tm → List ℕ
late_date_of tm =
    low_digits 4 (tm.tm_year + 1900)
    ++ (low_digits 2 (tm.tm_mon + 1)
        ++ (low_digits 2 tm.tm_mday
            ++ (45 ∷ low_digits 2 (tm.tm_hour + 1)
                ++ (58 ∷ low_digits 2 tm.tm_min ++ 58 ∷ low_digits 2 tm.tm_sec))))

date_text-fits : (tm : Tm) → IsDate tm → date_text tm ≡ late_date_of tm
unfolding date_text
date_text-fits tm d =
    rw
      (
        padded-fits 4 (tm.tm_year + 1900) d.year,
        padded-fits 2 (tm.tm_mon + 1) (omega (arith, d.month)),
        padded-fits 2 tm.tm_mday (omega (arith, d.day)),
        padded-fits 2 (tm.tm_hour + 1) (omega (arith, d.hour)),
        padded-fits 2 tm.tm_min (omega (arith, d.minute)),
        padded-fits 2 tm.tm_sec (omega (arith, d.second)),
      )
      refl

take_past : (xs ys : List ℕ) (k : ℕ) → take (length xs + k) (xs ++ ys) ≡ xs ++ take k ys
take_past [] ys k = rw zero-add refl
take_past (x ∷ xs) ys k = rw suc-add (ap (◌∷◌ x) (take_past xs ys k))

take_within : (xs ys : List ℕ) (k : ℕ) → k ≤ length xs → take k (xs ++ ys) ≡ take k xs
take_within xs ys zero h = refl
take_within [] ys (suc k) h = absurd (omega arith)
take_within (x ∷ xs) ys (suc k) h = ap (◌∷◌ x) (take_within xs ys k (omega arith))

write_at-fits :
    (buffer text : List ℕ) (n : ℕ)
    → n + length text ≤ length buffer
    → write_at buffer n text ≡ done (take n buffer ++ (text ++ drop (n + length text) buffer))
unfolding write_at
write_at-fits buffer text n h = ground (arith, h)

write_at-short :
    (buffer text : List ℕ) (n : ℕ)
    → length buffer < n + length text
    → write_at buffer n text ≡ panic
unfolding write_at
write_at-short buffer text n h = ground (arith, h)

-- The numbers of digits that the debug assertion allows, 0 aside.
abbrev pub IsShown : ℕ → Type 0
IsShown d = (d ≡ 3) ⊎ ((d ≡ 6) ⊎ (d ≡ 9))

-- The text behind the seconds begins with the digits that are shown.
fraction-digits :
    (d n : ℕ)
    → IsShown d
    → n < 1000000000
    → (take (d + 1) (fraction_text d n) ≡ 46 ∷ take d (low_digits 9 n))
      × (length (fraction_text d n) ≡ (if d == 3 then 7 else 10))
unfolding fraction_text
fraction-digits d n (inl e) h =
    let thousandth : n / 10 / 10 / 10 ≡ n / 1000 = omega arith in
    rw (e, padded-fits 6 (n / 1000) (omega arith), thousandth) (refl, refl)
fraction-digits d n (inr (inl e)) h = rw (e, padded-fits 9 n h) (refl, refl)
fraction-digits d n (inr (inr e)) h = rw (e, padded-fits 9 n h) (refl, refl)

with_fraction-fits :
    (buffer date : List ℕ) (d n : ℕ)
    → IsShown d
    → n < 1000000000
    → length date ≡ 17
    → (rest : List ℕ) → buffer ≡ date ++ rest
    → with_fraction buffer n d ≡ (
        if leb (17 + (if d == 3 then 7 else 10)) (length buffer)
        then done (date ++ 46 ∷ take d (low_digits 9 n))
        else panic)
unfolding with_fraction
with_fraction-fits buffer date d n shown h size rest e =
    let text = fraction_text d n in
    let (digits, text_size) = fraction-digits d n shown h in
    let in_range : (ltb 0 d && ltb d 10) ≡ true = ground (arith, shown) in
    let end : 17 + (d / 3 * 3 + 1) ≡ length date + (d + 1) = ground (arith, shown, size) in
    let enough : d + 1 ≤ length text = ground (arith, shown, text_size) in
    let front : take 17 buffer ≡ date =
      rw (e, take-append 17 date rest (omega (arith, size))) refl in
    elim (Bool-cases (leb (17 + (if d == 3 then 7 else 10)) (length buffer))) [
      | inr short ↦
          rw (in_range, write_at-short buffer text 17 (ground (arith, short, text_size)), short)
            refl
      | inl fits ↦
          let behind = drop (17 + length text) buffer in
          let written : write_at buffer 17 text ≡ done (date ++ (text ++ behind)) =
            write_at-fits buffer text 17 (ground (arith, fits, text_size))
            ∙ ap (λ (f : List ℕ). done (f ++ (text ++ behind))) front in
          let long : leb (length date + (d + 1)) (length (date ++ (text ++ behind))) ≡ true =
            ground
              (arith, length-append date (text ++ behind), length-append text behind, enough) in
          rw
            (
              in_range,
              written,
              end,
              long,
              fits,
              take_past date (text ++ behind) (d + 1),
              take_within text behind (d + 1) enough,
              digits,
            )
            refl
    ]

module _ (localtime_r gmtime_r : ℕ → Tm) (build : Build) where
  -- For 3, 6 or 9 digits, a buffer of fewer than 2^32 bytes whose length passes the debug assertion,
  -- and a time that libc gives in range and in a year of four digits, `format_time` in either build
  -- returns the date and the time with an hour that is one too many, 24 in the last hour of a day, then
  -- a point, and the first digits of the nanoseconds, which are padded to nine. The exception is a
  -- buffer of fewer than 24 bytes for 3 digits, or of fewer than 27 for 6 or 9: there it panics.
  pub format_time_lem :
      (buffer : List ℕ) (nownanos d : ℕ) (gmt_time : Bool)
      → IsShown d
      → IsDate (
          if gmt_time
          then gmtime_r (nownanos / 1000000000)
          else localtime_r (nownanos / 1000000000))
      → 17 + d + 1 < length buffer
      → length buffer < 2 ^ 32
      → format_time localtime_r gmtime_r build buffer nownanos d gmt_time ≡ (
          if leb (17 + (if d == 3 then 7 else 10)) (length buffer)
          then done (
              late_date_of (
                if gmt_time
                then gmtime_r (nownanos / 1000000000)
                else localtime_r (nownanos / 1000000000))
              ++ 46 ∷ take d (low_digits 9 (nownanos % 1000000000)))
          else panic)
  unfolding format_time
  format_time_lem buffer nownanos d gmt_time shown date room small =
      let tm =
        if gmt_time
        then gmtime_r (nownanos / 1000000000)
        else localtime_r (nownanos / 1000000000) in
      let digits : (d == 0 || d == 3 || d == 6 || d == 9) ≡ true = ground (arith, shown) in
      let enough : ltb (17 + d + 1) (length buffer % 2 ^ 32) ≡ true = ground (arith, room, small) in
      let buffer' = late_date_of tm ++ drop 17 buffer in
      let same_size : length buffer' ≡ length buffer =
        omega
          (arith, length-append (late_date_of tm) (drop 17 buffer), length-drop 17 buffer, room) in
      let written : write_at buffer 0 (date_text tm) ≡ done buffer' =
        rw (date_text-fits tm date)
          (write_at-fits buffer (late_date_of tm) 0 (omega (arith, room))) in
      rw (digits, enough, debug_assert-true build, written, ← same_size)
        (with_fraction-fits buffer' (late_date_of tm) d (nownanos % 1000000000) shown (omega arith)
          refl (drop 17 buffer) refl)
