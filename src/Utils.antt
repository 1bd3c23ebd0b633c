-- ===== src/Utils.antt =====
-- src/utils.rs: the time stamps of the log, and the timers. The conversions of libc from seconds to a
-- broken-down time are parameters. Times are not before the epoch, so they are natural numbers.
pub mod Stamp
pub mod Timer
pub mod Bytes
mod Tests
use reactio_rs.Base.{
  ℕ, zero, suc, ◌+◌, ◌-◌, ◌*◌, ◌/◌, ◌%◌, ◌^◌, List, [], ◌∷◌, ◌++◌, Bool, true, false, ◌||◌, ◌&&◌,
  Build, Outcome, done, panic, ◌>>=◌, ◌>>◌, debug_assert, if◌then◌else◌, ltb, leb, ◌==◌, length,
  take, drop,
}

-- `libc::tm`, as far as it is printed.
pub record Tm : Type 0 where
  pub tm_year : ℕ
  pub tm_mon : ℕ
  pub tm_mday : ℕ
  pub tm_hour : ℕ
  pub tm_min : ℕ
  pub tm_sec : ℕ

-- The last `width` decimal digits of a number, as characters.
abbrev pub low_digits : ℕ → ℕ → List ℕ
low_digits zero n = []
low_digits (suc width) n = low_digits width (n / 10) ++ (48 + n % 10) ∷ []

-- All digits of a number below 10^`fuel`.
abbrev pub decimal : ℕ → ℕ → List ℕ
decimal zero n = []
decimal (suc fuel) n =
    let more = decimal fuel (n / 10) in
    if ltb n 10 then (48 + n) ∷ [] else more ++ (48 + n % 10) ∷ []

-- `{:0width}` of a number of 64 bits.
unfoldable pub padded : ℕ → ℕ → List ℕ
padded width n = if ltb n (10 ^ width) then low_digits width n else decimal 20 n

-- `write!(&mut buffer[n..], …).unwrap()`: text that does not fit in the buffer is an error.
unfoldable pub write_at : List ℕ → ℕ → List ℕ → Outcome (List ℕ)
write_at buffer n text =
    if leb (n + length text) (length buffer)
    then done (take n buffer ++ (text ++ drop (n + length text) buffer))
    else panic

-- `{:04}{:02}{:02}-{:02}:{:02}:{:02}`
unfoldable pub date_text : Tm → List ℕ
date_text tm =
    padded 4 (tm.tm_year + 1900)
    ++ (padded 2 (tm.tm_mon + 1)
        ++ (padded 2 tm.tm_mday
            ++ (45 ∷ padded 2 (tm.tm_hour + 1)
                ++ (58 ∷ padded 2 tm.tm_min ++ 58 ∷ padded 2 tm.tm_sec))))

-- The text behind the seconds.
unfoldable pub fraction_text : ℕ → ℕ → List ℕ
fraction_text subsecond_digits nanos =
    if subsecond_digits == 0
    then 46 ∷ padded 3 (nanos / 1000000)
    else if subsecond_digits == 3
    then 46 ∷ padded 6 (nanos / 1000)
    else 46 ∷ padded 9 nanos

-- The fraction, and the `n` bytes of the buffer that are returned.
unfoldable pub with_fraction : List ℕ → ℕ → ℕ → Outcome (List ℕ)
with_fraction buffer nanos subsecond_digits =
    let n = 17 + (subsecond_digits / 3 * 3 + 1) in
    let written : Outcome (List ℕ) =
      write_at buffer 17 (fraction_text subsecond_digits nanos) >>= λ buffer'.
      if leb n (length buffer') then done (take n buffer') else panic in
    if ltb 0 subsecond_digits && ltb subsecond_digits 10
    then written
    else if leb 17 (length buffer)
    then done (take 17 buffer)
    else panic

module _ (localtime_r gmtime_r : ℕ → Tm) (build : Build) where
  unfoldable pub format_time : List ℕ → ℕ → ℕ → Bool → Outcome (List ℕ)
  format_time buffer nownanos subsecond_digits gmt_time =
      let seconds = nownanos / 1000000000 in
      let tm = if gmt_time then gmtime_r seconds else localtime_r seconds in
      debug_assert build (
        subsecond_digits == 0
        || subsecond_digits == 3
        || subsecond_digits == 6
        || subsecond_digits == 9)
      >> debug_assert build (ltb (17 + subsecond_digits + 1) (length buffer % 2 ^ 32))
      >> (write_at buffer 0 (date_text tm) >>= λ buffer'.
          with_fraction buffer' (nownanos % 1000000000) subsecond_digits)
