-- ===== src/Utils/Timer.antt =====
-- src/utils.rs, `Timer`, over a clock that counts nanoseconds. The clock is an argument, `now`.
use Prim.Native.Nat.{min}
use reactio_rs.Base.{
  ℕ, ◌+◌, ◌-◌, ◌*◌, ◌/◌, ◌%◌, ◌<◌, ◌≤◌, ◌≡◌, refl, arith, Bool, ◌&&◌, Build, debug, release,
  Outcome, done, panic, ◌>>=◌, if◌then◌else◌, ltb, leb, Returns, ap, ◌∙◌, Bool-cases, inl, inr,
}
use reactio_rs.Base.Int.{ℤ, pos, negsuc, pos_part, neg_part, leb_ℤ, as_i64}

-- `a - b` of two natural numbers, and the operations on integers.
abbrev pub diff : ℕ → ℕ → ℤ
diff a b = if ltb a b then negsuc (b - a - 1) else pos (a - b)

abbrev pub add_ℤ : ℤ → ℤ → ℤ
add_ℤ a b = diff (pos_part a + pos_part b) (neg_part a + neg_part b)

abbrev pub sub_ℤ : ℤ → ℤ → ℤ
sub_ℤ a b = diff (pos_part a + neg_part b) (neg_part a + pos_part b)

abbrev pub scale : ℤ → ℕ → ℤ
scale a k = diff (pos_part a * k) (neg_part a * k)

-- A division truncates.
abbrev pub div_ℤ : ℤ → ℕ → ℤ
div_ℤ a k = diff (pos_part a / k) (neg_part a / k)

abbrev pub min_ℤ : ℤ → ℤ → ℤ
min_ℤ a b = if leb_ℤ a b then a else b

-- `x as u64` of an `i64`.
abbrev pub as_u64 : ℤ → ℕ
as_u64 (pos n) = n
as_u64 (negsuc n) = 0xffff_ffff_ffff_ffff - n

-- The result of an `i64` operation: beyond 64 bits it panics in a debug build, and wraps otherwise.
unfoldable pub i64_of : Build → ℤ → Outcome ℤ
i64_of build z =
    if ltb (pos_part z) 0x8000_0000_0000_0000 && leb (neg_part z) 0x8000_0000_0000_0000
    then done z
    else elim build [
      | debug ↦ panic
      | release ↦
          done
            (as_i64 (pos_part z + (0x1_0000_0000_0000_0000 - neg_part z % 0x1_0000_0000_0000_0000)))
    ]

pub record Timer : Type 0 where
  pub start : ℤ
  pub target : ℤ

unfoldable pub new_millis : Build → ℤ → ℤ → Outcome Timer
new_millis build now duration_millis = i64_of build (scale duration_millis 1000000) >>= λ nanos.
    i64_of build (add_ℤ nanos now) >>= λ target. done (record { start = now; target = target })

unfoldable pub expired : ℤ → Timer → Bool
expired now t = leb_ℤ t.target now

unfoldable pub elapsed_millis : Build → ℤ → Timer → Outcome ℤ
elapsed_millis build now t =
    i64_of build (sub_ℤ now t.start) >>= λ nanos. done (div_ℤ nanos 1000000)

-- The number of milliseconds that the thread sleeps.
unfoldable pub sleep_or_expire : Build → ℤ → Timer → ℤ → Outcome ℕ
sleep_or_expire build now t duration_millis =
    i64_of build (sub_ℤ t.target now) >>= λ left. done (as_u64 (min_ℤ duration_millis left))

diff-le : (a b : ℕ) → b ≤ a → diff a b ≡ pos (a - b)
diff-le a b h = ground (arith, h)

diff-lt : (a b : ℕ) → a < b → diff a b ≡ negsuc (b - a - 1)
diff-lt a b h = ground (arith, h)

min-pos : (a b : ℕ) → min_ℤ (pos a) (pos b) ≡ pos (min a b)
min-pos a b = elim (Bool-cases (leb (a + 0) (b + 0))) [
  | inl le ↦ rw le (ap pos (ground arith))
  | inr gt ↦ rw gt (ap pos (ground arith))
]

min-negsuc : (a b : ℕ) → min_ℤ (pos a) (negsuc b) ≡ negsuc b
min-negsuc a b = ground arith

i64_of-pos :
    (build : Build) (n : ℕ) → n < 0x8000_0000_0000_0000 → i64_of build (pos n) ≡ done (pos n)
unfolding i64_of
i64_of-pos build n h = ground (arith, h)

i64_of-negsuc :
    (build : Build) (n : ℕ) → n < 0x8000_0000_0000_0000 → i64_of build (negsuc n) ≡ done (negsuc n)
unfolding i64_of
i64_of-negsuc build n h = ground (arith, h)

-- A timer of `millis` milliseconds that is made at the time `made` expires when that time has passed,
-- and has counted the whole milliseconds since, as long as the time fits in an `i64`.
pub new_millis-expired :
    (build : Build) (millis made now : ℕ)
    → made + millis * 1000000 < 0x8000_0000_0000_0000
    → made ≤ now
    → now < 0x8000_0000_0000_0000
    → Returns
        (λ t.
          (expired (pos now) t ≡ leb (made + millis * 1000000) now)
          × (elapsed_millis build (pos now) t ≡ done (pos ((now - made) / 1000000))))
        (new_millis build (pos made) (pos millis))
unfolding new_millis expired elapsed_millis
new_millis-expired build millis made now fits later small =
    let nanos : scale (pos millis) 1000000 ≡ pos (millis * 1000000) =
      diff-le (millis * 1000000) (0 * 1000000) (omega arith) ∙ ap pos (omega arith) in
    let target : add_ℤ (pos (millis * 1000000)) (pos made) ≡ pos (made + millis * 1000000) =
      diff-le (millis * 1000000 + made) 0 (omega arith) ∙ ap pos (omega arith) in
    rw
      (
        nanos,
        i64_of-pos build (millis * 1000000) (omega arith),
        target,
        i64_of-pos build (made + millis * 1000000) fits,
      )
      (_, refl, (ground arith, elapsed))
  where
    elapsed :
        elapsed_millis build
          (pos now)
          (record { start = pos made; target = pos (made + millis * 1000000) })
        ≡ done (pos ((now - made) / 1000000))
    elapsed =
        let passed : sub_ℤ (pos now) (pos made) ≡ pos (now - made) =
          diff-le (now + 0) (0 + made) (omega arith) ∙ ap pos (omega arith) in
        let whole : div_ℤ (pos (now - made)) 1000000 ≡ pos ((now - made) / 1000000) =
          diff-le ((now - made) / 1000000) 0 (omega arith) ∙ ap pos (omega arith) in
        rw (passed, i64_of-pos build (now - made) (omega arith), whole) refl

-- `sleep_or_expire` at a time `now` of the clock, for a target and a duration that are not negative:
-- before the target, it sleeps for as many milliseconds as the duration says or as there are
-- nanoseconds left, whichever is less; after it, for at least 2^63 milliseconds.
pub sleep_or_expire_lem :
    (build : Build) (start : ℤ) (target now millis : ℕ)
    → target < 0x8000_0000_0000_0000
    → now < 0x8000_0000_0000_0000
    → (sleep_or_expire build (pos now) (record { start = start; target = pos target }) (pos millis)
        ≡ done (
            if ltb target now
            then 0x1_0000_0000_0000_0000 - (now - target)
            else min millis (target - now)))
      × (0x8000_0000_0000_0000 ≤ 0x1_0000_0000_0000_0000 - (now - target))
unfolding sleep_or_expire
sleep_or_expire_lem build start target now millis ht hn = (slept, omega arith)
  where
    slept :
        sleep_or_expire build (pos now) (record { start = start; target = pos target }) (pos millis)
        ≡ done (
            if ltb target now
            then 0x1_0000_0000_0000_0000 - (now - target)
            else min millis (target - now))
    slept = elim (Bool-cases (ltb target now)) [
      | inl late ↦
          let left : sub_ℤ (pos target) (pos now) ≡ negsuc (now - target - 1) =
            diff-lt (target + 0) (0 + now) (ground arith) ∙ ap negsuc (omega arith) in
          rw
            (
              late,
              left,
              i64_of-negsuc build (now - target - 1) (ground arith),
              min-negsuc millis (now - target - 1),
            )
            (ap done (ground arith))
      | inr early ↦
          let left : sub_ℤ (pos target) (pos now) ≡ pos (target - now) =
            diff-le (target + 0) (0 + now) (ground arith) ∙ ap pos (omega arith) in
          rw
            (
              early,
              left,
              i64_of-pos build (target - now) (omega arith),
              min-pos millis (target - now),
            )
            refl
    ]
