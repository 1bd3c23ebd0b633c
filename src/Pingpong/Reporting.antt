-- ===== src/Pingpong/Reporting.antt =====
-- examples/example/pingpong.rs: the measurements that come with a message end, and leave the rest of
-- the reactor alone.
use reactio_rs.Base.{
  ℕ, suc, ◌-◌, ◌/◌, ◌≤◌, ◌<◌, ◌≡◌, refl, ◌∙◌, subst, List, [], ◌∷◌, arith, some, Build, release,
  Returns, unwrap, Bool-cases, zero, ◌&&◌, inl, inr, length, get_elem?, sub_usize-done, ltb, leb,
  true,
}
use reactio_rs.Base.Int.{ℤ, pos_part, neg_part, ltb_ℤ, pos, leb_ℤ}
use reactio_rs.Pingpong.{PingpongReactor}
use reactio_rs.Pingpong.Latency.{
  as_i32, eqb_ℤ, insert_duration, sort_durations, measure, report_latencies, report_if_due,
}
use reactio_rs.Utils.Timer.{i64_of, sub_ℤ}

-- The parts of a reactor that measuring leaves alone.
pub record SameEchoes (r r' : PingpongReactor) : Type 0 where
  pub count : r'.count_echo ≡ r.count_echo
  pub limit : r'.max_echo ≡ r.max_echo
  pub batch : r'.latency_batch ≡ r.latency_batch
  pub message : r'.last_recv_msg ≡ r.last_recv_msg

pub SameEchoes-trans :
    {r r' r'' : PingpongReactor} → SameEchoes r r' → SameEchoes r' r'' → SameEchoes r r''
SameEchoes-trans s t = record {
  count = t.count ∙ s.count;
  limit = t.limit ∙ s.limit;
  batch = t.batch ∙ s.batch;
  message = t.message ∙ s.message;
}

i64_of-release : (z : ℤ) → Returns (λ _. Unit {0}) (i64_of release z)
unfolding i64_of
i64_of-release z =
    elim (Bool-cases
      (ltb (pos_part z) 0x8000_0000_0000_0000 && leb (neg_part z) 0x8000_0000_0000_0000)) [
        | inl e ↦ rw e (_, refl, tt)
        | inr e ↦ rw e (_, refl, tt)
      ]

pub measure-SameEchoes :
    (r : PingpongReactor) (now : ℤ) → Returns (SameEchoes r) (measure release r now)
unfolding measure
measure-SameEchoes r now = elim (Bool-cases (ltb_ℤ (pos 0) r.last_sent_time)) [
  | inr e ↦ rw e (r, refl, record { count = refl; limit = refl; batch = refl; message = refl })
  | inl e ↦
      let (round_trip, e1, _) = i64_of-release (sub_ℤ now r.last_sent_time) in
      let (single_trip, e2, _) = i64_of-release (sub_ℤ now r.last_recv_msg.header.send_time) in
      rw (e, e1, e2) (_, refl, record { count = refl; limit = refl; batch = refl; message = refl })
]

length-insert_duration : (x : ℤ) (ys : List ℤ) → length (insert_duration x ys) ≡ suc (length ys)
unfolding insert_duration
length-insert_duration x [] = refl
length-insert_duration x (y ∷ ys) = elim (Bool-cases (leb_ℤ x y)) [
  | inl e ↦ rw e refl
  | inr e ↦ rw e (omega (arith, length-insert_duration x ys))
]

pub length-sort_durations : (xs : List ℤ) → length (sort_durations xs) ≡ length xs
unfolding sort_durations
length-sort_durations [] = refl
length-sort_durations (x ∷ xs) =
    omega (arith, length-insert_duration x (sort_durations xs), length-sort_durations xs)

unwrap-get_elem? {ℓ} :
    {A : Type ℓ} (xs : List A) (i : ℕ)
    → i < length xs
    → Returns (λ a. get_elem? xs i ≡ some a) (unwrap (get_elem? xs i))
unwrap-get_elem? [] i h = absurd (omega arith)
unwrap-get_elem? (x ∷ xs) zero h = (x, refl, refl)
unwrap-get_elem? (x ∷ xs) (suc i) h = unwrap-get_elem? xs i (omega arith)

-- With two durations or more, `report_latencies` ends, and clears both lists.
pub report_latencies-Returns :
    (build : Build) (index_99 : ℕ → ℕ) (r : PingpongReactor)
    → 2 ≤ length r.round_trip_durations
    → index_99 (length r.round_trip_durations) < length r.round_trip_durations
    → Returns
        (λ (line, r'). r' ≡ record r { single_trip_durations = []; round_trip_durations = [] })
        (report_latencies build index_99 r)
unfolding report_latencies
report_latencies-Returns build index_99 r two within =
    let d = sort_durations r.round_trip_durations in
    let n = length r.round_trip_durations in
    let size : length d ≡ n = length-sort_durations r.round_trip_durations in
    let (min, e0, _) = unwrap-get_elem? d 0 (omega arith) in
    let (median, e1, _) = unwrap-get_elem? d (n / 2) (omega arith) in
    let (p99, e2, _) = unwrap-get_elem? d (index_99 n) (omega arith) in
    let (max, e3, _) = unwrap-get_elem? d (n - 2) (omega arith) in
    rw (e0, e1, e2, sub_usize-done build n 2 two, e3) (_, refl, refl)

as_i32-le : (n k : ℕ) → eqb_ℤ (as_i32 n) (pos k) ≡ true → k ≤ n
as_i32-le n k e = ground arith

pub report_if_due-SameEchoes :
    (build : Build) (index_99 : ℕ → ℕ) (r : PingpongReactor) (k : ℕ)
    → ((n : ℕ) → 0 < n → index_99 n < n)
    → r.latency_batch ≡ pos k
    → 2 ≤ k
    → Returns (SameEchoes r) (report_if_due build index_99 r)
unfolding report_if_due
report_if_due-SameEchoes build index_99 r k within batch two =
    elim (Bool-cases (eqb_ℤ (as_i32 (length r.round_trip_durations)) r.latency_batch)) [
      | inr e ↦ rw e (r, refl, record { count = refl; limit = refl; batch = refl; message = refl })
      | inl e ↦
          let n = length r.round_trip_durations in
          let many : k ≤ n = as_i32-le n k (subst (λ b. eqb_ℤ (as_i32 n) b ≡ true) batch e) in
          let ((line, r'), e1, cleared) =
            report_latencies-Returns build index_99 r (omega arith) (within n (omega arith)) in
          rw (e, e1)
            (
              r',
              refl,
              rw cleared (record { count = refl; limit = refl; batch = refl; message = refl }),
            )
    ]
