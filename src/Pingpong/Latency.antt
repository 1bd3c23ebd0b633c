-- ===== src/Pingpong/Latency.antt =====
-- examples/example/pingpong.rs: how long messages take, and `report_latencies`.
use reactio_rs.Base.{
  ℕ, ◌+◌, ◌-◌, ◌/◌, ◌%◌, List, [], ◌∷◌, ◌++◌, Bool, Build, Outcome, done, ◌>>=◌, unwrap, sub_usize,
  ltb, ◌==◌, if◌then◌else◌, length, get_elem?,
}
use reactio_rs.Base.Int.{ℤ, pos, negsuc, pos_part, neg_part, ltb_ℤ, leb_ℤ}
use reactio_rs.Utils.Timer.{sub_ℤ, div_ℤ, i64_of}
use reactio_rs.Pingpong.{PingpongReactor}

-- `sort` of a vector of durations.
unfoldable pub insert_duration : ℤ → List ℤ → List ℤ
insert_duration x [] = x ∷ []
insert_duration x (y ∷ ys) =
    let rest = insert_duration x ys in if leb_ℤ x y then x ∷ y ∷ ys else y ∷ rest

unfoldable pub sort_durations : List ℤ → List ℤ
sort_durations [] = []
sort_durations (x ∷ xs) = insert_duration x (sort_durations xs)

-- The line that `report_latencies` prints.
pub record Latencies : Type 0 where
  pub size : ℕ
  pub min : ℤ
  pub median : ℤ
  pub p99 : ℤ
  pub max : ℤ

-- `x as i32` of a length, and `==` on `i32`.
abbrev pub as_i32 : ℕ → ℤ
as_i32 x =
    let w : ℕ = x % 0x1_0000_0000 in
    if ltb w 0x8000_0000 then pos w else negsuc (0x1_0000_0000 - w - 1)

abbrev pub eqb_ℤ : ℤ → ℤ → Bool
eqb_ℤ a b = pos_part a + neg_part b == pos_part b + neg_part a

module _ (build : Build) where
  -- The durations, if a message was sent before.
  unfoldable pub measure : PingpongReactor → ℤ → Outcome PingpongReactor
  measure r recvtime =
      let measured : Outcome PingpongReactor = do
        round_trip ← i64_of build (sub_ℤ recvtime r.last_sent_time)
        single_trip ← i64_of build (sub_ℤ recvtime r.last_recv_msg.header.send_time)
        done (record r {
          round_trip_durations = r.round_trip_durations ++ round_trip ∷ [];
          single_trip_durations = r.single_trip_durations ++ single_trip ∷ [];
        })
      in if ltb_ℤ (pos 0) r.last_sent_time then measured else done r

  unfoldable pub report_latencies :
      (ℕ → ℕ) → PingpongReactor → Outcome (Latencies × PingpongReactor)
  report_latencies index_99 r =
      let d = sort_durations r.round_trip_durations in
      let n = length r.round_trip_durations in
      do
        min ← unwrap (get_elem? d 0)
        median ← unwrap (get_elem? d (n / 2))
        p99 ← unwrap (get_elem? d (index_99 n))
        last ← sub_usize build n 2
        max ← unwrap (get_elem? d last)
        done (
          record {
            size = n;
            min = div_ℤ min 1000;
            median = div_ℤ median 1000;
            p99 = div_ℤ p99 1000;
            max = div_ℤ max 1000;
          },
          record r { single_trip_durations = []; round_trip_durations = [] },
        )

  -- `if self.round_trip_durations.len() as i32 == self.latency_batch { … }`
  unfoldable pub report_if_due : (ℕ → ℕ) → PingpongReactor → Outcome PingpongReactor
  report_if_due index_99 r =
      if eqb_ℤ (as_i32 (length r.round_trip_durations)) r.latency_batch
      then (report_latencies index_99 r >>= λ (line, r'). done r')
      else done r
