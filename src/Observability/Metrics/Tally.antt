-- ===== src/Observability/Metrics/Tally.antt =====
-- The counters against a count of what was reported.
use distil_proxy.Base.{
  ℕ, suc, ◌+◌, ◌≤◌, ◌<◌, ◌/◌, ◌≡◌, refl, Bool, true, false, ◌&&◌, List, [], ◌∷◌, arith, ltb, leb,
  if◌then◌else◌, length,
}
use distil_proxy.Base.Int.{pos, max_i64, wrap64, ◌+ℤ◌}
use distil_proxy.Observability.Metrics.{
  Metrics, zero_metrics, inc_connect_attempts, inc_reconnects, record_job, snapshot,
}

-- One call of a method. A latency is measured by a monotonic clock, so it is never below 0.
pub data Report : Type 0 where
  connected : Report
  reconnecting : Report
  served : ℕ → Report
  failed : ℕ → Report

unfoldable pub apply : Report → Metrics → Metrics
unfolding inc_connect_attempts inc_reconnects record_job
apply connected = inc_connect_attempts
apply reconnecting = inc_reconnects
apply (served ms) = record_job true (pos ms)
apply (failed ms) = record_job false (pos ms)

-- The metrics after a history, whose latest report stands first.
unfoldable pub after : List Report → Metrics
unfolding apply zero_metrics
after [] = zero_metrics
after (r ∷ earlier) = apply r (after earlier)

abbrev pub count : (Report → Bool) → List Report → ℕ
count p [] = 0
count p (r ∷ rs) = if p r then suc (count p rs) else count p rs

abbrev pub is_connected : Report → Bool
is_connected connected = true
is_connected _ = false

abbrev pub is_reconnecting : Report → Bool
is_reconnecting reconnecting = true
is_reconnecting _ = false

abbrev pub is_failed : Report → Bool
is_failed (failed _) = true
is_failed _ = false

-- A job served in `lo` to `hi` milliseconds.
abbrev pub is_served : (ℕ → Bool) → Report → Bool
is_served p (served ms) = p ms
is_served p _ = false

abbrev pub latency : Report → ℕ
latency (served ms) = ms
latency _ = 0

abbrev pub total_latency : List Report → ℕ
total_latency [] = 0
total_latency (r ∷ rs) = latency r + total_latency rs

abbrev pub tally : List Report → Metrics
tally rs = record {
  connect_attempts = pos (count is_connected rs);
  reconnects = pos (count is_reconnecting rs);
  jobs_success = pos (count (is_served (λ _. true)) rs);
  jobs_error = pos (count is_failed rs);
  total_latency_ms = pos (total_latency rs);
  latency_le100_ms = pos (count (is_served (λ ms. leb ms 100)) rs);
  latency_le500_ms = pos (count (is_served (λ ms. ltb 100 ms && leb ms 500)) rs);
  latency_le1000_ms = pos (count (is_served (λ ms. ltb 500 ms && leb ms 1000)) rs);
  latency_gt1000_ms = pos (count (is_served (λ ms. ltb 1000 ms)) rs);
}

count-le-length : (p : Report → Bool) (rs : List Report) → count p rs ≤ length rs
count-le-length p [] = omega arith
count-le-length p (r ∷ rs) = ground (arith, count-le-length p rs)

inc_tally : (n : ℕ) → n < max_i64 → wrap64 (pos n +ℤ pos 1) ≡ pos (suc n)
unfolding wrap64
inc_tally n h = ground arith

sum_tally : (n m : ℕ) → m + n ≤ max_i64 → wrap64 (pos n +ℤ pos m) ≡ pos (m + n)
unfolding wrap64
sum_tally n m h = ground arith

-- One report, while no counter is full.
apply-tally :
    (r : Report) (rs : List Report)
    → length rs < max_i64
    → latency r + total_latency rs ≤ max_i64
    → apply r (tally rs) ≡ tally (r ∷ rs)
unfolding apply
apply-tally connected rs h k =
    ground (arith, count-le-length is_connected rs, inc_tally (count is_connected rs))
apply-tally reconnecting rs h k =
    ground (arith, count-le-length is_reconnecting rs, inc_tally (count is_reconnecting rs))
apply-tally (failed ms) rs h k =
    ground (arith, count-le-length is_failed rs, inc_tally (count is_failed rs))
apply-tally (served ms) rs h k =
    let n : (Report → Bool) → ℕ = λ p. count p rs in
    ground (
      arith,
      count-le-length (is_served (λ _. true)) rs,
      count-le-length (is_served (λ ms. leb ms 100)) rs,
      count-le-length (is_served (λ ms. ltb 100 ms && leb ms 500)) rs,
      count-le-length (is_served (λ ms. ltb 500 ms && leb ms 1000)) rs,
      count-le-length (is_served (λ ms. ltb 1000 ms)) rs,
      inc_tally (n (is_served (λ _. true))),
      inc_tally (n (is_served (λ ms. leb ms 100))),
      inc_tally (n (is_served (λ ms. ltb 100 ms && leb ms 500))),
      inc_tally (n (is_served (λ ms. ltb 500 ms && leb ms 1000))),
      inc_tally (n (is_served (λ ms. ltb 1000 ms))),
      sum_tally (total_latency rs) ms,
    )

-- After any history of fewer than 2^63 reports whose latencies add up to less than 2^63, every
-- counter is the number of reports of its kind, and each bucket counts its range of latencies.
pub after-tally :
    (rs : List Report) → length rs ≤ max_i64 → total_latency rs ≤ max_i64 → after rs ≡ tally rs
unfolding after zero_metrics
after-tally [] _ _ = refl
after-tally (r ∷ rs) h k =
    rw (after-tally rs (omega arith) (omega arith)) (apply-tally r rs (omega arith) k)

buckets-partition :
    (rs : List Report)
    → count (is_served (λ ms. leb ms 100)) rs
        + count (is_served (λ ms. ltb 100 ms && leb ms 500)) rs
        + count (is_served (λ ms. ltb 500 ms && leb ms 1000)) rs
        + count (is_served (λ ms. ltb 1000 ms)) rs
      ≡ count (is_served (λ _. true)) rs
buckets-partition [] = refl
buckets-partition (connected ∷ rs) = buckets-partition rs
buckets-partition (reconnecting ∷ rs) = buckets-partition rs
buckets-partition (failed _ ∷ rs) = buckets-partition rs
buckets-partition (served ms ∷ rs) = ground (arith, buckets-partition rs)

-- In the snapshot after such a history the four latency buckets add up to the jobs served, and
-- the average is the total latency divided by their number, or 0 when there were none.
pub snapshot_consistent :
    (rs : List Report)
    → length rs ≤ max_i64
    → total_latency rs ≤ max_i64
    → let s = snapshot (after rs) in
      let n = count (is_served (λ _. true)) rs in
      (s.latency_le100_ms +ℤ s.latency_le500_ms +ℤ s.latency_le1000_ms +ℤ s.latency_gt1000_ms
        ≡ s.jobs_success)
      × (s.jobs_success ≡ pos n)
      × (s.avg_latency_ms ≡ pos (total_latency rs / n))
unfolding snapshot
snapshot_consistent rs h k =
    rw (after-tally rs h k) (ground (arith, buckets-partition rs), refl, ground arith)
