-- ===== src/Observability/Metrics.antt =====
-- internal/observability/metrics.go. The mutex makes each method one step. Counters are `int64`.
pub mod Tally
use distil_proxy.Base.{
  ℕ, ◌≡◌, refl, Bool, true, false, if◌then◌else◌, List, [], ◌∷◌, suc, ◌+◌, ◌/◌, ltb, leb,
}
use distil_proxy.Base.Int.{ℤ, pos, negsuc, pos_part, ◌+ℤ◌, ltb_ℤ, leb_ℤ, wrap64, quot}

pub record Metrics : Type 0 where
  pub connect_attempts : ℤ
  pub reconnects : ℤ
  pub jobs_success : ℤ
  pub jobs_error : ℤ
  pub total_latency_ms : ℤ
  pub latency_le100_ms : ℤ
  pub latency_le500_ms : ℤ
  pub latency_le1000_ms : ℤ
  pub latency_gt1000_ms : ℤ

pub record Snapshot : Type 0 where
  pub connect_attempts : ℤ
  pub reconnects : ℤ
  pub jobs_success : ℤ
  pub jobs_error : ℤ
  pub avg_latency_ms : ℤ
  pub latency_le100_ms : ℤ
  pub latency_le500_ms : ℤ
  pub latency_le1000_ms : ℤ
  pub latency_gt1000_ms : ℤ

-- `&observability.Metrics{}`
unfoldable pub zero_metrics : Metrics
zero_metrics = record {
  connect_attempts = pos 0;
  reconnects = pos 0;
  jobs_success = pos 0;
  jobs_error = pos 0;
  total_latency_ms = pos 0;
  latency_le100_ms = pos 0;
  latency_le500_ms = pos 0;
  latency_le1000_ms = pos 0;
  latency_gt1000_ms = pos 0;
}

-- `x++` on an `int64`
abbrev increment : ℤ → ℤ
increment x = wrap64 (x +ℤ pos 1)

unfoldable pub inc_connect_attempts : Metrics → Metrics
inc_connect_attempts m = record m { connect_attempts = increment m.connect_attempts }

unfoldable pub inc_reconnects : Metrics → Metrics
inc_reconnects m = record m { reconnects = increment m.reconnects }

-- The `switch` of `RecordJob`.
unfoldable pub record_latency : ℤ → Metrics → Metrics
record_latency latency_ms m =
    if leb_ℤ latency_ms (pos 100)
    then record m { latency_le100_ms = increment m.latency_le100_ms }
    else if leb_ℤ latency_ms (pos 500)
    then record m { latency_le500_ms = increment m.latency_le500_ms }
    else if leb_ℤ latency_ms (pos 1000)
    then record m { latency_le1000_ms = increment m.latency_le1000_ms }
    else record m { latency_gt1000_ms = increment m.latency_gt1000_ms }

unfoldable pub record_job : Bool → ℤ → Metrics → Metrics
unfolding record_latency
record_job success latency_ms m =
    if success
    then record_latency latency_ms (record m {
      jobs_success = increment m.jobs_success;
      total_latency_ms = wrap64 (m.total_latency_ms +ℤ latency_ms);
    })
    else record m { jobs_error = increment m.jobs_error }

unfoldable pub snapshot : Metrics → Snapshot
snapshot m = record {
  connect_attempts = m.connect_attempts;
  reconnects = m.reconnects;
  jobs_success = m.jobs_success;
  jobs_error = m.jobs_error;
  avg_latency_ms =
      if ltb_ℤ (pos 0) m.jobs_success
      then quot m.total_latency_ms (pos_part m.jobs_success)
      else pos 0;
  latency_le100_ms = m.latency_le100_ms;
  latency_le500_ms = m.latency_le500_ms;
  latency_le1000_ms = m.latency_le1000_ms;
  latency_gt1000_ms = m.latency_gt1000_ms;
}
