-- ===== src/Tests/Counters.antt =====
-- The counters of internal/observability, the log of internal/daemon, and versions.
use distil_proxy.Base.{◌≡◌, true, false, [], ◌∷◌, List, arith}
use distil_proxy.Base.Int.{pos}
use distil_proxy.Base.Text.{codes}
use distil_proxy.Observability.Metrics.Tally.{
  Report, connected, reconnecting, served, failed, after, tally, after-tally,
}
use distil_proxy.Daemon.Logs.{Chunks, chunk, end_of_file, lines, read_log_tail, trim_trailing_empty}
use distil_proxy.Daemon.Logs.Tail.{lines_from, read_log_tail_lem}

abbrev history : List Report
history = served 1200 ∷ served 40 ∷ failed 3 ∷ reconnecting ∷ connected ∷ []

after-tally_example : after history ≡ tally history
after-tally_example = after-tally history (omega arith) (omega arith)

abbrev log : Chunks
log = chunk (codes "one") false (
    chunk (codes "tw") true
      (chunk (codes "o") false (chunk (codes "three") false (chunk [] false end_of_file))))

read_log_tail_lem_example : read_log_tail (pos 3) log ≡ lines (codes "two" ∷ codes "three" ∷ [])
unfolding trim_trailing_empty lines_from
read_log_tail_lem_example = read_log_tail_lem 2 log
