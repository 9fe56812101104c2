-- ===== src/Tests/Utilities.antt =====
-- The theorems on counters and strings.
use shardingsim.Common.Benchmark.Report.{TimeVal, Double, report_of}
use shardingsim.Common.Benchmark.Report.Laws.{report_of-Ordered}
use shardingsim.Common.Compare.{count_leading_zeros}
use shardingsim.Common.Compare.Zeros.{
  bits_of, byte_bits, leading_zeros, count_leading_zeros-leading_zeros,
}
use shardingsim.Prelude.{
  ◌<◌, ◌/◌, ◌⊎◌, ltb, arith, ℕ, ◌≡◌, ◌≤◌, refl, List, [], ◌∷◌, length, All, u64,
}
use shardingsim.Common.Benchmark.{
  Event, tx_created, tx_confirmed, block_created, benchmark_init, record_all,
}
use shardingsim.Common.Benchmark.Laws.{latencies, sum, record_all_lem}
use shardingsim.Common.Log.{Log, log_info}
use shardingsim.Common.Strings.{trim}

abbrev events : List Event
events = tx_created ∷ tx_confirmed 7 ∷ block_created 9 ∷ tx_confirmed 3 ∷ []

record_all_lem_example :
    let stats = record_all (benchmark_init 1) events in
    (stats.tx_confirmed_count ≡ u64 (length (latencies events)))
    × (stats.total_tx_latency_ms ≡ u64 (sum (latencies events)))
    × All (λ (x : ℕ). stats.min_tx_latency_ms ≤ x) (latencies events)
    × All (λ (x : ℕ). x ≤ stats.max_tx_latency_ms) (latencies events)
record_all_lem_example = record_all_lem 1 events

abbrev word : List ℕ
word = 32 ∷ 97 ∷ 32 ∷ 98 ∷ 10 ∷ []

trim_run : trim word ≡ 97 ∷ 32 ∷ 98 ∷ []
unfolding trim
trim_run = refl

abbrev log : Log
log = record { current_log_level = log_info; written = [] }

-- Whole numbers for `double`.
abbrev whole : Double ℕ
whole = record { of_uint64 = λ n. n; div = λ n k. n / k; is_positive = λ n. ltb 0 n }

abbrev later : TimeVal
later = record { tv_sec = 5; tv_usec = 2000 }

report_of-Ordered_example :
    let report = report_of whole later (record_all (benchmark_init 1) events) in
    (report.min_latency ≤ report.max_latency)
    × ((report.avg_latency ≡ 0) ⊎ (0 < report.tx_confirmed_count))
report_of-Ordered_example = report_of-Ordered whole later 1 events

abbrev digest : List ℕ
digest = 0 ∷ 16 ∷ 255 ∷ []

count_leading_zeros-leading_zeros_example :
    count_leading_zeros digest ≡ leading_zeros (bits_of digest)
count_leading_zeros-leading_zeros_example =
    count_leading_zeros-leading_zeros digest (omega arith) (omega arith)

count_leading_zeros_run : count_leading_zeros digest ≡ 11
unfolding bits_of byte_bits leading_zeros
count_leading_zeros_run = count_leading_zeros-leading_zeros digest (omega arith) (omega arith)
