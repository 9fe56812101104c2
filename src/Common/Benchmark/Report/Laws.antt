-- ===== src/Common/Benchmark/Report/Laws.antt =====
-- What the report shows.
use shardingsim.Prelude.{
  ℕ, ◌≤◌, ◌<◌, ◌≡◌, refl, ◌⊎◌, inl, inr, List, [], ◌∷◌, ltb, ◌==◌, if◌then◌else◌, arith, Bool-cases,
}
use shardingsim.Common.Benchmark.{
  BenchmarkStats, uint64_max, benchmark_init, Event, tx_created, tx_confirmed, block_created,
  validator_work, record_event, record_all, benchmark_tx_created, benchmark_tx_confirmed,
  benchmark_block_created, benchmark_validator_work,
}
use shardingsim.Common.Benchmark.Report.{TimeVal, Double, report_of}

-- Nothing confirmed yet, or a minimum that is one.
abbrev Ordered : BenchmarkStats → Type 0
Ordered stats =
    ((stats.min_tx_latency_ms ≡ uint64_max) × (stats.max_tx_latency_ms ≡ 0))
    ⊎ (stats.min_tx_latency_ms ≤ stats.max_tx_latency_ms)

record_event-Ordered :
    (stats : BenchmarkStats) (event : Event) → Ordered stats → Ordered (record_event stats event)
unfolding record_event benchmark_tx_created benchmark_tx_confirmed benchmark_block_created
    benchmark_validator_work
record_event-Ordered stats tx_created h = h
record_event-Ordered stats (tx_confirmed latency_ms) h = inr (ground arith)
record_event-Ordered stats (block_created current_time_ms) h = h
record_event-Ordered stats (validator_work work_ms) h = h

record_all-Ordered :
    (stats : BenchmarkStats) (events : List Event)
    → Ordered stats
    → Ordered (record_all stats events)
unfolding record_all
record_all-Ordered stats [] h = h
record_all-Ordered stats (event ∷ events) h =
    record_all-Ordered (record_event stats event) events (record_event-Ordered stats event h)

-- After `benchmark_init` and any sequence of calls, at any time, the report shows a minimum that is at
-- most the maximum, and as average latency 0 if the count of confirmed transactions that it shows is 0.
pub report_of-Ordered :
    {D : Type 0} (d : Double D) (tv : TimeVal) (now : ℕ) (events : List Event)
    → let report = report_of d tv (record_all (benchmark_init now) events) in
      (report.min_latency ≤ report.max_latency)
      × ((report.avg_latency ≡ d.of_uint64 0) ⊎ (0 < report.tx_confirmed_count))
unfolding report_of benchmark_init
report_of-Ordered d tv now events =
    let stats = record_all (benchmark_init now) events in
    let ordered = record_all-Ordered (benchmark_init now) events (inl (refl, refl)) in
    (
      shown stats.min_tx_latency_ms stats.max_tx_latency_ms ordered,
      elim (Bool-cases (ltb 0 stats.tx_confirmed_count)) [
        | inl some ↦ inr (ground arith)
        | inr none ↦ inl (rw none refl)
      ],
    )
  where
    shown :
        (low high : ℕ)
        → (((low ≡ uint64_max) × (high ≡ 0)) ⊎ (low ≤ high))
        → (if low == uint64_max then 0 else low) ≤ high
    shown low high h = ground arith
