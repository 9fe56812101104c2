-- ===== src/Common/Benchmark/Laws.antt =====
-- What the counters hold after any sequence of calls.
use shardingsim.Prelude.{ℕ, ◌+◌, ◌^◌, ◌≤◌, ◌<◌, ◌≡◌, List, [], ◌∷◌, length, All, arith, u64}
use shardingsim.Common.Benchmark.{
  BenchmarkStats, benchmark_init, Event, tx_created, tx_confirmed, block_created, validator_work,
  record_all, benchmark_tx_confirmed, benchmark_tx_created, benchmark_block_created,
  benchmark_validator_work,
}

-- The latencies that were confirmed, in their order.
unfoldable pub latencies : List Event → List ℕ
latencies [] = []
latencies (tx_confirmed latency_ms ∷ events) = latency_ms ∷ latencies events
latencies (_ ∷ events) = latencies events

unfoldable pub sum : List ℕ → ℕ
sum [] = 0
sum (x ∷ xs) = x + sum xs

-- What `events` add to the four counters of confirmed transactions.
Recorded : BenchmarkStats → List ℕ → BenchmarkStats → Type 0
Recorded before xs after =
    (after.tx_confirmed_count ≡ u64 (before.tx_confirmed_count + length xs))
    × (after.total_tx_latency_ms ≡ u64 (before.total_tx_latency_ms + sum xs))
    × (after.min_tx_latency_ms ≤ before.min_tx_latency_ms)
    × (before.max_tx_latency_ms ≤ after.max_tx_latency_ms)
    × All (λ (x : ℕ). after.min_tx_latency_ms ≤ x) xs
    × All (λ (x : ℕ). x ≤ after.max_tx_latency_ms) xs

record_all-Recorded :
    (events : List Event) (stats : BenchmarkStats)
    → stats.tx_confirmed_count < 2 ^ 64
    → stats.total_tx_latency_ms < 2 ^ 64
    → Recorded stats (latencies events) (record_all stats events)
unfolding Recorded latencies sum record_all benchmark_tx_confirmed benchmark_tx_created
    benchmark_block_created benchmark_validator_work
record_all-Recorded [] stats hc ht = (omega arith, omega arith, omega arith, omega arith, tt, tt)
record_all-Recorded (tx_confirmed x ∷ events) stats hc ht =
    let (count, total, low, high, lows, highs) =
      record_all-Recorded events (benchmark_tx_confirmed x stats) (omega arith) (omega arith) in
    (
      omega (arith, count),
      omega (arith, total),
      ground (arith, low),
      ground (arith, high),
      (ground (arith, low), lows),
      (ground (arith, high), highs),
    )
record_all-Recorded (tx_created ∷ events) stats hc ht =
    record_all-Recorded events (benchmark_tx_created stats) hc ht
record_all-Recorded (block_created now ∷ events) stats hc ht =
    record_all-Recorded events (benchmark_block_created now stats) hc ht
record_all-Recorded (validator_work work ∷ events) stats hc ht =
    record_all-Recorded events (benchmark_validator_work work stats) hc ht

-- After `benchmark_init` and any sequence of calls, the count and the total of the latencies are those
-- of the confirmed transactions, modulo 2^64, and the minimum and the maximum bound every latency.
pub record_all_lem :
    (now : ℕ) (events : List Event)
    → let stats = record_all (benchmark_init now) events in
      (stats.tx_confirmed_count ≡ u64 (length (latencies events)))
      × (stats.total_tx_latency_ms ≡ u64 (sum (latencies events)))
      × All (λ (x : ℕ). stats.min_tx_latency_ms ≤ x) (latencies events)
      × All (λ (x : ℕ). x ≤ stats.max_tx_latency_ms) (latencies events)
unfolding Recorded benchmark_init
record_all_lem now events =
    let (count, total, low, high, lows, highs) =
      record_all-Recorded events (benchmark_init now) (omega arith) (omega arith) in
    (omega (arith, count), omega (arith, total), lows, highs)
