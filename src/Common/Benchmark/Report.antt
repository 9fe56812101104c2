-- ===== src/Common/Benchmark/Report.antt =====
-- The clock and the report of src/common.c. `gettimeofday` gives a `TimeVal`; the type `double` is a
-- parameter with what the code does with it, and `print` is the `snprintf` with the report's format.
pub mod Laws
use shardingsim.Prelude.{
  ℕ, ◌+◌, ◌-◌, ◌*◌, ◌/◌, ◌^◌, ◌≤◌, ◌<◌, ◌≡◌, refl, ◌⊎◌, inl, inr, Bool, true, false, List, [], ◌∷◌,
  ltb, ◌==◌, if◌then◌else◌, u64, arith, Bool-cases, ==_iff,
}
use shardingsim.Common.Strings.{safe_strcpy}
use shardingsim.Common.Benchmark.{
  BenchmarkStats, uint64_max, benchmark_init, Event, tx_created, tx_confirmed, block_created,
  validator_work, record_event, record_all, benchmark_tx_created, benchmark_tx_confirmed,
  benchmark_block_created, benchmark_validator_work,
}

pub record TimeVal : Type 0 where
  pub tv_sec : ℕ
  pub tv_usec : ℕ

-- `time(NULL)` is the argument.
pub get_current_timestamp : ℕ → ℕ
get_current_timestamp time = u64 time

pub get_current_time_ms : TimeVal → ℕ
get_current_time_ms tv = u64 (u64 tv.tv_sec * 1000 + tv.tv_usec / 1000)

pub record Double (D : Type 0) : Type 0 where
  pub of_uint64 : ℕ → D
  pub div : D → D → D
  pub is_positive : D → Bool

-- The arguments of the format, in its order.
pub record Report (D : Type 0) : Type 0 where
  pub elapsed_sec : D
  pub tx_created_count : ℕ
  pub tx_confirmed_count : ℕ
  pub tx_throughput : D
  pub avg_latency : D
  pub min_latency : ℕ
  pub max_latency : ℕ
  pub blocks_created : ℕ
  pub block_rate : D
  pub total_validator_work_ms : ℕ

-- A count over the time, or 0 when no time has passed.
pub per_second : {D : Type 0} → Double D → D → ℕ → D
per_second d elapsed_sec count =
    if d.is_positive elapsed_sec then d.div (d.of_uint64 count) elapsed_sec else d.of_uint64 0

pub report_of : {D : Type 0} → Double D → TimeVal → BenchmarkStats → Report D
unfolding get_current_time_ms per_second
report_of d tv stats =
    let elapsed_ms = u64 (get_current_time_ms tv + 2 ^ 64 - stats.start_time_ms) in
    let elapsed_sec = d.div (d.of_uint64 elapsed_ms) (d.of_uint64 1000) in
    record {
      elapsed_sec = elapsed_sec;
      tx_created_count = stats.tx_created_count;
      tx_confirmed_count = stats.tx_confirmed_count;
      tx_throughput = per_second d elapsed_sec stats.tx_confirmed_count;
      avg_latency =
          if ltb 0 stats.tx_confirmed_count
          then d.div (d.of_uint64 stats.total_tx_latency_ms) (d.of_uint64 stats.tx_confirmed_count)
          else d.of_uint64 0;
      min_latency = if stats.min_tx_latency_ms == uint64_max then 0 else stats.min_tx_latency_ms;
      max_latency = stats.max_tx_latency_ms;
      blocks_created = stats.blocks_created;
      block_rate = per_second d elapsed_sec stats.blocks_created;
      total_validator_work_ms = stats.total_validator_work_ms;
    }

-- What the buffer holds afterwards.
pub benchmark_report :
    {D : Type 0} → Double D → (Report D → List ℕ) → TimeVal → BenchmarkStats → List ℕ → ℕ → List ℕ
unfolding report_of
benchmark_report d print tv stats buffer size =
    safe_strcpy buffer (print (report_of d tv stats)) size
