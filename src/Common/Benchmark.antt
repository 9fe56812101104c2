-- ===== src/Common/Benchmark.antt =====
-- The counters of src/common.c: `g_benchmark` is passed along, and the clock is an argument.
pub mod Laws
pub mod Report
use shardingsim.Prelude.{ℕ, ◌+◌, ◌-◌, ◌^◌, List, [], ◌∷◌, ltb, if◌then◌else◌, u64}

pub record BenchmarkStats : Type 0 where
  pub tx_created_count : ℕ
  pub tx_confirmed_count : ℕ
  pub blocks_created : ℕ
  pub total_tx_latency_ms : ℕ
  pub min_tx_latency_ms : ℕ
  pub max_tx_latency_ms : ℕ
  pub start_time_ms : ℕ
  pub last_block_time_ms : ℕ
  pub active_validators : ℕ
  pub total_validator_work_ms : ℕ

-- `UINT64_MAX`
abbrev pub uint64_max : ℕ
uint64_max = 2 ^ 64 - 1

pub benchmark_init : ℕ → BenchmarkStats
benchmark_init current_time_ms = record {
  tx_created_count = 0;
  tx_confirmed_count = 0;
  blocks_created = 0;
  total_tx_latency_ms = 0;
  min_tx_latency_ms = uint64_max;
  max_tx_latency_ms = 0;
  start_time_ms = current_time_ms;
  last_block_time_ms = 0;
  active_validators = 0;
  total_validator_work_ms = 0;
}

pub benchmark_reset : ℕ → BenchmarkStats
unfolding benchmark_init
benchmark_reset current_time_ms = benchmark_init current_time_ms

pub benchmark_tx_created : BenchmarkStats → BenchmarkStats
benchmark_tx_created stats = record stats { tx_created_count = u64 (stats.tx_created_count + 1) }

pub benchmark_tx_confirmed : ℕ → BenchmarkStats → BenchmarkStats
benchmark_tx_confirmed latency_ms stats = record stats {
  tx_confirmed_count = u64 (stats.tx_confirmed_count + 1);
  total_tx_latency_ms = u64 (stats.total_tx_latency_ms + latency_ms);
  min_tx_latency_ms =
      if ltb latency_ms stats.min_tx_latency_ms then latency_ms else stats.min_tx_latency_ms;
  max_tx_latency_ms =
      if ltb stats.max_tx_latency_ms latency_ms then latency_ms else stats.max_tx_latency_ms;
}

pub benchmark_block_created : ℕ → BenchmarkStats → BenchmarkStats
benchmark_block_created current_time_ms stats = record stats {
  blocks_created = u64 (stats.blocks_created + 1);
  last_block_time_ms = current_time_ms;
}

pub benchmark_validator_work : ℕ → BenchmarkStats → BenchmarkStats
benchmark_validator_work work_ms stats = record stats {
  total_validator_work_ms = u64 (stats.total_validator_work_ms + work_ms);
}

-- A call of one of the recording functions.
pub data Event : Type 0 where
  tx_created : Event
  tx_confirmed : ℕ → Event
  block_created : ℕ → Event
  validator_work : ℕ → Event

pub record_event : BenchmarkStats → Event → BenchmarkStats
unfolding benchmark_tx_created benchmark_tx_confirmed benchmark_block_created
    benchmark_validator_work
record_event stats tx_created = benchmark_tx_created stats
record_event stats (tx_confirmed latency_ms) = benchmark_tx_confirmed latency_ms stats
record_event stats (block_created current_time_ms) = benchmark_block_created current_time_ms stats
record_event stats (validator_work work_ms) = benchmark_validator_work work_ms stats

pub record_all : BenchmarkStats → List Event → BenchmarkStats
unfolding record_event
record_all stats [] = stats
record_all stats (event ∷ events) = record_all (record_event stats event) events
