-- ===== src/Bench.antt =====
-- The benchmark programs: clocks and reports of include/benchmark_utils.hpp and
-- src/benchmark_utils.cpp, and the drivers src/main.cpp, src/spmc_burst_bench.cpp and
-- src/bench_dpdk.cpp.
pub mod Clock
pub mod Report
pub mod OldReport
pub mod Workload
pub mod Burst
pub mod BurstConsumer
pub mod BurstThreads
pub mod EpochCsv
pub mod BurstRun
pub mod MainRun
pub mod SpscRun
pub mod SpscThreads
pub mod DpdkWorkload
pub mod DpdkRun
pub mod Samples
mod Tests
