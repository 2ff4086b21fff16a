-- ===== src/Lib.antt =====
-- Lock-free queues: the queues of this repository and its benchmark programs.
--
-- The parts of the program. `SPMCQueue` (include/spmc_queue_trivially_copiable.hpp) fans objects
-- out from one producer to any number of consumers, over slots that carry a version (a seqlock);
-- its `push` never waits and its `pop` aborts when it is overtaken. `SPSCQueue`
-- (include/spsc_queue.hpp) is a ring of 64-byte slots that each hold one object of any type of
-- that size. `SPSCBuffer` (include/spsc_buffer.hpp, src/spsc_buffer.cpp) and `IPCSPSCBuffer`
-- (include/spsc_buffer_ipc.hpp, src/spsc_buffer_ipc.cpp) are rings of bytes; the second has its
-- storage inside, for shared memory. The benchmark programs drive the queues: src/main.cpp,
-- src/spmc_burst_bench.cpp and src/bench_dpdk.cpp, with the clocks and reports of
-- include/benchmark_utils.hpp.
--
-- The files.
-- Prelude.antt passes on the library's names and adds the Boolean tests (Prelude/Tests), lists
--   over the native numbers (Prelude/Lists), 64-bit arithmetic (Prelude/Words) and signed numbers
--   (Prelude/Int).
-- Memory.antt has std::memcpy between a ring and a flat span (Memory/Copy), which faults outside
--   its array, the contents of a ring as a list (Memory/Window), and objects as their words
--   (Memory/Messages).
-- Trace.antt has runs of a queue that is seen through what its calls return.
-- ByteQueue.antt and ObjectQueue.antt are the specifications of the SPSC queues: FIFO queues of
--   bounded size. BroadcastLog.antt is that of the SPMC queue: a log that only grows, and readers
--   that follow it.
-- SpscBuffer.antt has available, read and try_write under their own names, on a record of the
--   array, `reader` and `writer`; SpscBuffer/Contents has the well-formed states and the bytes
--   they hold, SpscBuffer/Write and SpscBuffer/Read the two calls against ByteQueue,
--   SpscBuffer/Stream any sequence of calls, SpscBuffer/RoundTrip one of each. SpscBuffer/Threads
--   has try_write (write_step) and read (read_step) as steps of one access to shared memory each,
--   and a producer and a consumer interleaved by a schedule; below it, Spec has what the callers
--   may see, Address, Invariant, Write and Read the invariant, and Linear what follows; Fill,
--   AloneWrite and AloneRead have a call that is not interrupted.
-- IpcBuffer.antt has the same operations of IPCSPSCBuffer, and its constructor on memory in use;
--   IpcBuffer/Same relates it to SpscBuffer. IpcBuffer/Threads has its calls as steps of two
--   processes, and IpcBuffer/Threads/Linear relates these to SpscBuffer/Threads.
-- SpscQueue.antt has used, try_push for `const T&` and (as try_push_move) for `T&&`, try_pop and
--   (as destroy) the destructor. SpscQueue/Objects has the element type: its traits, constructors
--   and assignment are parameters, and a slot is raw or holds a live object. SpscQueue/Contents
--   relates a queue to the objects it holds, Push, Pop and Destroy have the operations against
--   ObjectQueue, and Stream any sequence of calls. SpscQueue/Threads has try_push (push_step) and
--   try_pop (pop_step) of a trivially copyable type as steps of one shared access each, and two
--   threads interleaved by a schedule; below it, Spec, Invariant, Push, Pop and Linear are as for
--   the buffer, and Progress bounds the turns of a call.
-- SpmcQueue.antt has push (push_step) and make_consumer and Consumer::pop (pop_step) as steps of
--   one access to shared memory each: a load or a store of an atomic, or of one word of an object.
--   SpmcQueue/System interleaves a producer and any number of consumers by a schedule. Invariant,
--   Laps, Slots, Push, Seqlock and Pop carry the invariant; Delivery, Progress, Lone, Outcome and
--   Calls have what follows, Shown, Reads and Refines the relation to BroadcastLog.
-- Bench.antt has the benchmark programs: Bench/Clock and Bench/Report for
--   include/benchmark_utils.hpp, Bench/OldReport for src/benchmark_utils.cpp, Bench/Workload for
--   make_random_changes and Bench/DpdkWorkload for its copy with padding, Bench/SpscThreads for
--   spsc_bench and consumer_spsc of src/main.cpp over the steps of SpscQueue/Threads,
--   Bench/SpscRun for the same over a queue that is a count, Bench/MainRun for its main,
--   Bench/Burst, Bench/BurstConsumer and Bench/EpochCsv for the epochs, a consumer and the file
--   of src/spmc_burst_bench.cpp, Bench/BurstThreads for its threads and barriers over the steps of
--   SpmcQueue, Bench/BurstRun for the whole run of them, and Bench/DpdkRun for
--   src/bench_dpdk.cpp. Facts below a module has its theorems.
--   Below Bench/BurstThreads are its invariant (Invariant, Advance, Producing, Consuming), what
--   follows under any schedule (Near, Delivery) and its end under a fair one: a number for what
--   the threads have done (Meter, Growth, ConsumerGrowth, Others, Rounds, Limit), which threads
--   can go on (Barriers, Deadlock), and Finish. Bench/SpscThreads has Turns, Invariant, Steps and
--   Delivery, Seen and Refines for its relation to Bench/SpscRun, and Meter to Finish as before.
--   Bench/Samples has concrete functions for the parameters.
-- Tests in each component has small runs and the theorems at concrete inputs.
--
-- How it is modelled. Words of 64 bits are natural numbers with the wrap-around of each operation
-- written out; an int is a signed number of Prelude/Int. A call that could leave an array, lose
-- an object or use a dead one returns `none` there. The calls of the SPSC queues are modelled
-- twice: run as a whole, one after the other, for any element type with its constructors and
-- destructor; and, for trivially copyable types and for bytes, one shared access at a time, the
-- threads interleaved in any way. For the SPMC queue only the second is given. The shared
-- accesses take effect one at a time, in program order, as the code expects of x86: neither the
-- compiler nor the memory reorders them. Objects are copied word by word, so that a push of the
-- SPMC queue can overtake a pop in the middle of its copy. A barrier lets a thread go on when
-- every thread has arrived as often as it has.
--
-- Bounds and fuel. The theorems on SPMC queues hold for schedules of fewer than 2^62 steps: no
-- version or counter wraps before. The loop of the destructor runs on fuel, and one more than the
-- number of objects held is enough. A schedule is fair for a number of rounds when each thread has
-- a turn in each of them; how many rounds are enough for the two benchmarks is `enough_rounds` in
-- Limit below Bench/BurstThreads and Bench/SpscThreads, a sum over the messages and the epochs.
-- The number of slots of the SPMC queue is any power of two, as its static_assert demands, and its
-- objects have any number of words.
--
-- What is not modelled. Interleavings of the SPSC calls for types that are not trivially
-- copyable, reorderings of weaker memory models, the pinning of the threads of spsc_bench, files
-- and terminal, and quantities computed in doubles. include/moodycammel_queue.hpp and
-- include/atomicops.h are a library of another project that the queues do not use; the files of
-- benchmark/ are commented out. Clock readings, what pthread_setaffinity_np returns, std::sort,
-- the random distributions and the results of DPDK calls are parameters, with what the code
-- relies on as named hypotheses.
pub mod Prelude
pub mod Memory
pub mod Trace
pub mod ByteQueue
pub mod ObjectQueue
pub mod BroadcastLog
pub mod SpscBuffer
pub mod IpcBuffer
pub mod SpscQueue
pub mod SpmcQueue
pub mod Bench
