-- ===== src/Lib.antt =====
-- ccmetrics: application metrics for C++, with the lock-free structures they are built on.
--
-- The parts of the program and how they interact. A registry (src/metric_registry.cc) hands out
-- metrics by name. A counter, and the buffers of a meter, are a striped 64-bit counter
-- (src/metrics/striped_int64.cc), whose table of slots grows under contention and is reclaimed by
-- hazard pointers (src/hazard_pointers.h). A timer adds a meter (src/metrics/meter_impl.cc) and a
-- histogram, which samples into a reservoir (src/metrics/exponential_reservoir.cc) over a skip list
-- map (src/concurrent_skip_list_map.h) and reports by a snapshot (src/snapshot.cc). Each thread finds
-- its hazard pointer record, its hash code and its random source (src/thread_local_random.cc) in
-- thread-local storage (src/thread_local.h, src/detail/thread_local_detail.h).
--
-- The modules:
--   Hazard       src/hazard_pointers.h. The state is HazardPointers, the list of records with the
--                nodes deleted so far; allocate, retire, retire_node, scan, help_records and destroy
--                are the methods of those names (helpScan, ~HazardPointers), each run alone.
--                Hazard/Concurrent has any number of threads: State is what they share and where
--                each of them stands, `step` one access of loadAndSetHazard, retireNode, scan or
--                helpScan, Step also allocate, retire and what a client does with a cell, and Reach
--                the states that come of them. `held`, a ghost, has the slots that a thread relies on.
--                Stages has the invariant, Keeps, Readers, Writers, Exchange, Listing and Scans the
--                steps that keep it, and Safe what it says. Exclusive has who may use a retire list. Solo lets one thread run alone, and
--                Buffered lets the store of setHazard wait.
--   Aligned      src/cache_aligned.h, off Windows: the sizes and addresses of CacheAligned, allocateAligned,
--                mkAligned and freeAlgined. posix_memalign is a parameter.
--   Striped      src/metrics/striped_int64.{h,cc}. `step` is one shared access of `add` or `addSlow`;
--                Striped/System interleaves any number of threads with the scans that read their
--                hazards and delete retired storages; the use of a deleted storage is a `fault`. Reclaim
--                has the invariant of the hazards, Turns the steps that keep it, and Dereference what it
--                says of the storages in use. Striped/Storage has the ownership of
--                slabs, on one storage, and Striped/Sized the constructor of a given size.
--   ThreadLocal  src/detail/thread_local_detail.h and src/thread_local.h, off Windows. The state is
--                SharedStorage with the arrays of the threads on its list.
--   Random       src/thread_local_random.{h,cc}: the seeds, and the bytes that `generate` writes.
--   Reservoir    src/metrics/exponential_reservoir.{h,cc}, each operation run alone, over SkipMap.
--                Reservoir/Concrete has its insertions as calls of SkipList, and Filled many of them.
--   SkipMap      the contract of src/concurrent_skip_list_map.h, an ordered map, that Reservoir uses.
--   SkipList     src/concurrent_skip_list_map.h itself. The state is SkipList, the nodes at addresses
--                with the hazard pointers of one thread; Search has find_node (find), Update insert,
--                erase, find_value and exists, and Traverse first_key, values, entries, destroy and
--                new_map, each run alone. `IsMap` in Shape is their invariant; Sequence runs calls in
--                a row. Stale has an insert that was overtaken behind its search, and Interrupted
--                and Stuck an erase that stopped halfway.
--   Registry     src/metric_registry.cc and src/metric_registry_impl.h.
--   Meter        src/metrics/meter_impl.{h,cc}.
--   Snapshot     src/snapshot.cc and src/ccmetrics/snapshot.h.
--   Serializer   src/serializing/json_serializer.cc: the calls of the JSON writer, and in Document a
--                reader of them.
--   Reporting    src/reporting/periodic_reporter.cc, with graphite_reporter.cc in Reporting/Graphite and
--                console_reporter.cc in Reporting/Console. The timer and the stream of libwte answer by
--                events, which Reporting/Connection and Reporting/Periods put in sequences.
--   Double       the doubles, as a parameter with the laws that proofs rely on.
--   Base         what the modules share.
--   Metrics      src/metrics/counter_impl.h, src/metrics/histogram.{h,cc}, src/metrics/timer.cc and the
--                ScopedTimer of src/ccmetrics/timer.h, over Reservoir, Meter and Snapshot.
--
-- Numbers. A 64-bit or 32-bit integer is its bit pattern, a native number, and sums wrap around where
-- the source's do. Addresses are numbers, and 0 is nullptr. Failed assertions, the use of an address
-- outside an array and the exhaustion of fuel are `none` or a constructor of the result.
--
-- Fuel. `Hazard.sweep`, phase 2 of `scan`, has the length of the retire list as fuel, and each round
-- shortens what is left by one. The eviction loop of Reservoir has two rounds. The operations of the
-- skip list have one more than the number of nodes as fuel, which pays for a walk along level 0, and
-- its destructor, which frees the head too, two more. The retry loop of `loadAndSetHazard` takes the
-- list of the values that its loads return. `Striped.Sized.grow_to` has one round
-- more than the wanted size as fuel, and each round adds a slot or more. The destructor of a storage
-- has its size as fuel, and its index at least doubles in each round.
--
-- Not modelled: the memory orders of atomics, which are taken as sequentially consistent, apart from the
-- store of setHazard in Hazard/Concurrent/Buffered; several
-- threads at work on the skip list at once, apart from the two interruptions above; the text that
-- printf, fmt::format and rapidjson make, of which the model keeps the calls; the event loop and the
-- streams of libwte, of which it keeps what they are asked and what they answer, where a stream answers
-- a connect once and fails once; the destructor of PeriodicReporter; the doubly linked
-- list of threads and its teardown at static destruction; Windows.
pub mod Base
pub mod Random
pub mod Aligned
pub mod Hazard
pub mod Striped
pub mod ThreadLocal
pub mod Double
pub mod SkipMap
pub mod SkipList
pub mod Reservoir
pub mod Registry
pub mod Meter
pub mod Snapshot
pub mod Metrics
pub mod Serializer
pub mod Reporting
