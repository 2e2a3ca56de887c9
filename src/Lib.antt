-- ===== src/Lib.antt =====
-- flux_foundry: a C++ library of lock-free building blocks and of asynchronous flows made of them.
--
-- The parts and how they interact. A flow is a chain of nodes that flow/flow_runner.h runs; an async
-- node creates an awaitable (flow/flow_awaitable.h), registers its cancel handler with the flow's
-- controller (flow_controller in flow/flow_runner.h), and goes on when the awaitable is resumed.
-- when_all and when_any (flow/flow_async_aggregator.h) are awaitables that run several flows. Nodes
-- hand their work to executors (executor/simple_executor.h), which queue tasks in the bounded queues
-- of utility/concurrent_queues.h. Blueprints of flows are shared by lite_ptr (memory/lite_ptr.h), and
-- memory is pooled in static_mem_pool (memory/static_mem_pool.h), whose free lists are static_stacks
-- (utility/static_stack.h). Hazard pointers (memory/hazard_ptr.h) delay the deletion of shared objects.
--
-- Which file models what. Each component is a module with its state as a record and one function for
-- an operation, or for one access to shared memory of it, by the names of the source; its child
-- modules hold the threads' step relation (System, Protocol), the invariant (Inv) and the laws.
--   Prelude       shared tests on numbers, lists, 64-bit words, thread tables, sums over them
--   Queue.Fifo    the abstract bounded queue
--   Queue.Mpmc    mpmc_queue of utility/concurrent_queues.h: `step` is one access of
--                 wait_and_emplace, wait_and_pop, try_emplace or try_pop
--   Queue.Spsc    spsc_queue there: `emplace_step` and `pop_step` are the accesses of its two threads
--   Queue.Mpsc    mpsc_queue there, with its producers and its consumer
--   GsourceExecutor  gsource_executor of executor/gsource_executor.h: its wake-ups
--   Executor      simple_executor: the control word; a step is an atomic access with the tests on it
--   Flow.Controller      flow_controller, and the part of flow_runner that registers, resumes and
--                        fails an async node; a step is a call
--   Flow.Awaitable       awaitable_base; Flow.FastAwaitable: fast_awaitable_base
--   Flow.WhenAll, Flow.WhenAny  the aggregators: `emplace_step` is an access of a branch's delegate,
--                        `submit_step` one of the thread in `submit`; `Kind` selects the variant
--   Flow.Blueprint  the wrappers of flow/flow_node.h and `operator|` of flow/flow_blueprint.h
--   Flow.Runner     flow_runner and flow_fast_runner of flow/flow_runner.h: `advance` is what the
--                   flow's thread does between two reads of the controller's word
--   Hazard          hazard_ptr and hp_mgr of memory/hazard_ptr.h; Hazard.Sweep: retire and the sweeps
--   Pool            static_mem_pool of memory/static_mem_pool.h, over the abstract stacks
--   Pooling         flux_foundry_allocator of memory/pooling.h: one thread's cache before the pool
--   StaticStack   static_stack; `push` stands for the overloads of push and emplace
--   LitePtr       lite_ptr over a heap of control blocks
--
-- Bounds. Words are 64 bits wide and wrap around (Prelude.Words). Theorems on reachable states assume
-- fewer than 2 ^ 60 or 2 ^ 62 steps, pointers or branches, where no counter has wrapped around. Fuel
-- occurs in Queue.Mpmc.run_alone, where six accesses are the longest call, in Hazard.Sweep, where a
-- turn for each record is enough, and in Pool, where the search has four lines; the theorems state
-- what the call returns within it.
--
-- What is simplified. Memory is sequentially consistent, so the memory orders are not modelled, but
-- for the stores to the slots of hazard pointers, which wait in store buffers. A weak compare-exchange
-- that fails repeats its pass, which the interleavings allow at any time; back-off has no other effect.
-- The queue of an executor may refuse a task at any time, as mpsc_queue does when two producers meet.
-- The loops that cancel all controllers are one step. static_stack is called from one thread at a time.
-- Capacities of the queues are positive numbers, where the source asks for a power of two. Derived
-- awaitables, executors' tasks, the flows that the aggregators run and exceptions that they throw come
-- from outside, as parameters and as alternatives of the steps.
--
-- A flow's nodes have one type of values and one of errors. A hazard_ptr is its slot; how hp_owner
-- claims slots is left out, but any slot may at any time get a second user that writes to it. The pool
-- has the parameters of memory/pooling.h.
--
-- What is not modelled: the SPMC deque and tasks; value and storage templates, traits and type
-- erasure, which are C++ object lifetimes and compile-time computation; tests and benchmarks.
pub mod Prelude
pub mod Queue
pub mod Executor
pub mod Flow
pub mod StaticStack
pub mod Pool
pub mod Pooling
pub mod GsourceExecutor
pub mod Hazard
pub mod LitePtr
