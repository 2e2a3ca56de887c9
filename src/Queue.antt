-- ===== src/Queue.antt =====
-- utility/concurrent_queues.h: the queues, one module each.
pub mod Fifo
pub mod Mpmc
pub mod Spsc
pub mod Mpsc
