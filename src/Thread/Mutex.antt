-- ===== src/Thread/Mutex.antt =====
-- Any number of threads, one lock, every interleaving: the steps between which the processor may
-- switch, and the invariant that gives mutual exclusion.
pub mod Machine
pub mod Invariant
pub mod Owner
pub mod Semaphore
pub mod Safety
