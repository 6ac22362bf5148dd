-- ===== src/Lib.antt =====
-- A word-based software transactional memory (template/), verified on a model of its C code.
--
-- The program. A region of shared memory is a set of segments. Each segment holds two copies of its
-- bytes, a committed one (`read`) and a working one (`write`), and a control for each word. A
-- transaction enters the batcher, reads and writes words through opaque pointers, and leaves; the
-- last one of a batch ends the epoch: it publishes the working copies of all segments that were
-- touched, frees what is to be freed, and lets the next batch in. A call that is refused rolls its
-- transaction back and leaves the batch. Beside it stand a reference implementation under one lock
-- (reference/) and a grader (grading/), which runs a bank's transactions on each library from several
-- threads, checks what they find, and measures the time.
--
-- The files, each with the code that it models:
--   Base       numbers, tests, lists, and the type `Run` of code that can fault or run out of fuel
--   Bits       masks and fields of machine words
--   Words      template/common.h: `pow2_exp`, `pow2`, `next_pow2`
--   Opaque     template/segment.h, template/segment.c: opaque pointers, the read-only mark
--   Word       template/tm.c: `can_read_word`, `can_write_word`; histories of one word
--   Segment    template/tm.c: `_tm_read`, `_tm_write`, the body of `rollback_transaction`;
--              template/batcher.c: the commit of a segment in `epoch_cleanup`;
--              Segment/Alloc template/segment.c: `alloc_segment`
--   Links      template/link.c: `_link_insert`, `link_remove`, over a heap of links
--   Batcher    template/batcher.c: `enter_batcher`, `leave_batcher`, and threads that call them
--   Lock       template/lock.h, template/lock.c: the spinlock
--   Region     template/link.c: `move_to_dirty`, `move_to_clean`, `link_insert`;
--              template/tm.c: `rollback_transaction`; template/batcher.c: `epoch_cleanup`
--   Tm         template/tm.c: the functions `tm_*`
--   Transactional  grading/transactional.hpp: `Transaction`, `transactional`, shared cells, over any
--              library of the functions `tm_*`
--   Bank       grading/workload.hpp: the transactions of the bank, each as one atomic run, and `init`
--              and `run`, which apply them
--   Counter    grading/workload.hpp: `check`, as steps of its workers
--   Barrier    grading/common.hpp: `Barrier`, and threads that call `sync`
--   Clock      grading/common.hpp: `Chrono`
--   Latch      grading/common.hpp: `Latch`
--   Sync       grading/grading.cpp: `Sync`, the master and its workers, over a clock and a latch
--   Grading    grading/grading.cpp: `measure`, `main`
--   Ticket     reference/tm.c: the ticket lock, and threads that take it
--   Reference  reference/tm.c: the functions `tm_*`, over a store of links; what its lock answers is
--              an argument
-- State is passed explicitly: a word is `control_t`, a segment `segment_t` with what its pointers
-- lead to, a region `region_t` with the links and segments by address. A name of the model is that
-- of the C function. A test under a spinlock or a mutex is one step; Word/History, Segment/Epoch and
-- Batcher/Threads let such steps of several transactions interleave in any order.
--
-- An access out of bounds or through a dangling pointer, an undefined shift and a failed assertion
-- are `fault`. Loops run on fuel. In `_tm_read` and `_tm_write` it is one more than the number of
-- bytes, which is enough since a word has at least one byte; over a list of segments it is a
-- parameter, and the number of links is enough.
--
-- Sizes and addresses are natural numbers; `size_t` and `uint64_t` wrap at 2 ^ 64, `int` and
-- `atomic_int` at 2 ^ 32. The platform is LP64 with a `pthread_mutex_t` of 40 bytes. `malloc` and
-- `posix_memalign` are parameters. Weak memory order and the races between `rollback_transaction` and
-- `move_to_dirty`, which walk and change the dirty list without a common lock, are not modelled.
-- Debugging output is left out, and so are `link_append` and the wrappers of pthread locks in
-- template/lock.c, which nobody calls. Of reference/tm.c the lock over a pthread mutex is left out,
-- and what the read-write lock, which is configured, does inside; of grading/ the loading of libraries
-- by name, printing, `bounded_run`, exceptions out of a worker, and the generators of random numbers,
-- whose choices are arguments. In Bank and Counter a transaction is atomic, which is what the grader
-- asks of a library.
pub mod Base
pub mod Bits
pub mod Words
pub mod Opaque
pub mod Word
pub mod Segment
pub mod Links
pub mod Batcher
pub mod Region
pub mod Reference
pub mod Counter
pub mod Ticket
pub mod Tm
pub mod Bank
pub mod Barrier
pub mod Clock
pub mod Latch
pub mod Sync
pub mod Grading
pub mod Lock
pub mod Transactional
