-- ===== src/Lib.antt =====
-- ManyRVData (CachePool): the software that runs on the many-core RISC-V cluster, in C. Paths are from
-- the repository's root.
--
-- The program's parts and how they interact.
-- * software/tests/multi_producer_single_consumer_double_linked_list/kernel is an RLC layer on the
--   cluster. Producer cores take packets from a table (rlc.c), a node for each from a page pool (mm.c)
--   and append it to the to-send list (llist.c); consumer cores take nodes off, number them, move
--   their payload by a vector copy (data_move_vec.c) and append them to the sent list. `DataMove`,
--   `LinkedList`, `Pages` and `Rlc` model these files. The lists and the pool are guarded by spin
--   locks: `SpinLock` shows that a section under such a lock may count as one step, and `Rlc` makes it
--   one. `Rlc.Packets` keeps a log of which packet is in which node.
-- * software/snRuntime/src is the runtime below: memory for the cores (alloc.c: `Alloc`), barriers
--   (barrier.c: `Barrier`), the queue to the core that drives the DMA engine (dm.c: `Dm`, and `Dm.Wait`
--   for the cores that fill it and wait for it), and what compiled OpenMP code calls (omp/kmp.c: `Kmp`,
--   with children for the static and the dynamic schedule and for parallel regions), on top of the event
--   unit, which hands a parallel region to the worker cores (omp/eu.c: `Eu`); omp/omp.c and the fork on top of them are `Omp`.
--   What the cores know of themselves and where things stand in memory (team.c and
--   platforms/shared/start.c: `Team`), interrupts (interrupt.c: `Interrupt`), the cache's registers
--   (l1cache.c: `L1Cache`), the DMA instructions (dma.c: `Dma`), performance counters (perf_cnt.c:
--   `PerfCnt`) and byte copies (memcpy.c: `Memory`) complete it.
-- * hardware/tb/dpi/elfloader.cpp reads the program into the simulated memory: `Elf`.
-- * `Base` has the words, lists, tests and sums over cores that the parts share.
--
-- State and operations. A struct is a record with the source's fields, a C function one of the same
-- name, with the prefix `__kmpc_` dropped, from the state to the result and the new state. The RLC
-- heap maps an address to the node there, and the payload memory an address to a byte. 32-bit and
-- 64-bit integers are words with their wrap written out. A pointer is a number; address arithmetic in
-- the copy routines and in `memdiff32` does not wrap. Debug prints, delays, timers and performance
-- counters have no effect and are left out.
--
-- Concurrency. `SpinLock`, `Barrier`, `Eu` and `Dm.Wait` are step relations, one access to memory for a
-- step, for any number of cores and every order. `Rlc.Core.run` takes a list of core numbers, the order
-- of the steps. In `SpinLock`, a store waits in the core's buffer until the fence of the release. The other step
-- relations assume a memory in which every access is seen at once by all cores. Only the locks of the
-- RLC test have a fence before the release; `snrt_mutex_release` (include/snrt.h), barrier.c, eu.c and
-- dm.c have none, and what a memory with store buffers does to them is not modelled. `Kmp` and the rest
-- of `Dm` state one core's call under its mutex as one function.
--
-- Interrupts. `snrt_int_cluster_clr` stores two words behind the set register. With the register map of
-- include/cachepool_peripheral.h this goes to the register of the hardware barrier (`Team`), and the
-- interrupt stays pending. `Dm.Wait` follows that map. In `Eu` the effect of the store is an argument:
-- `clears` for what the code's comment says, `misses` for that map. A theorem of `Eu` for `clears` says so.
--
-- Alignment. A word access of the copy routines takes any address; where the core wants aligned
-- addresses, the caller has to give them.
--
-- Loops are structural recursions, on a count of the rounds left where the source's bound is known
-- (copy loops, the argument loop, `self_check`). The strip-mined loops of `DataMove.Vector` take one
-- more round of fuel than there are words, and each round moves at least one word, so the fuel is
-- enough; their theorems are about the whole copy and would fail if it ran out.
--
-- Waiting loops on a device take the answers of the device as a function of the number of the read and
-- run on fuel; the theorems give the fuel that is enough from the read at which the answer comes.
--
-- Parameters. `DataMove.Vector.Vset` is the `vsetvli` instruction with what the RISC-V vector
-- extension promises of it; old register contents are an argument. The packet table, the pool's
-- address and the number of packets and cores are arguments of `Rlc`. The answer of the DMA engine's
-- status instruction is an argument of `Dm`.
--
-- The ELF file is its size and its bytes.
--
-- Not modelled: the exit of the event unit, the mutexes of include/snrt.h, the waits of dm.c in the
-- build with the CLINT, the bootstrap of OpenMP, start-up code in assembly, console output, MCS locks,
-- the numeric kernels and their floats, the cache tests, the simulator's UART, and vendored or generated
-- code.
mod Base
pub mod DataMove
pub mod LinkedList
pub mod Pages
pub mod Rlc
pub mod SpinLock
pub mod Alloc
pub mod Barrier
pub mod Dm
pub mod Kmp
pub mod Eu
pub mod Interrupt
pub mod Team
pub mod L1Cache
pub mod Dma
pub mod PerfCnt
pub mod Memory
pub mod Elf
pub mod Omp
