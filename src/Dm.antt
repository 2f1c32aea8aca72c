-- ===== src/Dm.antt =====
-- src/dm.c of the runtime (software/snRuntime): a core hands transfers to the data mover's core
-- through a ring of four tasks. The DMA engine is not modelled but for the order of the transfers
-- that it is told to start.
pub mod Laws
pub mod Wait
mod Examples
use many_rvdata.Base.{
  ℕ, zero, suc, ◌+◌, ◌%◌, ◌^◌, ◌≡◌, ltb, ◌==◌, if◌then◌else◌, List, [], ◌∷◌, ◌++◌, at, add32, sub32,
  u32,
}

abbrev pub dm_task_queue_size : ℕ
dm_task_queue_size = 4

-- `dm_task_t`
pub record Task : Type 0 where
  pub src : ℕ
  pub dst : ℕ
  pub size : ℕ
  pub sstrd : ℕ
  pub dstrd : ℕ
  pub nreps : ℕ
  pub cfg : ℕ
  pub twod : ℕ

-- what the DMA engine is told to start
pub data Transfer : Type 0 where
  oned : (src dst size cfg : ℕ) → Transfer
  two_d : (src dst size sstrd dstrd nreps cfg : ℕ) → Transfer

-- `en_stat_t`, with 0 for no command
pub data Stat : Type 0 where
  no_request wait_idle exit ready : Stat

-- `dm_t`, with the transfers started so far, the first one first
pub record Dm : Type 0 where
  pub queue : ℕ → Task
  pub queue_back : ℕ
  pub queue_front : ℕ
  pub queue_fill : ℕ
  pub stat_q : Stat
  pub stat_pvalid : ℕ
  pub started : List Transfer

abbrev pub transfer : Task → Transfer
transfer t =
    if t.twod == 0
    then Transfer.oned t.src t.dst t.size t.cfg
    else Transfer.two_d t.src t.dst t.size t.sstrd t.dstrd t.nreps t.cfg

-- the part of `dm_memcpy_async` and `dm_memcpy2d_async` under the mutex, on the task at the front
unfoldable pub insert : (Task → Task) → Dm → Dm
insert fill_in dm = record dm {
  queue = at dm.queue dm.queue_front (fill_in (dm.queue dm.queue_front));
  queue_fill = add32 dm.queue_fill 1;
  queue_front = (dm.queue_front + 1) % dm_task_queue_size;
}

-- A one-dimensional task keeps the strides of the task that was there.
abbrev pub task_1d : (dest src n : ℕ) → Task → Task
task_1d dest src n t = record t { src = src; dst = dest; size = u32 n; twod = 0; cfg = 0 }

abbrev pub task_2d : (src dst size sstrd dstrd nreps cfg : ℕ) → Task → Task
task_2d src dst size sstrd dstrd nreps cfg t = record {
  src = src;
  dst = dst;
  size = size;
  sstrd = sstrd;
  dstrd = dstrd;
  nreps = nreps;
  twod = 1;
  cfg = cfg;
}

-- one round of the poll of the fill, and the insertion once there is room
unfoldable pub dm_memcpy_async : (dest src n : ℕ) → Dm → Dm
unfolding insert
dm_memcpy_async dest src n dm =
    if ltb dm.queue_fill dm_task_queue_size then insert (task_1d dest src n) dm else dm

unfoldable pub dm_memcpy2d_async : (src dst size sstrd dstrd nreps cfg : ℕ) → Dm → Dm
unfolding insert
dm_memcpy2d_async src dst size sstrd dstrd nreps cfg dm =
    if ltb dm.queue_fill dm_task_queue_size
    then insert (task_2d src dst size sstrd dstrd nreps cfg) dm
    else dm

-- The first part of a round of `dm_main`: start the task at the back.
unfoldable pub issue : Dm → Dm
issue dm = if dm.queue_fill == 0 then dm else record dm {
  started = dm.started ++ transfer (dm.queue dm.queue_back) ∷ [];
  queue_back = (dm.queue_back + 1) % dm_task_queue_size;
  queue_fill = sub32 dm.queue_fill 1;
}

-- The second part: a status request, with `busy` what the DMA engine answers. `STAT_EXIT` ends the
-- loop and leaves the request.
unfoldable pub answer_to : Stat → (busy : ℕ) → Dm → Dm
answer_to Stat.no_request busy dm = dm
answer_to Stat.wait_idle busy dm =
    if busy == 0 then record dm { stat_pvalid = 1; stat_q = Stat.no_request } else dm
answer_to Stat.exit busy dm = dm
answer_to Stat.ready busy dm = record dm { stat_pvalid = 1; stat_q = Stat.no_request }

unfoldable pub answer : (busy : ℕ) → Dm → Dm
unfolding answer_to
answer busy dm = answer_to dm.stat_q busy dm

unfoldable pub dm_main_round : (busy : ℕ) → Dm → Dm
unfolding issue answer
dm_main_round busy dm = answer busy (issue dm)

-- the request that `dm_wait` (`wait_idle`) and `dm_wait_ready` (`ready`) make under the mutex
unfoldable pub request : Stat → Dm → Dm
request q dm = record dm { stat_pvalid = 0; stat_q = q }

unfoldable pub dm_exit : Dm → Dm
dm_exit dm = record dm { stat_q = Stat.exit }
