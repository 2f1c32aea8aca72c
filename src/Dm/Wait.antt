-- ===== src/Dm/Wait.antt =====
-- src/dm.c of the runtime (software/snRuntime): any number of cores that queue transfers, start and
-- wait for them, the data mover's core, and the DMA engine, one access to the shared struct for each
-- step, in any order. Transfers are told apart by their number only, not by their place in the ring.
-- A copy's store into the ring and the increment of the fill are one step, and so are the wait until
-- the engine takes a transfer and its start. `dm_exit` is left out.
-- The store of `snrt_int_cluster_clr` goes to another register (see `Team`), so the interrupt stays
-- pending once it is raised.
pub mod Invariant
pub mod Stores
pub mod Requests
pub mod Clients
pub mod Movers
pub mod Safety
pub mod Aside
pub mod Lost
pub mod Overrun
mod Examples
use many_rvdata.Base.{
  ℕ, suc, ◌+◌, ◌≡◌, ◌<◌, ◌==◌, ltb, Bool, true, false, if◌then◌else◌, Option, none, some, at, add32,
  sub32,
}
use many_rvdata.Dm.{Stat, dm_task_queue_size}

-- What a core does next: `dm_memcpy_async` and its kin; the two steps of `wake_dm` in `dm_start` and
-- at the start of `dm_wait`; the rest of `dm_wait`; and what it shares with `dm_wait_ready`, from the
-- lock on, for the request `q`.
pub data Phase : Type 0 where
  idle polling locking inserting unlocking starting raising_start : Phase
  waking_first raising_first draining quieting : Phase
  acquiring resetting requesting waking raising validating returning : (q : Stat) → Phase

pub data Op : Type 0 where
  memcpy_async dm_start dm_wait dm_wait_ready : Op

pub record Core : Type 0 where
  pub phase : Phase
  -- the number of the core's latest transfer
  pub last : ℕ

-- What the data mover does next, in `dm_main` and `wfi_dm`.
pub data Mover : Type 0 where
  top issuing bumping asking switching testing validating clearing : Mover
  checking_fill checking_stat entering sleeping clearing_irq leaving : Mover

pub record Sys : Type 0 where
  pub queue_fill : ℕ
  pub stat_q : Stat
  pub stat_pvalid : ℕ
  pub dm_wfi : ℕ
  -- the core that holds the mutex
  pub mutex : Option ℕ
  -- the interrupt of the data mover's core
  pub irq : ℕ
  pub mover : Mover
  -- the transfers queued, started and completed so far
  pub queued : ℕ
  pub issued : ℕ
  pub done : ℕ
  pub cores : ℕ → Core

abbrev pub is_free : Option ℕ → Bool
is_free none = true
is_free (some c) = false

abbrev pub no_request? : Stat → Bool
no_request? Stat.no_request = true
no_request? _ = false

-- core `c` goes on to phase `p`
abbrev pub goes : Sys → ℕ → Phase → Sys
goes s c p = record s { cores = at s.cores c (record (s.cores c) { phase = p }) }

abbrev pub begin : Op → Phase
begin Op.memcpy_async = Phase.polling
begin Op.dm_start = Phase.starting
begin Op.dm_wait = Phase.waking_first
begin Op.dm_wait_ready = Phase.acquiring Stat.ready

-- one step of core `c`; `op` is what its program calls next
unfoldable pub core_step : (c : ℕ) → Op → Phase → Sys → Sys
core_step c op Phase.idle s = goes s c (begin op)
core_step c op Phase.polling s =
    goes s c (if ltb s.queue_fill dm_task_queue_size then Phase.locking else Phase.polling)
core_step c op Phase.locking s =
    if is_free s.mutex then record (goes s c Phase.inserting) { mutex = some c } else s
core_step c op Phase.inserting s = record s {
  queue_fill = add32 s.queue_fill 1;
  queued = s.queued + 1;
  cores = at s.cores c (record { phase = Phase.unlocking; last = s.queued + 1 });
}
core_step c op Phase.unlocking s = record (goes s c Phase.idle) { mutex = none }
core_step c op Phase.starting s = if s.dm_wfi == 0 then s else goes s c Phase.raising_start
core_step c op Phase.raising_start s = record (goes s c Phase.idle) { irq = 1 }
core_step c op Phase.waking_first s = if s.dm_wfi == 0 then s else goes s c Phase.raising_first
core_step c op Phase.raising_first s = record (goes s c Phase.draining) { irq = 1 }
core_step c op Phase.draining s = if s.queue_fill == 0 then goes s c Phase.quieting else s
core_step c op Phase.quieting s =
    if no_request? s.stat_q then goes s c (Phase.acquiring Stat.wait_idle) else s
core_step c op (Phase.acquiring q) s =
    if is_free s.mutex then record (goes s c (Phase.resetting q)) { mutex = some c } else s
core_step c op (Phase.resetting q) s = record (goes s c (Phase.requesting q)) { stat_pvalid = 0 }
core_step c op (Phase.requesting q) s = record (goes s c (Phase.waking q)) { stat_q = q }
core_step c op (Phase.waking q) s = if s.dm_wfi == 0 then s else goes s c (Phase.raising q)
core_step c op (Phase.raising q) s = record (goes s c (Phase.validating q)) { irq = 1 }
core_step c op (Phase.validating q) s =
    if s.stat_pvalid == 0 then s else goes s c (Phase.returning q)
core_step c op (Phase.returning q) s = record (goes s c Phase.idle) { mutex = none }

-- `switch (dm_p->stat_q)`
abbrev pub dispatch : Stat → Mover
dispatch Stat.wait_idle = Mover.testing
dispatch Stat.ready = Mover.validating
dispatch _ = Mover.checking_fill

-- one step of the data mover
unfoldable pub mover_step : Mover → Sys → Sys
mover_step Mover.top s = record s {
  mover = if s.queue_fill == 0 then Mover.asking else Mover.issuing;
}
mover_step Mover.issuing s = record s { mover = Mover.bumping; issued = s.issued + 1 }
mover_step Mover.bumping s = record s { mover = Mover.asking; queue_fill = sub32 s.queue_fill 1 }
mover_step Mover.asking s = record s {
  mover = if no_request? s.stat_q then Mover.checking_fill else Mover.switching;
}
mover_step Mover.switching s = record s { mover = dispatch s.stat_q }
mover_step Mover.testing s = record s {
  mover = if s.done == s.issued then Mover.validating else Mover.checking_fill;
}
mover_step Mover.validating s = record s { mover = Mover.clearing; stat_pvalid = 1 }
mover_step Mover.clearing s = record s { mover = Mover.checking_fill; stat_q = Stat.no_request }
mover_step Mover.checking_fill s = record s {
  mover = if s.queue_fill == 0 then Mover.checking_stat else Mover.top;
}
mover_step Mover.checking_stat s = record s {
  mover = if no_request? s.stat_q then Mover.entering else Mover.top;
}
mover_step Mover.entering s = record s { mover = Mover.sleeping; dm_wfi = add32 s.dm_wfi 1 }
mover_step Mover.sleeping s = record s {
  mover = if s.irq == 0 then Mover.sleeping else Mover.clearing_irq;
}
mover_step Mover.clearing_irq s = record s { mover = Mover.leaving }
mover_step Mover.leaving s = record s { mover = Mover.top; dm_wfi = sub32 s.dm_wfi 1 }

-- `n` cores, the data mover, and the engine, which completes the transfers in order
pub data Step (n : ℕ) (s : Sys) : Sys → Type 0 where
  core : (c : ℕ) (op : Op) → c < n → Step n s (core_step c op (s.cores c).phase s)
  move : Step n s (mover_step s.mover s)
  complete : s.done < s.issued → Step n s (record s { done = s.done + 1 })

pub data Reach (n : ℕ) (s : Sys) : Sys → Type 0 where
  here : Reach n s s
  next : {t u : Sys} → Reach n s t → Step n t u → Reach n s u

-- after `dm_init`
abbrev pub start : Sys
start = record {
  queue_fill = 0;
  stat_q = Stat.no_request;
  stat_pvalid = 0;
  dm_wfi = 0;
  mutex = none;
  irq = 0;
  mover = Mover.top;
  queued = 0;
  issued = 0;
  done = 0;
  cores = λ c. record { phase = Phase.idle; last = 0 };
}
