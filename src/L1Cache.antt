-- ===== src/L1Cache.antt =====
-- src/l1cache.c of the runtime (software/snRuntime): a core configures and flushes the L1 cache by
-- the registers behind the cluster's memory. `busy r` is what the hardware answers to the poll
-- number `r` of the flush status. Each function appends its accesses to the log, latest first;
-- `none` is a wait that has not ended after `fuel` polls.
pub mod Laws
mod Examples
use many_rvdata.Base.{
  ℕ, zero, suc, ◌+◌, ◌*◌, ltb, ◌==◌, if◌then◌else◌, List, [], ◌∷◌, Option, none, some, sub32, mul32,
}
use many_rvdata.Alloc.{Allocator, snrt_l1alloc, snrt_l1alloc_reset}

pub data Reg : Type 0 where
  cluster_eoc_exit cfg_l1d_spm cfg_l1d_insn cfg_l1d_tile_sel l1d_spm_commit l1d_insn_commit : Reg
  l1d_flush_status l1d_private_reg l1d_addr_reg xbar_offset xbar_offset_commit : Reg

-- include/cachepool_peripheral.h
abbrev pub offset_of : Reg → ℕ
offset_of Reg.cluster_eoc_exit = 0x24
offset_of Reg.cfg_l1d_spm = 0x28
offset_of Reg.cfg_l1d_insn = 0x2c
offset_of Reg.cfg_l1d_tile_sel = 0x30
offset_of Reg.l1d_spm_commit = 0x34
offset_of Reg.l1d_insn_commit = 0x38
offset_of Reg.l1d_flush_status = 0x3c
offset_of Reg.l1d_private_reg = 0x40
offset_of Reg.l1d_addr_reg = 0x44
offset_of Reg.xbar_offset = 0x48
offset_of Reg.xbar_offset_commit = 0x4c

pub data Access : Type 0 where
  write : Reg → (value : ℕ) → Access
  read : Reg → (value : ℕ) → Access

pub record Machine : Type 0 where
  pub log : List Access
  pub polls : ℕ
  pub l1 : Allocator

abbrev pub store : Reg → (value : ℕ) → Machine → Machine
store reg value m = record m { log = Access.write reg value ∷ m.log }

abbrev pub and_then : Option Machine → (Machine → Machine) → Option Machine
and_then none f = none
and_then (some m) f = some (f m)

unfoldable pub l1d_xbar_commit : Machine → Machine
l1d_xbar_commit m = store Reg.xbar_offset_commit 1 m

unfoldable pub l1d_commit : Machine → Machine
l1d_commit m = store Reg.l1d_insn_commit 1 m

unfoldable pub l1d_flush : Machine → Machine
unfolding l1d_commit
l1d_flush m = l1d_commit (store Reg.cfg_l1d_insn 2 m)

unfoldable pub l1d_private_flush : (tile : ℕ) → Machine → Machine
unfolding l1d_commit
l1d_private_flush tile m = l1d_commit (store Reg.cfg_l1d_tile_sel tile (store Reg.cfg_l1d_insn 0 m))

unfoldable pub l1d_shared_flush : Machine → Machine
unfolding l1d_commit
l1d_shared_flush m = l1d_commit (store Reg.cfg_l1d_insn 1 m)

-- `cache_region * sizeof(double)`
abbrev pub cache_region : (size : ℕ) → ℕ
cache_region size = mul32 (mul32 (sub32 128 size) 128) 8

unfoldable pub l1d_addr : (addr : ℕ) → Machine → Machine
unfolding l1d_commit
l1d_addr addr m = l1d_commit (store Reg.l1d_addr_reg addr m)

unfoldable pub set_eoc : (eoc_value : ℕ) → Machine → Machine
set_eoc eoc_value m = store Reg.cluster_eoc_exit eoc_value m

module _ (busy : ℕ → ℕ) where
  abbrev pub poll : Machine → Machine
  poll m = record m {
    log = Access.read Reg.l1d_flush_status (busy m.polls) ∷ m.log;
    polls = m.polls + 1;
  }

  unfoldable pub l1d_wait : (fuel : ℕ) → Machine → Option Machine
  l1d_wait zero m = none
  l1d_wait (suc fuel) m =
      let rest = l1d_wait fuel (poll m) in if busy m.polls == 0 then some (poll m) else rest

  unfoldable pub l1d_init : (fuel size : ℕ) → Machine → Option Machine
  unfolding l1d_commit l1d_wait
  l1d_init fuel size m = l1d_wait fuel (l1d_commit (store Reg.cfg_l1d_insn 3 m))

  unfoldable pub l1d_xbar_config : (fuel offset : ℕ) → Machine → Option Machine
  unfolding l1d_flush l1d_wait l1d_xbar_commit
  l1d_xbar_config fuel offset m =
      let offset' = if ltb 6 offset then offset else 6 in
      and_then (l1d_wait fuel (l1d_flush (store Reg.xbar_offset offset' m))) l1d_xbar_commit

  unfoldable pub l1d_spm_config : (fuel size : ℕ) → Machine → Option Machine
  unfolding l1d_flush l1d_wait
  l1d_spm_config fuel size m = and_then (l1d_wait fuel (l1d_flush m)) λ m'.
      let (dummy, l1) = snrt_l1alloc (cache_region size) (snrt_l1alloc_reset m'.l1) in
      store Reg.l1d_spm_commit 1 (store Reg.cfg_l1d_spm size (record m' { l1 = l1 }))

  unfoldable pub l1d_part : (fuel size : ℕ) → Machine → Option Machine
  unfolding l1d_flush l1d_wait l1d_commit
  l1d_part fuel size m =
      and_then (l1d_wait fuel (l1d_flush m)) λ m'. l1d_commit (store Reg.l1d_private_reg size m')
