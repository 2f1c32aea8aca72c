-- ===== src/Team.antt =====
-- src/team.c, include/team.h and src/platforms/shared/start.c of the runtime (software/snRuntime):
-- what a core knows of itself, its cluster and its memory. Pointers are 32-bit words, and a pointer
-- that becomes a 64-bit number is extended by zeros. Bootdata and the place of the cluster's memory
-- come from the start-up code in assembly: arguments here. Register offsets are those of
-- include/cachepool_peripheral.h. `_snrt_team_current` of a core points to the root of its own team.
pub mod Laws
mod Examples
use many_rvdata.Base.{
  ℕ, ◌+◌, ◌-◌, ◌*◌, ◌/◌, ◌%◌, ◌^◌, ◌==◌, Bool, true, false, not, ltb, if◌then◌else◌, at, add32,
  sub32, u32, add64, sub64,
}
use many_rvdata.Alloc.{Allocator, snrt_alloc_init}

-- `snrt_slice_t`
pub record Slice : Type 0 where
  pub start : ℕ
  pub end : ℕ

unfoldable pub snrt_slice_len : Slice → ℕ
snrt_slice_len s = u32 (sub64 s.end s.start)

-- `struct snrt_cluster_bootdata`
pub record Bootdata : Type 0 where
  pub boot_addr : ℕ
  pub core_count : ℕ
  pub hartid_base : ℕ
  pub tcdm_start : ℕ
  pub tcdm_size : ℕ
  pub tcdm_offset : ℕ
  pub global_mem_start : ℕ
  pub global_mem_end : ℕ
  pub tile_count : ℕ

-- `struct snrt_peripherals`, addresses; the pointer to the counters is not set
pub record Peripherals : Type 0 where
  pub wakeup : ℕ
  pub perf_counters : ℕ
  pub cl_clint : ℕ

-- `struct snrt_barrier`
pub record Barrier : Type 0 where
  pub barrier : ℕ
  pub barrier_iteration : ℕ

-- `struct snrt_team_root`
pub record Root : Type 0 where
  pub bootdata : Bootdata
  pub global_core_base_hartid : ℕ
  pub global_core_num : ℕ
  pub cluster_idx : ℕ
  pub cluster_num : ℕ
  pub cluster_core_base_hartid : ℕ
  pub cluster_core_num : ℕ
  pub global_mem : Slice
  pub cluster_mem : Slice
  pub l1 : Allocator
  pub l3 : Allocator
  pub cluster_barrier : Barrier
  pub barrier_reg_ptr : ℕ
  pub barrier_participation_mask_reg_ptr : ℕ
  pub peripherals : Peripherals

-- a core: its `mhartid`, its thread-local `_snrt_core_idx` and `clint_p`, and its team
pub record Core : Type 0 where
  pub hartid : ℕ
  pub core_idx : ℕ
  pub clint_p : ℕ
  pub root : Root

abbrev pub cl_clint_set_offset : ℕ
cl_clint_set_offset = 0x8

abbrev pub cl_clint_clear_offset : ℕ
cl_clint_clear_offset = 0xc

abbrev pub hw_barrier_offset : ℕ
hw_barrier_offset = 0x10

abbrev pub participation_mask_offset : ℕ
participation_mask_offset = 0x50

abbrev pub cluster_global_offset : ℕ
cluster_global_offset = 0x10000000

-- `sizeof(struct putc_buffer)`: a header of 72 bytes and 1020 more, aligned to 8
abbrev pub putc_buffer_size : ℕ
putc_buffer_size = 1096

-- `snrt_int_init`
abbrev pub snrt_int_init : Root → ℕ
snrt_int_init team = team.peripherals.cl_clint

-- `_snrt_init_team`, with the word at `_edram`, the old pointer to the counters, and the sizes in
-- the string buffers of the harts
unfoldable pub init_team :
    (hartid cluster_core_num spm_start edram perf_counters : ℕ)
    → Bootdata
    → (ℕ → ℕ)
    → Core × (ℕ → ℕ)
unfolding snrt_alloc_init
init_team hartid cluster_core_num spm_start edram perf_counters boot putc_sizes =
    let cluster_mem : Slice = record { start = spm_start; end = add64 spm_start boot.tcdm_size } in
    let (l1, l3) =
      snrt_alloc_init (u32 cluster_mem.start) (u32 cluster_mem.end) edram putc_buffer_size in
    let team : Root = record {
      bootdata = boot;
      global_core_base_hartid = boot.hartid_base;
      global_core_num = boot.core_count;
      cluster_idx = sub32 hartid boot.hartid_base / boot.core_count;
      cluster_num = 0;
      cluster_core_base_hartid = boot.hartid_base;
      cluster_core_num = cluster_core_num;
      global_mem = record {
        start = u32 (boot.global_mem_start + cluster_global_offset);
        end = boot.global_mem_end;
      };
      cluster_mem = cluster_mem;
      l1 = l1;
      l3 = l3;
      cluster_barrier = record { barrier = 0; barrier_iteration = 0 };
      barrier_reg_ptr = add32 (add32 spm_start boot.tcdm_size) hw_barrier_offset;
      barrier_participation_mask_reg_ptr =
          add32 (add32 spm_start boot.tcdm_size) participation_mask_offset;
      peripherals = record {
        wakeup = 0;
        perf_counters = perf_counters;
        cl_clint = add32 (add32 spm_start boot.tcdm_size) cl_clint_set_offset;
      };
    } in
    (
      record {
        hartid = hartid;
        core_idx = sub32 hartid team.cluster_core_base_hartid % team.cluster_core_num;
        clint_p = snrt_int_init team;
        root = team;
      },
      at putc_sizes hartid 0,
    )

unfoldable pub snrt_global_core_base_hartid : Core → ℕ
snrt_global_core_base_hartid c = c.root.global_core_base_hartid

unfoldable pub snrt_cluster_core_base_hartid : Core → ℕ
snrt_cluster_core_base_hartid c = c.root.cluster_core_base_hartid

unfoldable pub snrt_global_core_idx : Core → ℕ
snrt_global_core_idx c = sub32 c.hartid c.root.global_core_base_hartid

unfoldable pub snrt_global_core_num : Core → ℕ
snrt_global_core_num c = c.root.global_core_num

unfoldable pub snrt_cluster_idx : Core → ℕ
snrt_cluster_idx c = c.root.cluster_idx

unfoldable pub snrt_cluster_num : Core → ℕ
snrt_cluster_num c = c.root.cluster_num

unfoldable pub snrt_cluster_core_idx : Core → ℕ
snrt_cluster_core_idx c = c.core_idx

unfoldable pub snrt_cluster_core_num : Core → ℕ
snrt_cluster_core_num c = c.root.cluster_core_num

unfoldable pub snrt_cluster_tile_num : Core → ℕ
snrt_cluster_tile_num c = if c.root.bootdata.tile_count == 0 then 1 else c.root.bootdata.tile_count

-- Division by 0, with more tiles than cores, is not the source's: RISC-V gives all ones there.
unfoldable pub snrt_cluster_tile_idx : Core → ℕ
unfolding snrt_cluster_tile_num snrt_cluster_core_num snrt_cluster_core_idx
snrt_cluster_tile_idx c =
    let cpt = snrt_cluster_core_num c / snrt_cluster_tile_num c in
    if cpt == 0 then 2 ^ 32 - 1 else snrt_cluster_core_idx c / cpt

unfoldable pub snrt_cluster_compute_core_idx : Core → ℕ
unfolding snrt_cluster_core_idx
snrt_cluster_compute_core_idx c = snrt_cluster_core_idx c

unfoldable pub snrt_cluster_compute_core_num : Core → ℕ
unfolding snrt_cluster_core_num
snrt_cluster_compute_core_num c = sub32 (snrt_cluster_core_num c) 1

unfoldable pub snrt_cluster_dm_core_idx : Core → ℕ
unfolding snrt_cluster_core_num
snrt_cluster_dm_core_idx c = sub32 (snrt_cluster_core_num c) 1

unfoldable pub snrt_cluster_dm_core_num : Core → ℕ
snrt_cluster_dm_core_num c = 1

unfoldable pub snrt_is_compute_core : Core → Bool
unfolding snrt_cluster_core_idx snrt_cluster_core_num
snrt_is_compute_core c = ltb (snrt_cluster_core_idx c) (sub32 (snrt_cluster_core_num c) 1)

unfoldable pub snrt_is_dm_core : Core → Bool
unfolding snrt_is_compute_core
snrt_is_dm_core c = not (snrt_is_compute_core c)

unfoldable pub barrier_reg_ptr : Core → ℕ
barrier_reg_ptr c = c.root.barrier_reg_ptr

unfoldable pub barrier_participation_mask_reg_ptr : Core → ℕ
barrier_participation_mask_reg_ptr c = c.root.barrier_participation_mask_reg_ptr

unfoldable pub snrt_global_memory : Core → Slice
snrt_global_memory c = c.root.global_mem

unfoldable pub snrt_cluster_memory : Core → Slice
snrt_cluster_memory c = c.root.cluster_mem

-- `snrt_wakeup`: the address and the value of its store
unfoldable pub snrt_wakeup : (mask : ℕ) → Core → ℕ × ℕ
snrt_wakeup mask c = (c.root.peripherals.wakeup, mask)
