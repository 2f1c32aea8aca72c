-- ===== src/Team/Examples.antt =====
-- The hart 20 of a cluster of nine cores on three tiles, whose first hart is 16.
use many_rvdata.Base.{◌-◌, ◌+◌, ◌*◌, ◌<◌, ◌≡◌, refl, arith, ◌==◌, ltb, []}
use many_rvdata.Interrupt.{Clint}
use many_rvdata.Team.{
  Bootdata, Core, init_team, snrt_cluster_core_idx, snrt_cluster_core_num, snrt_cluster_tile_num,
  snrt_cluster_compute_core_num, snrt_cluster_dm_core_num, snrt_cluster_dm_core_idx,
  snrt_is_dm_core, snrt_is_compute_core, snrt_global_core_idx,
}
use many_rvdata.Team.Laws.{core_of, core_numbers}

abbrev boot : Bootdata
boot = record {
  boot_addr = 0x1000;
  core_count = 9;
  hartid_base = 16;
  tcdm_start = 0x100000;
  tcdm_size = 0x20000;
  tcdm_offset = 0;
  global_mem_start = 0x80000000;
  global_mem_end = 0xA0000000;
  tile_count = 3;
}

abbrev core : Core
core = core_of 20 9 0x100000 0 0 boot

core_numbers_example :
    (snrt_cluster_core_idx core + boot.hartid_base ≡ 20)
    × (snrt_cluster_core_idx core < 9)
    × (snrt_global_core_idx core ≡ snrt_cluster_core_idx core)
    × (snrt_is_dm_core core ≡ (snrt_cluster_core_idx core == snrt_cluster_dm_core_idx core))
    × (snrt_is_dm_core core ≡ (snrt_cluster_core_idx core == 9 - 1))
    × (snrt_is_compute_core core ≡ ltb (snrt_cluster_core_idx core) (9 - 1))
    × (snrt_cluster_compute_core_num core + snrt_cluster_dm_core_num core ≡ 9)
core_numbers_example = core_numbers 20 9 0x100000 0 0 boot (omega arith) (omega arith) (omega arith)

whole_tiles : snrt_cluster_core_num core ≡ snrt_cluster_tile_num core * 3
unfolding init_team snrt_cluster_core_num snrt_cluster_tile_num
whole_tiles = refl

in_cluster : snrt_cluster_core_idx core < snrt_cluster_core_num core
unfolding init_team snrt_cluster_core_idx snrt_cluster_core_num
in_cluster = omega arith

abbrev clint : Clint
clint = record { words = λ a. 0; stores = [] }
