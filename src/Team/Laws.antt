-- ===== src/Team/Laws.antt =====
-- The numbers of the cores and tiles, and what stands where in the cluster's memory.
use many_rvdata.Base.{
  ℕ, ◌+◌, ◌-◌, ◌*◌, ◌/◌, ◌%◌, ◌^◌, ◌≤◌, ◌<◌, ◌≡◌, ◌≢◌, ◌∙◌, ◌==◌, arith, false, ltb, add32, sub32,
  u32, add64, [], ◌∷◌, map,
}
use native.Mathlib.Nat.{
  mul-div_cancel_left, div-mul-le_self, lt-div-mul-add, div-lt_iff_lt-mul, mod-eq_of_lt,
}
use many_rvdata.Alloc.Laws.{IsAllocator, alloc_init-IsAllocator}
use many_rvdata.Interrupt.{Clint, snrt_int_cluster_set, snrt_int_cluster_clr}
use many_rvdata.Team.{
  Bootdata, Core, init_team, snrt_cluster_core_idx, snrt_cluster_core_num, snrt_cluster_tile_num,
  snrt_cluster_tile_idx, snrt_cluster_compute_core_num, snrt_cluster_dm_core_num,
  snrt_cluster_dm_core_idx, snrt_is_dm_core, snrt_is_compute_core, snrt_global_core_idx,
  snrt_cluster_memory, barrier_reg_ptr, cl_clint_clear_offset, cl_clint_set_offset,
  hw_barrier_offset, participation_mask_offset, barrier_participation_mask_reg_ptr,
}

-- The start-up of the hart `hartid` in a cluster of `n` cores.
abbrev pub core_of : (hartid n spm_start edram perf_counters : ℕ) → Bootdata → Core
core_of hartid n spm_start edram perf_counters boot =
    (init_team hartid n spm_start edram perf_counters boot (λ h. 0)).0

module _ (hartid n spm_start edram perf_counters : ℕ) (boot : Bootdata)
    (from : boot.hartid_base ≤ hartid) (to : hartid < boot.hartid_base + n)
    (fits : boot.hartid_base + n ≤ 2 ^ 32) where
  offset_lem : sub32 hartid boot.hartid_base % n ≡ hartid - boot.hartid_base
  offset_lem =
      let offset : sub32 hartid boot.hartid_base ≡ hartid - boot.hartid_base = omega arith in
      let small : hartid - boot.hartid_base < n = omega arith in rw offset (mod-eq_of_lt small)

  -- For every hart of a cluster of `n` cores whose hart ids are of 32 bits: its index counts from the
  -- cluster's first hart and is below `n`, so that no two harts have the same; it is the data mover
  -- exactly when its index is the data mover's, and exactly when its index is the last one, `n - 1`;
  -- it is a compute core exactly when its index is below that; and the compute cores and the one data
  -- mover are all the cores.
  pub core_numbers :
      let c = core_of hartid n spm_start edram perf_counters boot in
      (snrt_cluster_core_idx c + boot.hartid_base ≡ hartid)
      × (snrt_cluster_core_idx c < n)
      × (snrt_global_core_idx c ≡ snrt_cluster_core_idx c)
      × (snrt_is_dm_core c ≡ (snrt_cluster_core_idx c == snrt_cluster_dm_core_idx c))
      × (snrt_is_dm_core c ≡ (snrt_cluster_core_idx c == n - 1))
      × (snrt_is_compute_core c ≡ ltb (snrt_cluster_core_idx c) (n - 1))
      × (snrt_cluster_compute_core_num c + snrt_cluster_dm_core_num c ≡ n)
  unfolding init_team snrt_cluster_core_idx snrt_global_core_idx snrt_is_dm_core
      snrt_is_compute_core snrt_cluster_core_num snrt_cluster_dm_core_idx
      snrt_cluster_compute_core_num snrt_cluster_dm_core_num
  core_numbers = (
    omega (arith, offset_lem),
    omega (arith, offset_lem),
    omega (arith, offset_lem),
    ground (arith, offset_lem),
    ground (arith, offset_lem),
    ground (arith, offset_lem),
    omega arith,
  )

tile_num-pos : (c : Core) → 0 < snrt_cluster_tile_num c
unfolding snrt_cluster_tile_num
tile_num-pos c = ground arith

-- For every core of a cluster whose cores are `cpt` to each tile: its tile is one of the cluster's,
-- and its index is one of the `cpt` indices of that tile.
pub tile_numbers :
    (c : Core) (cpt : ℕ)
    → 0 < cpt
    → snrt_cluster_core_num c ≡ snrt_cluster_tile_num c * cpt
    → snrt_cluster_core_idx c < snrt_cluster_core_num c
    → (snrt_cluster_tile_idx c < snrt_cluster_tile_num c)
      × (snrt_cluster_tile_idx c * cpt ≤ snrt_cluster_core_idx c)
      × (snrt_cluster_core_idx c < snrt_cluster_tile_idx c * cpt + cpt)
unfolding snrt_cluster_tile_idx
tile_numbers c cpt pos whole below =
    let tiles_pos : 0 < snrt_cluster_tile_num c = tile_num-pos c in
    let each : snrt_cluster_core_num c / snrt_cluster_tile_num c ≡ cpt =
      rw whole (mul-div_cancel_left cpt tiles_pos) in
    let some_core : (cpt == 0) ≡ false = ground arith in
    rw each (
      rw some_core (
        (div-lt_iff_lt-mul pos).1 (omega (arith, whole)),
        div-mul-le_self (snrt_cluster_core_idx c) cpt,
        lt-div-mul-add pos,
      ))

-- For memory that is aligned and leaves room for the peripheral's registers below 2 ^ 32: after
-- start-up the L1 allocator is well formed and has exactly the cluster's memory to give out, and the
-- barrier's registers and the set register for interrupts stand right behind that memory.
pub memory_places :
    (hartid n spm_start edram perf_counters : ℕ) (boot : Bootdata)
    → spm_start % 8 ≡ 0
    → 0 < spm_start
    → spm_start + boot.tcdm_size + 0x54 < 2 ^ 32
    → let c = core_of hartid n spm_start edram perf_counters boot in
      IsAllocator c.root.l1
      × (c.root.l1.next ≡ (snrt_cluster_memory c).start)
      × (c.root.l1.base + c.root.l1.size ≡ (snrt_cluster_memory c).end)
      × (barrier_reg_ptr c ≡ (snrt_cluster_memory c).end + hw_barrier_offset)
      × (barrier_participation_mask_reg_ptr c
          ≡ (snrt_cluster_memory c).end + participation_mask_offset)
      × (c.clint_p ≡ (snrt_cluster_memory c).end + cl_clint_set_offset)
unfolding init_team snrt_cluster_memory barrier_reg_ptr barrier_participation_mask_reg_ptr
memory_places hartid n spm_start edram perf_counters boot even pos room =
    let start : u32 spm_start ≡ spm_start = omega arith in
    let end : u32 (add64 spm_start boot.tcdm_size) ≡ spm_start + boot.tcdm_size = omega arith in
    let (is, next, top, others) =
      alloc_init-IsAllocator spm_start (spm_start + boot.tcdm_size) edram 1096 even pos
        (omega arith) (omega arith) in
    rw start (rw end (is, next, top ∙ omega arith, omega arith, omega arith, omega arith))

-- the address that a store to the cluster's peripheral goes to
abbrev pub store_address : Core → ℕ × ℕ → ℕ
store_address c (offset, value) = add32 c.clint_p (4 * offset)

-- After every start-up, the store that sets a cluster interrupt goes to the set register behind the
-- cluster's memory, and the store that clears one goes to the register of the hardware barrier and
-- not to the clear register.
pub clear_misses :
    (hartid n spm_start edram perf_counters mask : ℕ) (boot : Bootdata) (d : Clint)
    → spm_start + boot.tcdm_size + 0x54 < 2 ^ 32
    → let c = core_of hartid n spm_start edram perf_counters boot in
      (map
          (store_address c)
          (snrt_int_cluster_clr mask (snrt_int_cluster_set mask (record d { stores = [] }))).stores
        ≡ barrier_reg_ptr c ∷ ((snrt_cluster_memory c).end + cl_clint_set_offset) ∷ [])
      × (barrier_reg_ptr c ≢ (snrt_cluster_memory c).end + cl_clint_clear_offset)
unfolding init_team snrt_cluster_memory barrier_reg_ptr snrt_int_cluster_set snrt_int_cluster_clr
clear_misses hartid n spm_start edram perf_counters mask boot d room = (ground arith, omega arith)
