-- ===== src/PerfCnt.antt =====
-- src/perf_cnt.c and include/perf_cnt.h of the runtime (software/snRuntime): the performance
-- counters, numbered below 16, as the three arrays of their registers.
pub mod Laws
mod Examples
use many_rvdata.Base.{ℕ, ◌==◌, if◌then◌else◌, at, bit_or, one_shl, u32}

-- `enum snrt_perf_cnt_type`
pub data CntType : Type 0 where
  cycles tcdm_accessed tcdm_congested issue_fpu issue_fpu_seq issue_core_to_fpu : CntType
  retired_instr retired_load retired_i retired_acc dma_aw_stall dma_ar_stall dma_r_stall : CntType
  dma_w_stall dma_buf_w_stall dma_buf_r_stall dma_aw_done dma_aw_bw dma_ar_done dma_ar_bw : CntType
  dma_r_done dma_r_bw dma_w_done dma_w_bw dma_b_done dma_busy icache_miss icache_hit : CntType
  icache_prefetch icache_double_hit icache_stall : CntType

abbrev pub type_code : CntType → ℕ
type_code CntType.cycles = 0
type_code CntType.tcdm_accessed = 1
type_code CntType.tcdm_congested = 2
type_code CntType.issue_fpu = 3
type_code CntType.issue_fpu_seq = 4
type_code CntType.issue_core_to_fpu = 5
type_code CntType.retired_instr = 6
type_code CntType.retired_load = 7
type_code CntType.retired_i = 8
type_code CntType.retired_acc = 9
type_code CntType.dma_aw_stall = 10
type_code CntType.dma_ar_stall = 11
type_code CntType.dma_r_stall = 12
type_code CntType.dma_w_stall = 13
type_code CntType.dma_buf_w_stall = 14
type_code CntType.dma_buf_r_stall = 15
type_code CntType.dma_aw_done = 16
type_code CntType.dma_aw_bw = 17
type_code CntType.dma_ar_done = 18
type_code CntType.dma_ar_bw = 19
type_code CntType.dma_r_done = 20
type_code CntType.dma_r_bw = 21
type_code CntType.dma_w_done = 22
type_code CntType.dma_w_bw = 23
type_code CntType.dma_b_done = 24
type_code CntType.dma_busy = 25
type_code CntType.icache_miss = 26
type_code CntType.icache_hit = 27
type_code CntType.icache_prefetch = 28
type_code CntType.icache_double_hit = 29
type_code CntType.icache_stall = 30

-- `perf_reg_t`
pub record PerfReg : Type 0 where
  pub enable : ℕ → ℕ
  pub hart_select : ℕ → ℕ
  pub perf_counter : ℕ → ℕ

unfoldable pub snrt_start_perf_counter :
    (perf_cnt : ℕ) → CntType → (hart_id : ℕ) → PerfReg → PerfReg
snrt_start_perf_counter perf_cnt type hart_id p = record p {
  hart_select = at p.hart_select perf_cnt (bit_or (p.hart_select perf_cnt) hart_id);
  enable = at p.enable perf_cnt (one_shl (type_code type));
}

unfoldable pub snrt_stop_perf_counter : (perf_cnt : ℕ) → PerfReg → PerfReg
snrt_stop_perf_counter perf_cnt p = record p { enable = at p.enable perf_cnt 0 }

unfoldable pub snrt_reset_perf_counter : (perf_cnt : ℕ) → PerfReg → PerfReg
snrt_reset_perf_counter perf_cnt p = record {
  enable = at p.enable perf_cnt 0;
  hart_select = at p.hart_select perf_cnt 0;
  perf_counter = at p.perf_counter perf_cnt 0;
}

unfoldable pub snrt_get_perf_counter : (perf_cnt : ℕ) → PerfReg → ℕ
snrt_get_perf_counter perf_cnt p = u32 (p.perf_counter perf_cnt)
