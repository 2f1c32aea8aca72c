-- ===== src/PerfCnt/Laws.antt =====
-- One counter at a time, one event at a time.
use many_rvdata.Base.{
  ℕ, ◌≡◌, ◌≢◌, arith, ◌==◌, if◌then◌else◌, max, bit, bit-or, bit-one_shl, zero-bit_or,
}
use many_rvdata.PerfCnt.{
  CntType, type_code, PerfReg, snrt_start_perf_counter, snrt_stop_perf_counter,
  snrt_reset_perf_counter, snrt_get_perf_counter,
}

-- the three registers of a counter
abbrev pub of_counter : ℕ → PerfReg → ℕ × ℕ × ℕ
of_counter c p = (p.enable c, p.hart_select c, p.perf_counter c)

-- A counter that is reset and then started for a hart and a type of event counts from 0, for exactly
-- that hart and that event; stopped, it counts no event and keeps its value; and none of this
-- changes another counter.
pub start-fresh :
    (c other k : ℕ) (type : CntType) (hart_id : ℕ) (p : PerfReg)
    → other ≢ c
    → let q = snrt_start_perf_counter c type hart_id (snrt_reset_perf_counter c p) in
      (bit k (q.enable c) ≡ (if k == type_code type then 1 else 0))
      × (q.hart_select c ≡ hart_id)
      × (snrt_get_perf_counter c q ≡ 0)
      × (of_counter c (snrt_stop_perf_counter c q) ≡ (0, hart_id, q.perf_counter c))
      × (of_counter other (snrt_stop_perf_counter c q) ≡ of_counter other p)
unfolding snrt_start_perf_counter snrt_reset_perf_counter snrt_stop_perf_counter
    snrt_get_perf_counter
start-fresh c other k type hart_id p ne = (
  ground (arith, bit-one_shl k (type_code type)),
  ground (arith, zero-bit_or hart_id),
  ground arith,
  ground (arith, zero-bit_or hart_id),
  ground arith,
)

-- Started for a second hart with no reset between, a counter selects the bits of both hart ids.
pub start-mixes :
    (c k : ℕ) (type type' : CntType) (hart_id hart_id' : ℕ) (p : PerfReg)
    → let q = snrt_start_perf_counter c type hart_id (snrt_reset_perf_counter c p) in
      bit k ((snrt_start_perf_counter c type' hart_id' q).hart_select c)
      ≡ max (bit k hart_id) (bit k hart_id')
unfolding snrt_start_perf_counter snrt_reset_perf_counter
start-mixes c k type type' hart_id hart_id' p =
    ground (arith, zero-bit_or hart_id, bit-or k hart_id hart_id')
