-- ===== src/PerfCnt/Examples.antt =====
-- Counter 2 for hart 5, then for hart 3 as well.
use many_rvdata.PerfCnt.{CntType, PerfReg, snrt_start_perf_counter, snrt_reset_perf_counter}

abbrev used : PerfReg
used = record { enable = λ c. 1; hart_select = λ c. c; perf_counter = λ c. 100 }

abbrev started : PerfReg
started = snrt_start_perf_counter 2 CntType.dma_busy 5 (snrt_reset_perf_counter 2 used)
