-- ===== src/Dma/Examples.antt =====
-- A transfer across the 4 GiB border, and a wait that ends at the third read.
use many_rvdata.Base.{ℕ, ◌+◌, ◌≤◌, ◌≡◌, refl, arith, ◌==◌, if◌then◌else◌, none, some}
use many_rvdata.Dma.{
  snrt_dma_start_1d_wideptr, snrt_dma_start_2d_wideptr, snrt_dma_wait, snrt_dma_wait_all,
}
use many_rvdata.Dma.Laws.{Engine, Transfer, exec_all, start-Transfer, After, dma_wait-ends}

abbrev engine : Engine
engine = record { src = 1; dst = 2; src_stride = 3; dst_stride = 4; repeat = 5 }

start-Transfer_example :
    (exec_all engine none (snrt_dma_start_1d_wideptr 0x1_0000_0040 0x80000000 256)
      ≡ some (some (Transfer.one_d 0x80000000 0x1_0000_0040 256)))
    × (exec_all engine none (snrt_dma_start_2d_wideptr 0x1_0000_0040 0x80000000 256 512 1024 8)
        ≡ some (some (Transfer.two_d 0x80000000 0x1_0000_0040 256 1024 512 8)))
start-Transfer_example =
    start-Transfer engine 0x1_0000_0040 0x80000000 256 512 1024 8 (omega arith) (omega arith)
      (omega arith) (omega arith) (omega arith) (omega arith)

abbrev completed : ℕ → ℕ
completed r = if r == 2 then 1 else 0xffff_fff0

abbrev busy : ℕ → ℕ
busy r = if r == 2 then 0 else 1

dma_wait-ends_example :
    ((j : ℕ) × (j ≤ 0 + 2)
      × (snrt_dma_wait completed 0xffff_fffe 3 0 ≡ some (j + 1))
      × After 0xffff_fffe (completed j))
    × ((j : ℕ) × (j ≤ 0 + 2) × (snrt_dma_wait_all busy 3 0 ≡ some (j + 1)) × (busy j ≡ 0))
dma_wait-ends_example =
    dma_wait-ends completed busy 0xffff_fffe 3 2 0 (omega arith) (omega arith) (omega arith) refl
      refl
