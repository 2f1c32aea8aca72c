-- ===== src/Dma.antt =====
-- src/dma.c of the runtime (software/snRuntime): each call puts its arguments into registers and
-- issues a few instructions, written as words in the source. `issued` is such a word with the values
-- of the registers that its fields name. The engine's answers are arguments. Pointers and sizes are
-- 32-bit words, `wideptr` addresses 64-bit words.
pub mod Laws
mod Examples
use many_rvdata.Base.{
  ℕ, zero, suc, ◌+◌, ◌*◌, ◌/◌, ◌%◌, ◌^◌, ◌==◌, leb, ◌||◌, if◌then◌else◌, List, [], ◌∷◌, Option,
  none, some, at, u32, sub32, bit_or,
}

-- `(funct7 << 25) | (rs2 << 20) | (rs1 << 15) | (funct3 << 12) | (rd << 7) | (opcode << 0)`
abbrev pub encode : (funct7 rs2 rs1 funct3 rd opcode : ℕ) → ℕ
encode funct7 rs2 rs1 funct3 rd opcode = bit_or (funct7 * 2 ^ 25) (
    bit_or (rs2 * 2 ^ 20)
      (bit_or (rs1 * 2 ^ 15) (bit_or (funct3 * 2 ^ 12) (bit_or (rd * 2 ^ 7) opcode))))

abbrev pub opcode : ℕ
opcode = 0x2b

pub record Issued : Type 0 where
  pub word : ℕ
  pub rs1 : ℕ
  pub rs2 : ℕ

-- an instruction with the registers' values; `x0` is 0
abbrev pub issue : (word : ℕ) → (ℕ → ℕ) → Issued
issue word regs = record {
  word = word;
  rs1 = regs (word / 2 ^ 15 % 32);
  rs2 = regs (word / 2 ^ 20 % 32);
}

abbrev pub low : ℕ → ℕ
low x = u32 x

abbrev pub high : ℕ → ℕ
high x = u32 (x / 2 ^ 32)

-- `a0` to `a4` with the addresses and the size
abbrev pub regs_1d : (dst src size : ℕ) → (ℕ → ℕ)
regs_1d dst src size =
    at (at (at (at (at (λ r. 0) 10 (low dst)) 11 (high dst)) 12 (low src)) 13 (high src)) 14
      (u32 size)

unfoldable pub snrt_dma_start_1d_wideptr : (dst src size : ℕ) → List Issued
snrt_dma_start_1d_wideptr dst src size =
    issue (encode 0 13 12 0 0 opcode) (regs_1d dst src size)
    ∷ issue (encode 1 11 10 0 0 opcode) (regs_1d dst src size)
    ∷ issue (encode 2 0 14 0 10 opcode) (regs_1d dst src size)
    ∷ []

unfoldable pub snrt_dma_start_1d : (dst src size : ℕ) → List Issued
unfolding snrt_dma_start_1d_wideptr
snrt_dma_start_1d dst src size = snrt_dma_start_1d_wideptr (u32 dst) (u32 src) size

-- `a5` to `a7` as well
abbrev pub regs_2d : (dst src size dst_stride src_stride repeat : ℕ) → (ℕ → ℕ)
regs_2d dst src size dst_stride src_stride repeat =
    at (at (at (regs_1d dst src size) 15 (u32 dst_stride)) 16 (u32 src_stride)) 17 (u32 repeat)

unfoldable pub snrt_dma_start_2d_wideptr :
    (dst src size dst_stride src_stride repeat : ℕ) → List Issued
snrt_dma_start_2d_wideptr dst src size dst_stride src_stride repeat =
    let regs = regs_2d dst src size dst_stride src_stride repeat in
    issue (encode 0 13 12 0 0 opcode) regs
    ∷ issue (encode 1 11 10 0 0 opcode) regs
    ∷ issue (encode 6 15 16 0 0 opcode) regs
    ∷ issue (encode 7 0 17 0 0 opcode) regs
    ∷ issue (encode 2 2 14 0 10 opcode) regs
    ∷ []

unfoldable pub snrt_dma_start_2d : (dst src size dst_stride src_stride repeat : ℕ) → List Issued
unfolding snrt_dma_start_2d_wideptr
snrt_dma_start_2d dst src size dst_stride src_stride repeat =
    snrt_dma_start_2d_wideptr (u32 dst) (u32 src) size dst_stride src_stride repeat

-- The loop of `snrt_dma_wait`, with `completed r` the answer to the status read number `r`: the
-- number of reads, or `none` when `fuel` reads do not end it. `blez` jumps back where the difference
-- is not positive as a signed word.
unfoldable pub snrt_dma_wait : (completed : ℕ → ℕ) (tid : ℕ) (fuel r : ℕ) → Option ℕ
snrt_dma_wait completed tid zero r = none
snrt_dma_wait completed tid (suc fuel) r =
    let t0 = sub32 (completed r) tid in
    let rest = snrt_dma_wait completed tid fuel (r + 1) in
    if t0 == 0 || leb (2 ^ 31) t0 then rest else some (r + 1)

-- the same for `snrt_dma_wait_all`, with `busy r` the answer
unfoldable pub snrt_dma_wait_all : (busy : ℕ → ℕ) (fuel r : ℕ) → Option ℕ
snrt_dma_wait_all busy zero r = none
snrt_dma_wait_all busy (suc fuel) r =
    let rest = snrt_dma_wait_all busy fuel (r + 1) in if busy r == 0 then some (r + 1) else rest
