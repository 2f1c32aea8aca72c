-- ===== src/Dma/Laws.antt =====
-- What the issued instructions make an engine do that knows them by their codes.
use many_rvdata.Base.{
  ℕ, zero, suc, ◌+◌, ◌*◌, ◌/◌, ◌%◌, ◌^◌, ◌≤◌, ◌<◌, ◌≡◌, refl, ◌==◌, leb, arith, Bool, false, ◌||◌,
  if◌then◌else◌, ℕ_discrete, Bool-cases, inl, inr, List, [], ◌∷◌, Option, none, some, sub32,
  bit_and, subst,
}
use many_rvdata.Dma.{
  Issued, snrt_dma_start_1d_wideptr, snrt_dma_start_2d_wideptr, snrt_dma_wait, snrt_dma_wait_all,
}

-- What the engine holds between instructions.
pub record Engine : Type 0 where
  pub src : ℕ
  pub dst : ℕ
  pub src_stride : ℕ
  pub dst_stride : ℕ
  pub repeat : ℕ

pub data Transfer : Type 0 where
  one_d : (src dst size : ℕ) → Transfer
  two_d : (src dst size src_stride dst_stride repeat : ℕ) → Transfer

-- `MATCH_` and `MASK_` of encoding.h
abbrev pub matches : (word mask code : ℕ) → Bool
matches word mask code = bit_and word mask == code

abbrev pub pointer : Issued → ℕ
pointer i = i.rs2 * 2 ^ 32 + i.rs1

-- One instruction: a copy starts a transfer, in two dimensions where bit 1 of its immediate is set;
-- `none` for a code that is none of these.
abbrev pub exec : Engine → Issued → Option (Engine × Option Transfer)
exec e i =
    if matches i.word 0xfe007fff 0x2b
    then some (record e { src = pointer i }, none)
    else if matches i.word 0xfe007fff 0x200002b
    then some (record e { dst = pointer i }, none)
    else if matches i.word 0xfe007fff 0xc00002b
    then some (record e { src_stride = i.rs1; dst_stride = i.rs2 }, none)
    else if matches i.word 0xfff07fff 0xe00002b
    then some (record e { repeat = i.rs1 }, none)
    else if matches i.word 0xfe00707f 0x400002b
    then some (
      e,
      some (
          if i.word / 2 ^ 21 % 2 == 0
          then Transfer.one_d e.src e.dst i.rs1
          else Transfer.two_d e.src e.dst i.rs1 e.src_stride e.dst_stride e.repeat),
    )
    else none

-- the last transfer that a sequence starts
abbrev pub exec_all : Engine → Option Transfer → List Issued → Option (Option Transfer)
exec_all e t [] = some t
exec_all e t (i ∷ is) = elim (exec e i) [ none ↦ none | some r ↦ exec_all r.0 r.1 is ]

-- On an engine in any state, for 64-bit addresses and 32-bit sizes, strides and counts: the
-- instructions of `snrt_dma_start_1d_wideptr` are all known to the engine and start the transfer of
-- that source, target and size, and those of `snrt_dma_start_2d_wideptr` the one with these strides
-- and that count as well.
pub start-Transfer :
    (e : Engine) (dst src size dst_stride src_stride repeat : ℕ)
    → dst < 2 ^ 64
    → src < 2 ^ 64
    → size < 2 ^ 32
    → dst_stride < 2 ^ 32
    → src_stride < 2 ^ 32
    → repeat < 2 ^ 32
    → (exec_all e none (snrt_dma_start_1d_wideptr dst src size)
        ≡ some (some (Transfer.one_d src dst size)))
      × (exec_all e none (snrt_dma_start_2d_wideptr dst src size dst_stride src_stride repeat)
          ≡ some (some (Transfer.two_d src dst size src_stride dst_stride repeat)))
unfolding snrt_dma_start_1d_wideptr snrt_dma_start_2d_wideptr
start-Transfer e dst src size dst_stride src_stride repeat d s z ds ss rp =
    (ground arith, ground arith)

-- `id` comes after `tid` in the order of 32-bit words that wrap.
abbrev pub After : (tid id : ℕ) → Type 0
After tid id = (0 < sub32 id tid) × (sub32 id tid < 2 ^ 31)

after_test :
    (tid id : ℕ) → (((sub32 id tid == 0) || leb (2 ^ 31) (sub32 id tid)) ≡ false) → After tid id
after_test tid id h = ground arith

module _ (completed : ℕ → ℕ) (tid d : ℕ) (word : tid < 2 ^ 32) (pos : 0 < d)
    (few : d < 2 ^ 31) where
  waits :
      (k r : ℕ)
      → completed (r + k) ≡ (tid + d) % 2 ^ 32
      → (j : ℕ) × (j ≤ r + k)
        × (snrt_dma_wait completed tid (suc k) r ≡ some (j + 1))
        × After tid (completed j)
  unfolding snrt_dma_wait
  waits zero r comes =
      let same : r + 0 ≡ r = omega arith in
      let here : completed r ≡ (tid + d) % 2 ^ 32 =
        subst (λ j. completed j ≡ (tid + d) % 2 ^ 32) same comes in
      let ends : (sub32 (completed r) tid == 0 || leb (2 ^ 31) (sub32 (completed r) tid)) ≡ false =
        ground arith in
      (r, omega arith, rw ends refl, after_test tid (completed r) ends)
  waits (suc k) r comes =
      elim (Bool-cases (sub32 (completed r) tid == 0 || leb (2 ^ 31) (sub32 (completed r) tid))) [
        | inr ends ↦ (r, omega arith, rw ends refl, after_test tid (completed r) ends)
        | inl goes_on ↦
            let next : r + suc k ≡ r + 1 + k = omega arith in
            let (j, le, result, after) =
              waits k (r + 1) (subst (λ j. completed j ≡ (tid + d) % 2 ^ 32) next comes) in
            (j, omega arith, rw goes_on result, after)
      ]

waits_all :
    (busy : ℕ → ℕ) (k r : ℕ)
    → busy (r + k) ≡ 0
    → (j : ℕ) × (j ≤ r + k) × (snrt_dma_wait_all busy (suc k) r ≡ some (j + 1)) × (busy j ≡ 0)
unfolding snrt_dma_wait_all
waits_all busy zero r idle =
    let same : r + 0 ≡ r = omega arith in
    let here : busy r ≡ 0 = subst (λ j. busy j ≡ 0) same idle in
    (r, omega arith, rw here refl, here)
waits_all busy (suc k) r idle = elim (ℕ_discrete (busy r) 0) [
  | yes e ↦ (r, omega arith, rw e refl, e)
  | no ne ↦
      let next : r + suc k ≡ r + 1 + k = omega arith in
      let goes_on : (busy r == 0) ≡ false = ground arith in
      let (j, le, result, idle') = waits_all busy k (r + 1) (subst (λ j. busy j ≡ 0) next idle) in
      (j, omega arith, rw goes_on result, idle')
]

-- When the status read number `r + k` answers an id that comes at least one and fewer than 2 ^ 31
-- after `tid`, wrapping, `snrt_dma_wait` for `tid` ends after at most `k + 1` reads, and what it read
-- last comes after `tid`. `snrt_dma_wait_all` ends in the same way where that read answers 0, and it
-- has read 0 last.
pub dma_wait-ends :
    (completed busy : ℕ → ℕ) (tid d k r : ℕ)
    → tid < 2 ^ 32
    → 0 < d
    → d < 2 ^ 31
    → completed (r + k) ≡ (tid + d) % 2 ^ 32
    → busy (r + k) ≡ 0
    → ((j : ℕ) × (j ≤ r + k)
        × (snrt_dma_wait completed tid (suc k) r ≡ some (j + 1))
        × After tid (completed j))
      × ((j : ℕ) × (j ≤ r + k) × (snrt_dma_wait_all busy (suc k) r ≡ some (j + 1)) × (busy j ≡ 0))
dma_wait-ends completed busy tid d k r word pos few comes idle =
    (waits completed tid d word pos few k r comes, waits_all busy k r idle)
