-- ===== src/Interrupt.antt =====
-- src/interrupt.c and the interrupt part of include/snrt.h of the runtime (software/snRuntime).
-- The words behind `clint_p` hold one bit for each hart, 32 to a word, and are read, changed and
-- written under `clint_mutex`: such a section is one function here. Setting and clearing interrupts in
-- the cluster's peripheral are stores to words 0 and 2 behind the same pointer; they are recorded too,
-- since a store to a register acts on the peripheral. The masks
-- and the numbers of the interrupt sources are those of encoding.h.
pub mod Bits
pub mod Poll
pub mod Service
mod Examples
use many_rvdata.Base.{
  ℕ, zero, suc, ◌+◌, ◌^◌, ◌==◌, Bool, true, false, if◌then◌else◌, Option, none, some, at, bit_or,
  bit_and, List, ◌∷◌, one_shl, shr, not32, sub32,
}

pub record Clint : Type 0 where
  -- the words behind `clint_p`
  pub words : ℕ → ℕ
  -- the stores to the cluster's peripheral, as word offset from `clint_p` and value, latest first
  pub stores : List (ℕ × ℕ)

-- `(hartid & ~0x1f) >> 5` and `hartid & 0x1f`
unfoldable pub word_of : ℕ → ℕ
word_of hartid = shr (bit_and hartid (not32 0x1f)) 5

unfoldable pub place_of : ℕ → ℕ
place_of hartid = bit_and hartid 0x1f

unfoldable pub snrt_int_sw_clear : (hartid : ℕ) → Clint → Clint
snrt_int_sw_clear hartid c = record c {
  words =
      at c.words (word_of hartid)
        (bit_and (c.words (word_of hartid)) (not32 (one_shl (place_of hartid))));
}

unfoldable pub snrt_int_sw_set : (hartid : ℕ) → Clint → Clint
snrt_int_sw_set hartid c = record c {
  words =
      at c.words (word_of hartid) (bit_or (c.words (word_of hartid)) (one_shl (place_of hartid)));
}

unfoldable pub snrt_int_sw_get : (hartid : ℕ) → Clint → ℕ
snrt_int_sw_get hartid c = shr (c.words (word_of hartid)) (place_of hartid)

unfoldable pub snrt_int_clint_set : (reg_off mask : ℕ) → Clint → Clint
snrt_int_clint_set reg_off mask c = record c {
  words = at c.words reg_off (bit_or (c.words reg_off) mask);
}

-- One round of `snrt_int_sw_poll` after its `wfi`: whether the loop ends, and the words.
unfoldable pub sw_poll_round : (hartid : ℕ) → Clint → Bool × Clint
unfolding snrt_int_sw_get snrt_int_sw_clear
sw_poll_round hartid c =
    if snrt_int_sw_get hartid c == 0 then (false, c) else (true, snrt_int_sw_clear hartid c)

-- The loop, with what the other cores make of the words before round `r`; `none` when `fuel` rounds
-- do not end it.
unfoldable pub sw_poll : (others : ℕ → Clint → Clint) → (fuel r hartid : ℕ) → Clint → Option Clint
unfolding sw_poll_round
sw_poll others zero r hartid c = none
sw_poll others (suc fuel) r hartid c =
    let (exit, c') = sw_poll_round hartid (others r c) in
    elim exit [ true ↦ some c' | false ↦ sw_poll others fuel (r + 1) hartid c' ]

unfoldable pub snrt_int_cluster_clr : (mask : ℕ) → Clint → Clint
snrt_int_cluster_clr mask c = record c { words = at c.words 2 mask; stores = (2, mask) ∷ c.stores }

unfoldable pub snrt_int_cluster_set : (mask : ℕ) → Clint → Clint
snrt_int_cluster_set mask c = record c { words = at c.words 0 mask; stores = (0, mask) ∷ c.stores }

-- the core's own control registers
pub record Csrs : Type 0 where
  pub mstatus : ℕ
  pub mie : ℕ
  pub mcause : ℕ

abbrev pub mstatus_mie : ℕ
mstatus_mie = 0x8

abbrev pub mcause_interrupt : ℕ
mcause_interrupt = 2 ^ 31

unfoldable pub snrt_interrupt_global_enable : Csrs → Csrs
snrt_interrupt_global_enable r = record r { mstatus = bit_or r.mstatus mstatus_mie }

unfoldable pub snrt_interrupt_global_disable : Csrs → Csrs
snrt_interrupt_global_disable r = record r { mstatus = bit_and r.mstatus (not32 mstatus_mie) }

unfoldable pub snrt_interrupt_enable : (irq : ℕ) → Csrs → Csrs
snrt_interrupt_enable irq r = record r { mie = bit_or r.mie (one_shl irq) }

unfoldable pub snrt_interrupt_disable : (irq : ℕ) → Csrs → Csrs
snrt_interrupt_disable irq r = record r { mie = bit_and r.mie (not32 (one_shl irq)) }

unfoldable pub snrt_interrupt_cause : Csrs → ℕ
snrt_interrupt_cause r = bit_and r.mcause (not32 mcause_interrupt)

-- the sources of encoding.h
abbrev pub irq_m_soft : ℕ
irq_m_soft = 3

abbrev pub irq_m_timer : ℕ
irq_m_timer = 7

abbrev pub irq_m_ext : ℕ
irq_m_ext = 11

abbrev pub irq_m_cluster : ℕ
irq_m_cluster = 19

-- The weak handlers: of the sources, the software and the cluster interrupt are cleared.
unfoldable pub handle_soft : (core_idx : ℕ) → Clint → Clint
unfolding snrt_int_sw_clear
handle_soft core_idx c = snrt_int_sw_clear core_idx c

unfoldable pub handle_cluster : (cluster_core_idx : ℕ) → Clint → Clint
unfolding snrt_int_cluster_clr
handle_cluster cluster_core_idx c = snrt_int_cluster_clr (one_shl cluster_core_idx) c

-- `snrt_global_core_idx` of team.c
abbrev pub global_core_idx : (hartid base : ℕ) → ℕ
global_core_idx hartid base = sub32 hartid base

-- `__snrt_isr` on a core: `none` when it halts, which it does on an exception
unfoldable pub snrt_isr : (hartid base cluster_core_idx : ℕ) → Csrs → Clint → Option Clint
unfolding handle_soft handle_cluster
snrt_isr hartid base cluster_core_idx r c =
    let core_idx = global_core_idx hartid base in
    let source = bit_and r.mcause (not32 mcause_interrupt) in
    if bit_and r.mcause mcause_interrupt == 0
    then none
    else if source == irq_m_soft
    then some (handle_soft core_idx c)
    else if source == irq_m_timer
    then some c
    else if source == irq_m_ext
    then some c
    else if source == irq_m_cluster
    then some (handle_cluster cluster_core_idx c)
    else some c
