-- ===== src/Interrupt/Service.antt =====
-- What `__snrt_isr` and the enable and disable calls do.
use many_rvdata.Base.{
  ℕ, ◌+◌, ◌%◌, ◌^◌, ◌<◌, ◌≡◌, refl, ◌==◌, arith, if◌then◌else◌, ◌∷◌, Option, some, none, bit,
  bit_most, one_shl, not32, bit-or, bit-and, bit-not32, bit-one_shl, at,
}
use many_rvdata.Interrupt.{
  Clint, Csrs, mcause_interrupt, irq_m_soft, irq_m_timer, irq_m_ext, irq_m_cluster,
  snrt_interrupt_enable, snrt_interrupt_disable, snrt_interrupt_cause,
}
use many_rvdata.Interrupt.Bits.{one_shl-lt, pending, others_keep}

-- What brings a core to `__snrt_isr`, and the value of `mcause` for it.
pub data Cause : Type 0 where
  exception : (code : ℕ) → Cause
  soft timer external cluster : Cause

abbrev pub mcause_of : Cause → ℕ
mcause_of (Cause.exception code) = code % 2 ^ 31
mcause_of Cause.soft = mcause_interrupt + irq_m_soft
mcause_of Cause.timer = mcause_interrupt + irq_m_timer
mcause_of Cause.external = mcause_interrupt + irq_m_ext
mcause_of Cause.cluster = mcause_interrupt + irq_m_cluster

-- What the service leaves: a software interrupt clears one hart's bit in the words, a cluster
-- interrupt stores the core's mask over word 2; an exception halts.
abbrev pub Serves : Cause → (core_idx cluster_core_idx : ℕ) → Clint → Option Clint → Type 0
Serves (Cause.exception code) core_idx cluster_core_idx c out = out ≡ none
Serves Cause.soft core_idx cluster_core_idx c out =
    (c' : Clint) × (out ≡ some c')
    × (c'.stores ≡ c.stores)
    × ((h : ℕ) → pending h c' ≡ others_keep core_idx 0 h c)
Serves Cause.timer core_idx cluster_core_idx c out = out ≡ some c
Serves Cause.external core_idx cluster_core_idx c out = out ≡ some c
Serves Cause.cluster core_idx cluster_core_idx c out =
    (c' : Clint) × (out ≡ some c')
    × (c'.words ≡ at c.words 2 (one_shl cluster_core_idx))
    × (c'.stores ≡ (2, one_shl cluster_core_idx) ∷ c.stores)

-- For the sources below 32: enabling one sets its bit of `mie`, disabling it clears the bit, and
-- both leave every other source, the global enable and the cause as they were.
pub enable-disable_bits :
    (irq k : ℕ) (r : Csrs)
    → irq < 32
    → k < 32
    → (bit k (snrt_interrupt_enable irq r).mie ≡ (if k == irq then 1 else bit k r.mie))
      × (bit k (snrt_interrupt_disable irq r).mie ≡ (if k == irq then 0 else bit k r.mie))
      × ((snrt_interrupt_enable irq r).mstatus ≡ r.mstatus)
      × ((snrt_interrupt_disable irq r).mstatus ≡ r.mstatus)
      × (snrt_interrupt_cause (snrt_interrupt_enable irq r) ≡ snrt_interrupt_cause r)
unfolding snrt_interrupt_enable snrt_interrupt_disable snrt_interrupt_cause
enable-disable_bits irq k r lt below = (
  ground (arith, bit-or k r.mie (one_shl irq), bit-one_shl k irq, bit_most k r.mie),
  ground (
    arith,
    bit-and k r.mie (not32 (one_shl irq)),
    bit-not32 k (one_shl irq) below (one_shl-lt 32 irq lt),
    bit-one_shl k irq,
    bit_most k r.mie,
  ),
  refl,
  refl,
  refl,
)
