-- ===== src/Dm/Wait/Aside.antt =====
-- What the step of a core leaves alone while another core holds the mutex.
use many_rvdata.Base.{ℕ, ◌≡◌, refl, arith, ◌==◌, true, false, Bool-cases, inl, inr, some, ltb}
use many_rvdata.Dm.{Stat, dm_task_queue_size}
use many_rvdata.Dm.Wait.{Phase, Op, Sys, is_free, no_request?, goes, begin, core_step}
use many_rvdata.Dm.Wait.Invariant.{critical}

-- A core without the mutex, while another holds it: what its step leaves alone.
pub record Aside (d : ℕ) (s t : Sys) : Type 0 where
  pub request : t.stat_q ≡ s.stat_q
  pub answer : t.stat_pvalid ≡ s.stat_pvalid
  pub mutex : t.mutex ≡ s.mutex
  pub mover : t.mover ≡ s.mover
  pub outside : critical (t.cores d).phase ≡ false
  pub others : (a : ℕ) → (a == d) ≡ false → t.cores a ≡ s.cores a

stays : (d : ℕ) (s : Sys) → critical (s.cores d).phase ≡ false → Aside d s s
stays d s out = record {
  request = refl;
  answer = refl;
  mutex = refl;
  mover = refl;
  outside = out;
  others = λ a ne. refl;
}

moves :
    (d : ℕ) (s : Sys) (irq : ℕ) (p : Phase)
    → critical p ≡ false
    → Aside d s (record (goes s d p) { irq = irq })
moves d s irq p out = record {
  request = refl;
  answer = refl;
  mutex = refl;
  mover = refl;
  outside = let same : (d == d) ≡ true = ground arith in rw same out;
  others = λ a ne. rw ne refl;
}

begin-critical : (op : Op) → critical (begin op) ≡ false
begin-critical Op.memcpy_async = refl
begin-critical Op.dm_start = refl
begin-critical Op.dm_wait = refl
begin-critical Op.dm_wait_ready = refl

pub aside_lem :
    (c d : ℕ) (op : Op) (p : Phase) (s : Sys)
    → s.mutex ≡ some c
    → (s.cores d).phase ≡ p
    → critical p ≡ false
    → Aside d s (core_step d op p s)
unfolding core_step
aside_lem c d op Phase.idle s held e out = moves d s s.irq (begin op) (begin-critical op)
aside_lem c d op Phase.polling s held e out =
    elim (Bool-cases (ltb s.queue_fill dm_task_queue_size)) [
      | inl z ↦ rw z (moves d s s.irq Phase.locking refl)
      | inr z ↦ rw z (moves d s s.irq Phase.polling refl)
    ]
aside_lem c d op Phase.locking s held e out =
    let taken : is_free s.mutex ≡ false = rw held refl in rw taken (stays d s (rw e refl))
aside_lem c d op Phase.starting s held e out = elim (Bool-cases (s.dm_wfi == 0)) [
  | inl z ↦ rw z (stays d s (rw e refl))
  | inr z ↦ rw z (moves d s s.irq Phase.raising_start refl)
]
aside_lem c d op Phase.raising_start s held e out = moves d s 1 Phase.idle refl
aside_lem c d op Phase.waking_first s held e out = elim (Bool-cases (s.dm_wfi == 0)) [
  | inl z ↦ rw z (stays d s (rw e refl))
  | inr z ↦ rw z (moves d s s.irq Phase.raising_first refl)
]
aside_lem c d op Phase.raising_first s held e out = moves d s 1 Phase.draining refl
aside_lem c d op Phase.draining s held e out = elim (Bool-cases (s.queue_fill == 0)) [
  | inl z ↦ rw z (moves d s s.irq Phase.quieting refl)
  | inr z ↦ rw z (stays d s (rw e refl))
]
aside_lem c d op Phase.quieting s held e out = elim (Bool-cases (no_request? s.stat_q)) [
  | inl z ↦ rw z (moves d s s.irq (Phase.acquiring Stat.wait_idle) refl)
  | inr z ↦ rw z (stays d s (rw e refl))
]
aside_lem c d op (Phase.acquiring q) s held e out =
    let taken : is_free s.mutex ≡ false = rw held refl in rw taken (stays d s (rw e refl))
aside_lem c d op Phase.inserting s held e out = absurd (ground arith)
aside_lem c d op Phase.unlocking s held e out = absurd (ground arith)
aside_lem c d op (Phase.resetting q) s held e out = absurd (ground arith)
aside_lem c d op (Phase.requesting q) s held e out = absurd (ground arith)
aside_lem c d op (Phase.waking q) s held e out = absurd (ground arith)
aside_lem c d op (Phase.raising q) s held e out = absurd (ground arith)
aside_lem c d op (Phase.validating q) s held e out = absurd (ground arith)
aside_lem c d op (Phase.returning q) s held e out = absurd (ground arith)
