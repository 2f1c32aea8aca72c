-- ===== src/Eu/Parked.antt =====
-- What the cores wait for, and that not all workers sleep while core 0 waits for them to.
use many_rvdata.Base.{
  ℕ, ◌≤◌, ◌<◌, ◌≡◌, ◌≢◌, ◌⊎◌, inl, inr, arith, tally, tally_short, tally_most, ℕ_discrete, tally_le,
}
use many_rvdata.Eu.{Phase, Worker, Master, Sys}
use many_rvdata.Eu.Invariant.{asleep, joined}
use many_rvdata.Eu.Workers.{joined_most, asleep_most}

-- what a worker waits for has come
abbrev pub MovesAt : ℕ → Phase → Type 0
MovesAt pending Phase.sleeping = pending ≢ 0
MovesAt pending _ = Unit {0}

-- what core 0 waits for has come
abbrev pub MasterMoves : (n : ℕ) → Sys → Master → Type 0
MasterMoves n s Master.booting = s.workers_wfi ≡ n
MasterMoves n s (Master.pushing k) = s.workers_wfi ≡ s.workers_in_loop
MasterMoves n s (Master.waking k) = s.workers_wfi ≡ s.workers_in_loop
MasterMoves n s (Master.collecting k) = s.fini_count ≡ s.workers_in_loop
MasterMoves n s _ = Unit {0}

pub awake-Moves : (w : Worker) → asleep w ≡ 0 → MovesAt w.pending w.phase
awake-Moves w e = by_phase w.phase e
  where
    by_phase :
        (p : Phase)
        → asleep (record { phase = p; pending = w.pending; ran = w.ran; meant = w.meant }) ≡ 0
        → MovesAt w.pending p
    by_phase Phase.sleeping e = absurd (omega arith)
    by_phase _ e = tt

asleep-joined : (w : Worker) → asleep w ≤ joined w
asleep-joined w = ground arith

-- some worker is not stuck
abbrev pub Someone : ℕ → Sys → Type 0
Someone n s = (i : ℕ) × (i < n) × MovesAt (s.workers i).pending (s.workers i).phase

module _ {n : ℕ} (s : Sys) (in_loop : s.workers_in_loop ≡ tally joined n s.workers)
    (in_wfi : s.workers_wfi ≡ tally asleep n s.workers) where
  awake-Someone : tally asleep n s.workers < n → Someone n s
  awake-Someone few =
      let (i, lt, e) = tally_short asleep n s.workers asleep_most few in
      (i, lt, awake-Moves (s.workers i) e)

  pub all_parked : (s.workers_wfi ≡ s.workers_in_loop) ⊎ Someone n s
  all_parked = elim (ℕ_discrete s.workers_wfi s.workers_in_loop) [
    | yes e ↦ inl e
    | no ne ↦ inr (
        awake-Someone (
          let some_joined = tally_most joined n s.workers joined_most in
          let order = tally_le asleep joined n s.workers asleep-joined in
          omega (arith, in_loop, in_wfi, some_joined, order)))
  ]

  pub all_booted : (s.workers_wfi ≡ n) ⊎ Someone n s
  all_booted = elim (ℕ_discrete s.workers_wfi n) [
    | yes e ↦ inl e
    | no ne ↦ inr (awake-Someone (omega (arith, in_wfi, tally_most asleep n s.workers asleep_most)))
  ]
