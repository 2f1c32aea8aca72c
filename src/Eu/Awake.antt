-- ===== src/Eu/Awake.antt =====
-- The event unit where the store of `snrt_int_cluster_clr` misses the interrupt: once core 0 has woken
-- the workers, none of them stays in `wfi` any more, and a worker runs its task again and again.
use many_rvdata.Base.{
  ℕ, ◌+◌, ◌^◌, ◌<◌, ◌≡◌, ◌≢◌, ◌⊎◌, inl, inr, refl, sym, ◌∙◌, arith, ◌==◌, ltb, at, add32, sub32,
  tally, tally-at, tally_member, tally_most, tally_zero, tally_same, Bool-cases, ℕ_discrete,
}
use many_rvdata.Eu.{
  ClrStore, Phase, Worker, Master, Sys, becomes, in_team, worker_step, master_step, Step, Reach,
  start,
}
use many_rvdata.Eu.Invariant.{asleep, joined}
use many_rvdata.Eu.Workers.{joined_most, asleep_most}
use many_rvdata.Eu.Parked.{MovesAt, MasterMoves, Someone, all_parked, all_booted}

-- core 0 has woken the workers for a region and waits for them
abbrev Late : Master → Type 0
Late (Master.working k) = 1 < k
Late (Master.collecting k) = Unit {0}
Late _ = ⊥

-- `fini_count` has been reset for the region
abbrev Reset : Master → Type 0
Reset (Master.waking k) = Unit {0}
Reset (Master.setting k) = Unit {0}
Reset (Master.working k) = Unit {0}
Reset (Master.collecting k) = Unit {0}
Reset _ = ⊥

record Counts (n : ℕ) (s : Sys) : Type 0 where
  in_loop : s.workers_in_loop ≡ tally joined n s.workers
  in_wfi : s.workers_wfi ≡ tally asleep n s.workers
  woken : Late s.master → (i : ℕ) → i < n → (s.workers i).pending ≢ 0
  alone : n ≡ 0 → Reset s.master → s.fini_count ≡ 0

module _ {n : ℕ} {s : Sys} (inv : Counts n s) (small : n < 2 ^ 32) (i : ℕ) (lt : i < n) where
  settle :
      (w : Worker) (loop wfi fini : ℕ)
      → w.pending ≡ (s.workers i).pending
      → loop + joined (s.workers i) ≡ s.workers_in_loop + joined w
      → wfi + asleep (s.workers i) ≡ s.workers_wfi + asleep w
      → Counts n
          (record (becomes s i w) { workers_in_loop = loop; workers_wfi = wfi; fini_count = fini })
  settle w loop wfi fini same loops wfis = record {
    in_loop = omega (arith, inv.in_loop, tally-at joined n s.workers i w lt);
    in_wfi = omega (arith, inv.in_wfi, tally-at asleep n s.workers i w lt);
    woken = λ late a la. elim (Bool-cases (a == i)) [
      | inl q ↦ rw (q, same) (inv.woken late i lt)
      | inr q ↦ rw q (inv.woken late a la)
    ];
    alone = λ z. absurd (omega arith);
  }

  worker-Counts :
      (p : Phase) → (s.workers i).phase ≡ p → Counts n (worker_step ClrStore.misses i p s)
  unfolding worker_step
  worker-Counts Phase.joining e =
      let w = record (s.workers i) { phase = Phase.checking } in
      let own : joined (s.workers i) ≡ 0 = rw e refl in
      let room = tally_most joined n (at s.workers i w) joined_most in
      settle w (add32 s.workers_in_loop 1) s.workers_wfi s.fini_count refl
        (omega (arith, room, own, inv.in_loop, tally-at joined n s.workers i w lt)) (rw e refl)
  worker-Counts Phase.checking e = elim (Bool-cases (ltb (i + 1) s.nthreads)) [
    | inl t ↦ rw t (
        settle (record (s.workers i) { phase = Phase.running }) s.workers_in_loop s.workers_wfi
          s.fini_count refl (rw e refl) (rw e refl))
    | inr t ↦ rw t (
        settle (record (s.workers i) { phase = Phase.finishing }) s.workers_in_loop s.workers_wfi
          s.fini_count refl (rw e refl) (rw e refl))
  ]
  worker-Counts Phase.running e =
      settle (record (s.workers i) { phase = Phase.finishing; ran = (s.workers i).ran + 1 })
        s.workers_in_loop s.workers_wfi s.fini_count refl (rw e refl) (rw e refl)
  worker-Counts Phase.finishing e =
      settle (record (s.workers i) { phase = Phase.entering }) s.workers_in_loop s.workers_wfi
        (add32 s.fini_count 1) refl (rw e refl) (rw e refl)
  worker-Counts Phase.entering e =
      let w = record (s.workers i) { phase = Phase.sleeping } in
      let own : asleep (s.workers i) ≡ 0 = rw e refl in
      let room = tally_most asleep n (at s.workers i w) asleep_most in
      settle w s.workers_in_loop (add32 s.workers_wfi 1) s.fini_count refl (rw e refl)
        (omega (arith, room, own, inv.in_wfi, tally-at asleep n s.workers i w lt))
  worker-Counts Phase.sleeping e = elim (Bool-cases ((s.workers i).pending == 0)) [
    | inl q ↦ rw q (
        settle (record (s.workers i) { phase = Phase.sleeping }) s.workers_in_loop s.workers_wfi
          s.fini_count refl (rw e refl) (rw e refl))
    | inr q ↦ rw q (
        settle (record (s.workers i) { phase = Phase.clearing }) s.workers_in_loop s.workers_wfi
          s.fini_count refl (rw e refl) (rw e refl))
  ]
  worker-Counts Phase.clearing e =
      settle (record (s.workers i) { phase = Phase.leaving }) s.workers_in_loop s.workers_wfi
        s.fini_count refl (rw e refl) (rw e refl)
  worker-Counts Phase.leaving e =
      let own : asleep (s.workers i) ≡ 1 = rw e refl in
      let room = tally_most asleep n s.workers asleep_most in
      let there = tally_member asleep n s.workers i lt in
      settle (record (s.workers i) { phase = Phase.checking }) s.workers_in_loop
        (sub32 s.workers_wfi 1) s.fini_count refl (rw e refl)
        (omega (arith, room, own, there, inv.in_wfi))

woken-Moves : (pending : ℕ) (p : Phase) → pending ≢ 0 → MovesAt pending p
woken-Moves pending Phase.sleeping ne = ne
woken-Moves pending _ ne = tt

module _ {n : ℕ} {s : Sys} (inv : Counts n s) where
  -- core 0 goes on, and the workers' phases stay
  onward :
      (m : Master) (k fini : ℕ) (workers : ℕ → Worker)
      → ((i : ℕ) → (workers i).phase ≡ (s.workers i).phase)
      → (Late m → (i : ℕ) → i < n → (workers i).pending ≢ 0)
      → (n ≡ 0 → Reset m → fini ≡ 0)
      → Counts n (record s { master = m; nthreads = k; fini_count = fini; workers = workers })
  onward m k fini workers same late alone = record {
    in_loop =
        inv.in_loop
        ∙ sym (tally_same joined n s.workers workers (λ i lt. let e = same i in rw e refl));
    in_wfi =
        inv.in_wfi
        ∙ sym (tally_same asleep n s.workers workers (λ i lt. let e = same i in rw e refl));
    woken = late;
    alone = alone;
  }

  go :
      (m : Master)
      → (Late m → Late s.master)
      → (Reset m → Reset s.master)
      → Counts n (record s { master = m })
  go m late reset =
      onward m s.nthreads s.fini_count s.workers (λ i. refl) (λ l. inv.woken (late l))
        (λ z r. inv.alone z (reset r))

  master-Counts : (want : ℕ) (m : Master) → s.master ≡ m → Counts n (master_step n want m s)
  unfolding master_step
  master-Counts want Master.booting e = elim (Bool-cases (s.workers_wfi == n)) [
    | inl q ↦ rw q (go Master.idle (λ l. absurd l) (λ l. absurd l))
    | inr q ↦ rw q (go Master.booting (λ l. absurd l) (λ l. absurd l))
  ]
  master-Counts want Master.idle e = go (Master.pushing want) (λ l. absurd l) (λ l. absurd l)
  master-Counts want (Master.pushing k) e = elim (Bool-cases (s.workers_wfi == s.workers_in_loop)) [
    | inr q ↦ rw q inv
    | inl q ↦
        let workers =
          λ (i : ℕ). record (s.workers i) { meant = (s.workers i).meant + in_team k i } in
        elim (Bool-cases (k == 0)) [
          | inl z ↦
              rw (q, z)
                (onward Master.idle k s.fini_count workers (λ i. refl) (λ l. absurd l)
                  (λ z l. absurd l))
          | inr z ↦
              rw (q, z)
                (onward (Master.resetting k) k s.fini_count workers (λ i. refl) (λ l. absurd l)
                  (λ z l. absurd l))
        ]
  ]
  master-Counts want (Master.resetting k) e = elim (Bool-cases (ltb 1 k)) [
    | inl q ↦
        rw q (
          onward (Master.waking k) s.nthreads 0 s.workers (λ i. refl) (λ l. absurd l) (λ z l. refl))
    | inr q ↦ rw q (
        onward (Master.working k) s.nthreads 0 s.workers (λ i. refl) (λ l. absurd (ground arith))
          (λ z l. refl))
  ]
  master-Counts want (Master.waking k) e = elim (Bool-cases (s.workers_wfi == s.workers_in_loop)) [
    | inl q ↦ rw q (go (Master.setting k) (λ l. absurd l) (λ l. rw e tt))
    | inr q ↦ rw q inv
  ]
  master-Counts want (Master.setting k) e =
      onward (Master.working k) s.nthreads s.fini_count (λ i. record (s.workers i) { pending = 1 })
        (λ i. refl) (λ l i lt. omega arith) (λ z l. inv.alone z (rw e tt))
  master-Counts want (Master.working k) e = elim (Bool-cases (ltb 1 k)) [
    | inl q ↦ rw q (go (Master.collecting k) (λ l. rw e (ground arith)) (λ l. rw e tt))
    | inr q ↦ rw q (go (Master.storing k) (λ l. absurd l) (λ l. absurd l))
  ]
  master-Counts want (Master.collecting k) e =
      elim (Bool-cases (s.fini_count == s.workers_in_loop)) [
        | inl q ↦ rw q (go (Master.storing k) (λ l. absurd l) (λ l. absurd l))
        | inr q ↦ rw q inv
      ]
  master-Counts want (Master.storing k) e =
      onward Master.idle 0 s.fini_count s.workers (λ i. refl) (λ l. absurd l) (λ z l. absurd l)

  some_first :
      (k : ℕ) → s.master ≡ Master.collecting k → MasterMoves n s (Master.collecting k) ⊎ Someone n s
  some_first k e = elim (ℕ_discrete n 0) [
    | yes z ↦
        let few = tally_most joined n s.workers joined_most in
        let none = inv.alone z (rw e tt) in inl (omega (arith, few, inv.in_loop, none, z))
    | no ne ↦ inr (
      0,
      omega arith,
      woken-Moves (s.workers 0).pending (s.workers 0).phase (inv.woken (rw e tt) 0 (omega arith)),
    )
  ]

  moves_by : (m : Master) → s.master ≡ m → MasterMoves n s m ⊎ Someone n s
  moves_by Master.booting e = all_booted s inv.in_loop inv.in_wfi
  moves_by (Master.pushing k) e = all_parked s inv.in_loop inv.in_wfi
  moves_by (Master.waking k) e = all_parked s inv.in_loop inv.in_wfi
  moves_by (Master.collecting k) e = some_first k e
  moves_by _ e = inl tt

start-Counts : (n : ℕ) → Counts n start
start-Counts n = record {
  in_loop = sym (tally_zero joined n start.workers (λ i lt. refl));
  in_wfi = sym (tally_zero asleep n start.workers (λ i lt. refl));
  woken = λ l. absurd l;
  alone = λ z l. absurd l;
}

Reach-Counts : {n : ℕ} {s : Sys} → n < 2 ^ 32 → Reach ClrStore.misses n start s → Counts n s
Reach-Counts {n} small Reach.here = start-Counts n
Reach-Counts small (Reach.next {t} r (Step.worker i lt)) =
    worker-Counts (Reach-Counts small r) small i lt (t.workers i).phase refl
Reach-Counts small (Reach.next {t} r (Step.master want)) =
    master-Counts (Reach-Counts small r) want t.master refl

pub Reach-Moves :
    {n : ℕ} {s : Sys}
    → n < 2 ^ 32
    → Reach ClrStore.misses n start s
    → MasterMoves n s s.master ⊎ Someone n s
Reach-Moves {n} {s} small r = moves_by (Reach-Counts small r) s.master refl
