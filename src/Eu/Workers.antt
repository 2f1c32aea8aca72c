-- ===== src/Eu/Workers.antt =====
-- A step of a worker keeps the invariant.
use many_rvdata.Base.{
  ℕ, ◌+◌, ◌^◌, ◌≤◌, ◌<◌, ◌≡◌, inl, inr, refl, sym, subst, arith, ◌==◌, ltb, true, false,
  if◌then◌else◌, at, add32, sub32, tally, tally-at, tally_member, tally_most, Bool-cases,
}
use many_rvdata.Eu.{ClrStore, Phase, Worker, Master, Sys, becomes, worker_step}
use many_rvdata.Eu.Invariant.{asleep, joined, counted, Kind, kind, FitsAt, Fits, Fields, Inv}

-- The new worker of a step fits when it did before.
abbrev moved : (i nthreads : ℕ) → Phase → Worker → Worker
moved i nthreads Phase.joining w = record w { phase = Phase.checking }
moved i nthreads Phase.checking w = record w {
  phase = if ltb (i + 1) nthreads then Phase.running else Phase.finishing;
}
moved i nthreads Phase.running w = record w { phase = Phase.finishing; ran = w.ran + 1 }
moved i nthreads Phase.finishing w = record w { phase = Phase.entering }
moved i nthreads Phase.entering w = record w { phase = Phase.sleeping }
moved i nthreads Phase.sleeping w = record w {
  phase = if w.pending == 0 then Phase.sleeping else Phase.clearing;
}
moved i nthreads Phase.clearing w = record w { phase = Phase.leaving; pending = 0 }
moved i nthreads Phase.leaving w = record w { phase = Phase.checking }

-- the threads that a worker sees
abbrev Sees : Kind → ℕ → Type 0
Sees Kind.first nthreads = nthreads ≡ 0
Sees (Kind.active k) nthreads = nthreads ≡ k
Sees _ nthreads = Unit {0}

moved-Fits :
    (q : Kind) (i nthreads : ℕ) (p : Phase) (w : Worker)
    → Sees q nthreads
    → FitsAt q i w.pending w.ran w.meant p
    → Fits q i (moved i nthreads p w)
moved-Fits Kind.first i t Phase.joining w see fit = fit
moved-Fits Kind.first i t Phase.checking w see fit =
    let no : ltb (i + 1) t ≡ false = ground arith in rw no fit
moved-Fits Kind.first i t Phase.finishing w see fit = fit
moved-Fits Kind.first i t Phase.entering w see fit = fit
moved-Fits Kind.first i t Phase.sleeping w see fit =
    let no : (w.pending == 0) ≡ true = ground arith in rw no fit
moved-Fits Kind.first i t _ w see fit = elim fit [ ]
moved-Fits Kind.resting i t Phase.entering w see fit = fit
moved-Fits Kind.resting i t Phase.sleeping w see fit =
    let no : (w.pending == 0) ≡ true = ground arith in rw no fit
moved-Fits Kind.resting i t _ w see fit = elim fit [ ]
moved-Fits (Kind.parked k) i t Phase.sleeping w see fit =
    let no : (w.pending == 0) ≡ true = ground arith in rw no fit
moved-Fits (Kind.parked k) i t _ w see fit = elim fit [ ]
moved-Fits (Kind.active k) i t Phase.joining w see fit = elim fit [ ]
moved-Fits (Kind.active k) i t Phase.checking w see fit = elim (Bool-cases (ltb (i + 1) t)) [
  | inl e ↦ rw e (ground arith)
  | inr e ↦ rw e (ground arith)
]
moved-Fits (Kind.active k) i t Phase.running w see fit = (fit.0, fit.1)
moved-Fits (Kind.active k) i t Phase.finishing w see fit = fit
moved-Fits (Kind.active k) i t Phase.entering w see fit =
    let no : (w.pending == 0) ≡ true = ground arith in rw no fit.1
moved-Fits (Kind.active k) i t Phase.sleeping w see fit = elim (Bool-cases (w.pending == 0)) [
  | inl e ↦ rw e (ground arith)
  | inr e ↦ rw e (ground arith)
]
moved-Fits (Kind.active k) i t Phase.clearing w see fit = (refl, fit)
moved-Fits (Kind.active k) i t Phase.leaving w see fit = fit

Fields-Sees : (m : Master) (t f d : ℕ) → Fields m t f d → Sees (kind m) t
Fields-Sees Master.booting t f d h = h
Fields-Sees Master.idle t f d h = tt
Fields-Sees (Master.pushing k) t f d h = tt
Fields-Sees (Master.resetting k) t f d h = tt
Fields-Sees (Master.waking k) t f d h = tt
Fields-Sees (Master.setting k) t f d h = tt
Fields-Sees (Master.working k) t f d h = elim (Bool-cases (ltb 1 k)) [
  | inl e ↦ rw e h.0
  | inr e ↦ rw e tt
]
Fields-Sees (Master.collecting k) t f d h = h.0
Fields-Sees (Master.storing k) t f d h = tt

-- One more worker is through.
Fields-more :
    (m : Master) (t f d f' d' i x y z : ℕ)
    → FitsAt (kind m) i x y z Phase.finishing
    → (f ≡ d → f' ≡ d')
    → Fields m t f d
    → Fields m t f' d'
Fields-more Master.booting t f d f' d' i x y z fit more h = h
Fields-more Master.idle t f d f' d' i x y z fit more h = h
Fields-more (Master.pushing k) t f d f' d' i x y z fit more h = h
Fields-more (Master.resetting k) t f d f' d' i x y z fit more h = h
Fields-more (Master.waking k) t f d f' d' i x y z fit more h = elim fit [ ]
Fields-more (Master.setting k) t f d f' d' i x y z fit more h = elim fit [ ]
Fields-more (Master.working k) t f d f' d' i x y z fit more h = (h.0, λ lt. more (h.1 lt))
Fields-more (Master.collecting k) t f d f' d' i x y z fit more h = (h.0, more h.1)
Fields-more (Master.storing k) t f d f' d' i x y z fit more h = h

pub asleep_most : (w : Worker) → asleep w ≤ 1
asleep_most w = ground arith

pub joined_most : (w : Worker) → joined w ≤ 1
joined_most w = ground arith

pub counted_most : (w : Worker) → counted w ≤ 1
counted_most w = ground arith

-- A worker without an interrupt goes to sleep.
entering_pending : (q : Kind) (i x y z : ℕ) → FitsAt q i x y z Phase.entering → x ≡ 0
entering_pending Kind.first i x y z fit = fit.0
entering_pending Kind.resting i x y z fit = fit.0
entering_pending (Kind.parked k) i x y z fit = elim fit [ ]
entering_pending (Kind.active k) i x y z fit = fit.0

same_index : (a i : ℕ) → (a == i) ≡ true → a ≡ i
same_index a i q = ground arith

module _ {n : ℕ} {s : Sys} (inv : Inv n s) (small : n < 2 ^ 32) (i : ℕ) (lt : i < n) where
  own_fit :
      (p : Phase)
      → (s.workers i).phase ≡ p
      → FitsAt (kind s.master) i (s.workers i).pending (s.workers i).ran (s.workers i).meant p
  own_fit p e =
      subst
        (λ p.
          FitsAt (kind s.master) i (s.workers i).pending (s.workers i).ran (s.workers i).meant p)
        e (inv.fits i lt)

  settle :
      (p : Phase) (loop wfi fini : ℕ)
      → (s.workers i).phase ≡ p
      → let w = moved i s.nthreads p (s.workers i) in
        loop + joined (s.workers i) ≡ s.workers_in_loop + joined w
        → wfi + asleep (s.workers i) ≡ s.workers_wfi + asleep w
        → Fields s.master s.nthreads fini (tally counted n (at s.workers i w))
        → Inv n (record (becomes s i w) {
          workers_in_loop = loop;
          workers_wfi = wfi;
          fini_count = fini;
        })
  settle p loop wfi fini e loops wfis fields =
      let w = moved i s.nthreads p (s.workers i) in
      let new =
        moved-Fits (kind s.master) i s.nthreads p (s.workers i)
          (Fields-Sees s.master s.nthreads s.fini_count (tally counted n s.workers) inv.fields)
          (own_fit p e) in
      record {
        in_loop = omega (arith, inv.in_loop, tally-at joined n s.workers i w lt);
        in_wfi = omega (arith, inv.in_wfi, tally-at asleep n s.workers i w lt);
        fields = fields;
        fits = λ a la. elim (Bool-cases (a == i)) [
          | inl q ↦ rw q (subst (λ a. Fits (kind s.master) a w) (sym (same_index a i q)) new)
          | inr q ↦ rw q (inv.fits a la)
        ];
      }

  -- a step that leaves `fini_count` and what it counts
  quietly :
      (p : Phase) (loop wfi : ℕ)
      → (s.workers i).phase ≡ p
      → let w = moved i s.nthreads p (s.workers i) in
        loop + joined (s.workers i) ≡ s.workers_in_loop + joined w
        → wfi + asleep (s.workers i) ≡ s.workers_wfi + asleep w
        → counted w ≡ counted (s.workers i)
        → Inv n (record (becomes s i w) { workers_in_loop = loop; workers_wfi = wfi })
  quietly p loop wfi e loops wfis same =
      let w = moved i s.nthreads p (s.workers i) in
      let tallies : tally counted n s.workers ≡ tally counted n (at s.workers i w) =
        omega (arith, tally-at counted n s.workers i w lt) in
      settle p loop wfi s.fini_count e loops wfis
        (subst (Fields s.master s.nthreads s.fini_count) tallies inv.fields)

  pub worker_step-Inv :
      (p : Phase) → (s.workers i).phase ≡ p → Inv n (worker_step ClrStore.clears i p s)
  unfolding worker_step
  worker_step-Inv Phase.joining e =
      let w = moved i s.nthreads Phase.joining (s.workers i) in
      let own : joined (s.workers i) ≡ 0 = rw e refl in
      let room = tally_most joined n (at s.workers i w) joined_most in
      quietly Phase.joining (add32 s.workers_in_loop 1) s.workers_wfi e
        (omega (arith, room, own, inv.in_loop, tally-at joined n s.workers i w lt)) (rw e refl)
        (rw e refl)
  worker_step-Inv Phase.checking e = elim (Bool-cases (ltb (i + 1) s.nthreads)) [
    | inl t ↦
        quietly Phase.checking s.workers_in_loop s.workers_wfi e (rw e (rw t refl))
          (rw e (rw t refl)) (rw e (rw t refl))
    | inr t ↦
        quietly Phase.checking s.workers_in_loop s.workers_wfi e (rw e (rw t refl))
          (rw e (rw t refl)) (rw e (rw t refl))
  ]
  worker_step-Inv Phase.running e =
      quietly Phase.running s.workers_in_loop s.workers_wfi e (rw e refl) (rw e refl) (rw e refl)
  worker_step-Inv Phase.finishing e =
      let w = moved i s.nthreads Phase.finishing (s.workers i) in
      let own : counted (s.workers i) ≡ 0 = rw e refl in
      let room = tally_most counted n (at s.workers i w) counted_most in
      let sum = tally-at counted n s.workers i w lt in
      settle Phase.finishing s.workers_in_loop s.workers_wfi (add32 s.fini_count 1) e (rw e refl)
        (rw e refl)
        (Fields-more s.master s.nthreads s.fini_count (tally counted n s.workers)
          (add32 s.fini_count 1) (tally counted n (at s.workers i w)) i (s.workers i).pending
          (s.workers i).ran (s.workers i).meant (own_fit Phase.finishing e)
          (λ all. omega (arith, room, own, sum)) inv.fields)
  worker_step-Inv Phase.entering e =
      let w = moved i s.nthreads Phase.entering (s.workers i) in
      let own : asleep (s.workers i) ≡ 0 = rw e refl in
      let room = tally_most asleep n (at s.workers i w) asleep_most in
      let quiet =
        entering_pending (kind s.master) i (s.workers i).pending (s.workers i).ran
          (s.workers i).meant (own_fit Phase.entering e) in
      quietly Phase.entering s.workers_in_loop (add32 s.workers_wfi 1) e (rw e refl)
        (omega (arith, room, own, inv.in_wfi, tally-at asleep n s.workers i w lt))
        (rw e (rw quiet refl))
  worker_step-Inv Phase.sleeping e = elim (Bool-cases ((s.workers i).pending == 0)) [
    | inl q ↦
        quietly Phase.sleeping s.workers_in_loop s.workers_wfi e (rw e (rw q refl))
          (rw e (rw q refl)) (rw e (rw q (rw q refl)))
    | inr q ↦
        quietly Phase.sleeping s.workers_in_loop s.workers_wfi e (rw e (rw q refl))
          (rw e (rw q refl)) (rw e (rw q refl))
  ]
  worker_step-Inv Phase.clearing e =
      quietly Phase.clearing s.workers_in_loop s.workers_wfi e (rw e refl) (rw e refl) (rw e refl)
  worker_step-Inv Phase.leaving e =
      let own : asleep (s.workers i) ≡ 1 = rw e refl in
      let room = tally_most asleep n s.workers asleep_most in
      let there = tally_member asleep n s.workers i lt in
      quietly Phase.leaving s.workers_in_loop (sub32 s.workers_wfi 1) e (rw e refl)
        (omega (arith, room, own, there, inv.in_wfi)) (rw e refl)
