-- ===== src/Eu/Core0.antt =====
-- A step of core 0 keeps the invariant.
use many_rvdata.Base.{
  ℕ, ◌+◌, ◌<◌, ◌≡◌, inl, inr, refl, ◌∙◌, subst, sym, lt→ltb, ltb→lt, arith, ◌==◌, ltb, true,
  if◌then◌else◌, tally, tally_full, tally_ones, tally_same, tally_zero, Bool-cases,
}
use many_rvdata.Eu.{Worker, Master, Sys, in_team, master_step}
use many_rvdata.Eu.Invariant.{asleep, joined, counted, kind, Fits, Fields, Inv}
use many_rvdata.Eu.Workers.{asleep_most, counted_most}
use many_rvdata.Eu.Changes.{
  of, booted, resting-joined, active-joined, pushed, nobody, left_alone, woken, woken-counted,
  through, worked_many, worked_few,
}

module _ {n : ℕ} {s : Sys} (inv : Inv n s) where
  -- the other fields change, the workers do not
  relabel :
      (m : Master) (t f : ℕ)
      → Fields m t f (tally counted n s.workers)
      → ((i : ℕ) → i < n → Fits (kind m) i (s.workers i))
      → Inv n (record s { master = m; nthreads = t; fini_count = f })
  relabel m t f fields fits = record {
    in_loop = inv.in_loop;
    in_wfi = inv.in_wfi;
    fields = fields;
    fits = fits;
  }

  -- the workers change as well, in what neither `workers_in_loop` nor `workers_wfi` counts
  remap :
      (m : Master) (t : ℕ) (x y z : ℕ → ℕ)
      → let g : ℕ → Worker = λ i. of (x i) (y i) (z i) (s.workers i).phase in
        Fields m t s.fini_count (tally counted n g)
        → ((i : ℕ) → i < n → Fits (kind m) i (g i))
        → Inv n (record s { master = m; nthreads = t; workers = g })
  remap m t x y z fields fits =
      let g : ℕ → Worker = λ i. of (x i) (y i) (z i) (s.workers i).phase in
      record {
        in_loop = inv.in_loop ∙ sym (tally_same joined n s.workers g (λ i lt. refl));
        in_wfi = inv.in_wfi ∙ sym (tally_same asleep n s.workers g (λ i lt. refl));
        fields = fields;
        fits = fits;
      }

  all_asleep :
      ((i : ℕ) → i < n → joined (s.workers i) ≡ 1)
      → (s.workers_wfi == s.workers_in_loop) ≡ true
      → (i : ℕ) → i < n
      → asleep (s.workers i) ≡ 1
  all_asleep all e i lt =
      tally_full asleep n s.workers i asleep_most
        (ground (arith, tally_ones joined n s.workers all, inv.in_loop, inv.in_wfi)) lt

  module _ (m : Master) (e : s.master ≡ m) where
    known_shared : Fields m s.nthreads s.fini_count (tally counted n s.workers)
    known_shared =
        subst (λ m. Fields m s.nthreads s.fini_count (tally counted n s.workers)) e inv.fields

    each_fit : (i : ℕ) → i < n → Fits (kind m) i (s.workers i)
    each_fit i lt = subst (λ m. Fits (kind m) i (s.workers i)) e (inv.fits i lt)

  all_counted :
      (k : ℕ)
      → s.master ≡ Master.collecting k
      → (s.fini_count == s.workers_in_loop) ≡ true
      → (i : ℕ) → i < n
      → counted (s.workers i) ≡ 1
  all_counted k e q i lt =
      let all = tally_ones joined n s.workers (λ i lt.
        active-joined i (s.workers i).pending (s.workers i).ran (s.workers i).meant k
          (s.workers i).phase (each_fit (Master.collecting k) e i lt)) in
      tally_full counted n s.workers i counted_most
        (ground (arith, all, inv.in_loop, (known_shared (Master.collecting k) e).1)) lt

  push_lem :
      (k : ℕ)
      → s.master ≡ Master.pushing k
      → (s.workers_wfi == s.workers_in_loop) ≡ true
      → Inv n (record s {
        nthreads = k;
        master = if k == 0 then Master.idle else Master.resetting k;
        workers = λ i.
            of
              (s.workers i).pending
              (s.workers i).ran
              ((s.workers i).meant + in_team k i)
              (s.workers i).phase;
      })
  push_lem k e q =
      let fits = each_fit (Master.pushing k) e in
      let rest =
        all_asleep
          (λ i lt.
            resting-joined i (s.workers i).pending (s.workers i).ran (s.workers i).meant
              (s.workers i).phase (fits i lt))
          q in
      elim (Bool-cases (k == 0)) [
        | inl z ↦ rw z (
            remap Master.idle k (λ i. (s.workers i).pending) (λ i. (s.workers i).ran)
              (λ i. (s.workers i).meant + in_team k i) (ground arith)
              (λ i lt.
                nobody i (s.workers i).pending (s.workers i).ran (s.workers i).meant k
                  (s.workers i).phase (ground arith) (fits i lt)))
        | inr z ↦ rw z (
            remap (Master.resetting k) k (λ i. (s.workers i).pending) (λ i. (s.workers i).ran)
              (λ i. (s.workers i).meant + in_team k i) refl
              (λ i lt.
                pushed i (s.workers i).pending (s.workers i).ran (s.workers i).meant k
                  (s.workers i).phase (fits i lt) (rest i lt)))
      ]

  -- a test that fails changes nothing, and `master` is what it was
  pub master_step-Inv : (want : ℕ) (m : Master) → s.master ≡ m → Inv n (master_step n want m s)
  unfolding master_step
  master_step-Inv want Master.booting e = elim (Bool-cases (s.workers_wfi == n)) [
    | inl q ↦ rw q (
        relabel Master.idle s.nthreads s.fini_count (known_shared Master.booting e) (λ i lt.
          booted i (s.workers i).pending (s.workers i).ran (s.workers i).meant (s.workers i).phase
            (each_fit Master.booting e i lt)
            (tally_full asleep n s.workers i asleep_most (ground (arith, inv.in_wfi)) lt)))
    | inr q ↦ rw q (
        relabel Master.booting s.nthreads s.fini_count (known_shared Master.booting e)
          (each_fit Master.booting e))
  ]
  master_step-Inv want Master.idle e =
      relabel (Master.pushing want) s.nthreads s.fini_count (known_shared Master.idle e)
        (each_fit Master.idle e)
  master_step-Inv want (Master.pushing k) e =
      elim (Bool-cases (s.workers_wfi == s.workers_in_loop)) [
        | inl q ↦ rw q (push_lem k e q)
        | inr q ↦ rw q inv
      ]
  master_step-Inv want (Master.resetting k) e = elim (Bool-cases (ltb 1 k)) [
    | inl q ↦ rw q (
        relabel (Master.waking k) s.nthreads 0
          (known_shared (Master.resetting k) e, refl, ltb→lt 1 k q)
          (each_fit (Master.resetting k) e))
    | inr q ↦ rw q (
        relabel (Master.working k) s.nthreads 0
          (known_shared (Master.resetting k) e, λ lt. absurd (ground arith))
          (λ i lt. rw q (
            left_alone i (s.workers i).pending (s.workers i).ran (s.workers i).meant k
              (s.workers i).phase q (each_fit (Master.resetting k) e i lt))))
  ]
  master_step-Inv want (Master.waking k) e =
      elim (Bool-cases (s.workers_wfi == s.workers_in_loop)) [
        | inl q ↦ rw q (
            relabel (Master.setting k) s.nthreads s.fini_count (known_shared (Master.waking k) e)
              (each_fit (Master.waking k) e))
        | inr q ↦ rw q inv
      ]
  master_step-Inv want (Master.setting k) e =
      let (team, none, more) = known_shared (Master.setting k) e in
      remap (Master.working k) s.nthreads (λ i. 1) (λ i. (s.workers i).ran)
        (λ i. (s.workers i).meant)
        (
          team,
          λ lt.
              none
              ∙ sym (
                  tally_zero counted n
                    (λ i. of 1 (s.workers i).ran (s.workers i).meant (s.workers i).phase)
                    (λ i below.
                      woken-counted i (s.workers i).pending (s.workers i).ran (s.workers i).meant k
                        (s.workers i).phase (each_fit (Master.setting k) e i below))),
        )
        (λ i lt. rw (lt→ltb 1 k more) (
          woken i (s.workers i).pending (s.workers i).ran (s.workers i).meant k (s.workers i).phase
            (each_fit (Master.setting k) e i lt)))
  master_step-Inv want (Master.working k) e = elim (Bool-cases (ltb 1 k)) [
    | inl q ↦ rw q (
        relabel (Master.collecting k) s.nthreads s.fini_count
          (
            (known_shared (Master.working k) e).0,
            (known_shared (Master.working k) e).1 (ltb→lt 1 k q),
          )
          (λ i lt. worked_many k q i (s.workers i) (each_fit (Master.working k) e i lt)))
    | inr q ↦ rw q (
        relabel (Master.storing k) s.nthreads s.fini_count tt
          (λ i lt. worked_few k q i (s.workers i) (each_fit (Master.working k) e i lt)))
  ]
  master_step-Inv want (Master.collecting k) e =
      elim (Bool-cases (s.fini_count == s.workers_in_loop)) [
        | inl q ↦ rw q (
            relabel (Master.storing k) s.nthreads s.fini_count tt (λ i lt.
              through i (s.workers i).pending (s.workers i).ran (s.workers i).meant k
                (s.workers i).phase (each_fit (Master.collecting k) e i lt)
                (all_counted k e q i lt)))
        | inr q ↦ rw q inv
      ]
  master_step-Inv want (Master.storing k) e =
      relabel Master.idle 0 s.fini_count refl (each_fit (Master.storing k) e)
