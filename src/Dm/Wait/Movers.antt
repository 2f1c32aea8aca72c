-- ===== src/Dm/Wait/Movers.antt =====
-- A step of the data mover, or of the engine, keeps the invariant.
use many_rvdata.Base.{
  ℕ, ◌+◌, ◌-◌, ◌^◌, ◌<◌, ◌≡◌, inl, inr, refl, sym, subst, arith, ◌==◌, true, false, Bool-cases,
  add32, sub32,
}
use many_rvdata.Dm.{Stat}
use many_rvdata.Dm.Wait.{Phase, Mover, Sys, no_request?, dispatch, mover_step}
use many_rvdata.Dm.Wait.Invariant.{
  bump, critical, Upto, CoreAt, Asks, Asked, Quiet, MoverAt, Inv, CoreAt-grows, Upto-grows,
  Asks-critical, Asks-issued, one_holder,
}

-- The answer reaches the core that asked, and no other is under the mutex.
answered :
    (q : Stat) (issued done last pvalid : ℕ) (p : Phase)
    → (critical p ≡ true → Asks q p × Upto q last done)
    → CoreAt pvalid issued done last p
    → CoreAt 1 issued done last p
answered q issued done last pvalid Phase.quieting known h = h
answered q issued done last pvalid (Phase.acquiring r) known h = h
answered q issued done last pvalid (Phase.resetting r) known h = h
answered q issued done last pvalid (Phase.requesting r) known h = elim (known refl).0 [ ]
answered q issued done last pvalid (Phase.waking r) known h =
    let (e, u) = known refl in (λ ne. subst (λ q. Upto q last done) (sym e) u, h.1)
answered q issued done last pvalid (Phase.raising r) known h =
    let (e, u) = known refl in (λ ne. subst (λ q. Upto q last done) (sym e) u, h.1)
answered q issued done last pvalid (Phase.validating r) known h =
    let (e, u) = known refl in (λ ne. subst (λ q. Upto q last done) (sym e) u, h.1)
answered q issued done last pvalid (Phase.returning r) known h = h
answered q issued done last pvalid _ known h = tt

module _ {n : ℕ} {s : Sys} (inv : Inv n s) where
  -- the data mover goes on to `m`, and the counts, the mutex, the request and the cores stay
  turn_to :
      (m : Mover) (wfi irq : ℕ)
      → bump m ≡ bump s.mover
      → MoverAt n s m
      → Inv n (record s { mover = m; dm_wfi = wfi; irq = irq })
  turn_to m wfi irq same h = record {
    counts = omega (arith, inv.counts);
    in_order = inv.in_order;
    room = inv.room;
    numbers = inv.numbers;
    holds = inv.holds;
    at_core = inv.at_core;
    at_mover = h;
  }

  turn : (m : Mover) → bump m ≡ bump s.mover → MoverAt n s m → Inv n (record s { mover = m })
  turn m same h = turn_to m s.dm_wfi s.irq same h

  as_mover : (m : Mover) → s.mover ≡ m → MoverAt n s m
  as_mover m e = subst (MoverAt n s) e inv.at_mover

  request_out : Quiet n s → no_request? s.stat_q ≡ false → Asked n s
  request_out (inl e) some_request = absurd (ground arith)
  request_out (inr asked) some_request = asked

  issue_lem :
      s.mover ≡ Mover.issuing → Inv n (record s { mover = Mover.bumping; issued = s.issued + 1 })
  issue_lem e =
      let none_yet : bump s.mover ≡ 0 = rw e refl in
      record {
        counts = omega (arith, inv.counts);
        in_order = omega (arith, inv.in_order);
        room = inv.room;
        numbers = inv.numbers;
        holds = inv.holds;
        at_core = λ d ld.
            CoreAt-grows s.stat_pvalid s.issued s.done (s.cores d).last (s.issued + 1) s.done
              (s.cores d).phase (omega arith) (omega arith) (inv.at_core d ld);
        at_mover = as_mover Mover.issuing e;
      }

  bump_lem :
      n + 3 < 2 ^ 32
      → s.mover ≡ Mover.bumping
      → Inv n (record s { mover = Mover.asking; queue_fill = sub32 s.queue_fill 1 })
  bump_lem small e =
      let one : bump s.mover ≡ 1 = rw e refl in
      let (some_task, quiet) = as_mover Mover.bumping e in
      let less : sub32 s.queue_fill 1 ≡ s.queue_fill - 1 = omega (arith, inv.room) in
      record {
        counts = omega (arith, inv.counts, less);
        in_order = inv.in_order;
        room = omega (arith, inv.room, less);
        numbers = inv.numbers;
        holds = inv.holds;
        at_core = inv.at_core;
        at_mover = quiet;
      }

  answer_lem :
      s.mover ≡ Mover.validating → Inv n (record s { mover = Mover.clearing; stat_pvalid = 1 })
  answer_lem e =
      let (c, lc, asks, none_yet, reached) = as_mover Mover.validating e in
      let known = λ (d : ℕ) (ld : d < n) (k : critical (s.cores d).phase ≡ true).
        subst (λ a. Asks s.stat_q (s.cores a).phase × Upto s.stat_q (s.cores a).last s.done)
          (one_holder inv c d lc ld (Asks-critical s.stat_q (s.cores c).phase asks) k)
          (asks, reached) in
      let still : bump s.mover ≡ 0 = rw e refl in
      record {
        counts = omega (arith, inv.counts);
        in_order = inv.in_order;
        room = inv.room;
        numbers = inv.numbers;
        holds = inv.holds;
        at_core = λ d ld.
            answered s.stat_q s.issued s.done (s.cores d).last s.stat_pvalid (s.cores d).phase
              (known d ld) (inv.at_core d ld);
        at_mover = tt;
      }

  clear_lem :
      s.mover ≡ Mover.clearing
      → Inv n (record s { mover = Mover.checking_fill; stat_q = Stat.no_request })
  clear_lem e =
      let still : bump s.mover ≡ 0 = rw e refl in
      record {
        counts = omega (arith, inv.counts);
        in_order = inv.in_order;
        room = inv.room;
        numbers = inv.numbers;
        holds = inv.holds;
        at_core = inv.at_core;
        at_mover = inl refl;
      }

  test_lem : s.mover ≡ Mover.testing → s.done ≡ s.issued → MoverAt n s Mover.validating
  test_lem e idle =
      let ((c, lc, asks, none_yet), q) = as_mover Mover.testing e in
      (
        c,
        lc,
        asks,
        none_yet,
        subst (Upto s.stat_q (s.cores c).last) (sym idle) (
            Asks-issued s.stat_pvalid s.issued s.done (s.cores c).last s.stat_q (s.cores c).phase
              asks (inv.at_core c lc)),
      )

  ready-Upto : (last count : ℕ) → s.stat_q ≡ Stat.ready → Upto s.stat_q last count
  ready-Upto last count e = rw e tt

  dispatch_lem : (q : Stat) → s.stat_q ≡ q → Asked n s → MoverAt n s (dispatch q)
  dispatch_lem Stat.no_request e asked = inr asked
  dispatch_lem Stat.wait_idle e asked = (asked, e)
  dispatch_lem Stat.exit e asked = inr asked
  dispatch_lem Stat.ready e (c, lc, asks, none_yet) =
      (c, lc, asks, none_yet, ready-Upto (s.cores c).last s.done e)

  dispatch-bump : (q : Stat) → bump (dispatch q) ≡ 0
  dispatch-bump Stat.no_request = refl
  dispatch-bump Stat.wait_idle = refl
  dispatch-bump Stat.exit = refl
  dispatch-bump Stat.ready = refl

  pub mover_step-Inv : (m : Mover) → n + 3 < 2 ^ 32 → s.mover ≡ m → Inv n (mover_step m s)
  unfolding mover_step
  mover_step-Inv Mover.top small e = elim (Bool-cases (s.queue_fill == 0)) [
    | inl z ↦ rw z (turn Mover.asking (rw e refl) (as_mover Mover.top e))
    | inr z ↦ rw z (turn Mover.issuing (rw e refl) (ground arith, as_mover Mover.top e))
  ]
  mover_step-Inv Mover.issuing small e = issue_lem e
  mover_step-Inv Mover.bumping small e = bump_lem small e
  mover_step-Inv Mover.asking small e = elim (Bool-cases (no_request? s.stat_q)) [
    | inl z ↦ rw z (turn Mover.checking_fill (rw e refl) (as_mover Mover.asking e))
    | inr z ↦ rw z (turn Mover.switching (rw e refl) (request_out (as_mover Mover.asking e) z))
  ]
  mover_step-Inv Mover.switching small e =
      turn (dispatch s.stat_q) (rw e (dispatch-bump s.stat_q))
        (dispatch_lem s.stat_q refl (as_mover Mover.switching e))
  mover_step-Inv Mover.testing small e = elim (Bool-cases (s.done == s.issued)) [
    | inl z ↦ rw z (turn Mover.validating (rw e refl) (test_lem e (ground arith)))
    | inr z ↦ rw z (turn Mover.checking_fill (rw e refl) (inr (as_mover Mover.testing e).0))
  ]
  mover_step-Inv Mover.validating small e = answer_lem e
  mover_step-Inv Mover.clearing small e = clear_lem e
  mover_step-Inv Mover.checking_fill small e = elim (Bool-cases (s.queue_fill == 0)) [
    | inl z ↦ rw z (turn Mover.checking_stat (rw e refl) (as_mover Mover.checking_fill e))
    | inr z ↦ rw z (turn Mover.top (rw e refl) (as_mover Mover.checking_fill e))
  ]
  mover_step-Inv Mover.checking_stat small e = elim (Bool-cases (no_request? s.stat_q)) [
    | inl z ↦ rw z (turn Mover.entering (rw e refl) (as_mover Mover.checking_stat e))
    | inr z ↦ rw z (turn Mover.top (rw e refl) (as_mover Mover.checking_stat e))
  ]
  mover_step-Inv Mover.entering small e =
      turn_to Mover.sleeping (add32 s.dm_wfi 1) s.irq (rw e refl) (as_mover Mover.entering e)
  mover_step-Inv Mover.sleeping small e = elim (Bool-cases (s.irq == 0)) [
    | inl z ↦ rw z (turn Mover.sleeping (rw e refl) (as_mover Mover.sleeping e))
    | inr z ↦ rw z (turn Mover.clearing_irq (rw e refl) (as_mover Mover.sleeping e))
  ]
  mover_step-Inv Mover.clearing_irq small e =
      turn_to Mover.leaving s.dm_wfi s.irq (rw e refl) (as_mover Mover.clearing_irq e)
  mover_step-Inv Mover.leaving small e =
      turn_to Mover.top (sub32 s.dm_wfi 1) s.irq (rw e refl) (as_mover Mover.leaving e)

  done-MoverAt : (m : Mover) → MoverAt n s m → MoverAt n (record s { done = s.done + 1 }) m
  done-MoverAt Mover.validating (c, lc, asks, none_yet, reached) = (
    c,
    lc,
    asks,
    none_yet,
    Upto-grows s.stat_q (s.cores c).last s.done (s.done + 1) (omega arith) reached,
  )
  done-MoverAt _ h = h

  pub complete-Inv : s.done < s.issued → Inv n (record s { done = s.done + 1 })
  complete-Inv lt = record {
    counts = inv.counts;
    in_order = omega arith;
    room = inv.room;
    numbers = inv.numbers;
    holds = inv.holds;
    at_core = λ d ld.
        CoreAt-grows s.stat_pvalid s.issued s.done (s.cores d).last s.issued (s.done + 1)
          (s.cores d).phase (omega arith) (omega arith) (inv.at_core d ld);
    at_mover = done-MoverAt s.mover inv.at_mover;
  }
