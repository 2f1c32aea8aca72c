-- ===== src/Dm/Wait/Clients.antt =====
-- A step of a core keeps the invariant.
use many_rvdata.Base.{
  ℕ, ◌+◌, ◌^◌, ◌≤◌, ◌<◌, ◌≡◌, inl, inr, refl, subst, arith, ◌==◌, ltb, true, false, Bool-cases,
  none, some, at, tally, tally_member, tally_most, add32,
}
use many_rvdata.Dm.{Stat, dm_task_queue_size}
use many_rvdata.Dm.Wait.{Phase, Op, Core, Mover, Sys, is_free, no_request?, goes, begin, core_step}
use many_rvdata.Dm.Wait.Invariant.{
  past, bump, critical, Asks, Asked, MoverAt, Inv, Asks-critical, one_holder,
}
use many_rvdata.Dm.Wait.Stores.{
  stored, in_phase, at_phase, room_on, mover_on, store-Inv, keeps_own, no_other, outside, inside,
  with_mutex,
}
use many_rvdata.Dm.Wait.Requests.{unanswered, new_request}

past_most : (v : Core) → past v ≤ 1
past_most v = ground arith

module _ {n : ℕ} {s : Sys} (inv : Inv n s) (c : ℕ) (lt : c < n) where
  insert_lem :
      n + 3 < 2 ^ 32
      → (s.cores c).phase ≡ Phase.inserting
      → Inv n (core_step c Op.memcpy_async Phase.inserting s)
  unfolding core_step
  insert_lem small e =
      let v : Core = record { phase = Phase.unlocking; last = s.queued + 1 } in
      let own : past (s.cores c) ≡ 1 = rw e refl in
      let there = tally_member past n s.cores c lt in
      let more : add32 s.queue_fill 1 ≡ s.queue_fill + 1 = omega (arith, inv.room) in
      store-Inv inv c lt v (add32 s.queue_fill 1) s.stat_pvalid (s.queued + 1) s.irq s.mutex
        s.stat_q
        (
          omega (arith, inv.counts),
          room_on inv c lt v (add32 s.queue_fill 1) (omega arith),
          omega arith,
        )
        (omega arith, λ k. inv.holds c lt (rw e refl), tt)
        (λ d ld ne. (λ k. inv.holds d ld k, inv.at_core d ld))
        (mover_on inv c lt v (add32 s.queue_fill 1) s.stat_pvalid (s.queued + 1) s.irq s.mutex
          s.mover (omega arith)
          (keeps_own inv c lt v (add32 s.queue_fill 1) s.stat_pvalid (s.queued + 1) s.irq s.mutex
            (λ z. z) (λ a z. elim (subst (Asks s.stat_q) e a) [ ]))
          inv.at_mover)

  reset_lem :
      (q : Stat)
      → (s.cores c).phase ≡ Phase.resetting q
      → Inv n (core_step c Op.dm_wait (Phase.resetting q) s)
  unfolding core_step
  reset_lem q e =
      let v = in_phase (s.cores c) (Phase.requesting q) in
      store-Inv inv c lt v s.queue_fill 0 s.queued s.irq s.mutex s.stat_q
        (inv.counts, room_on inv c lt v s.queue_fill (rw e (omega arith)), omega arith)
        (
          inv.numbers c lt,
          λ k. inv.holds c lt (rw e refl),
          (refl, at_phase inv c lt (Phase.resetting q) e),
        )
        (λ d ld ne. (
          λ k. inv.holds d ld k,
          unanswered s.stat_pvalid s.issued s.done (s.cores d).last (s.cores d).phase
              (no_other inv c lt (rw e refl) d ld ne) (inv.at_core d ld),
        ))
        (mover_on inv c lt v s.queue_fill 0 s.queued s.irq s.mutex s.mover (omega arith)
          (keeps_own inv c lt v s.queue_fill 0 s.queued s.irq s.mutex (λ z. refl)
            (λ a z. elim (subst (Asks s.stat_q) e a) [ ]))
          inv.at_mover)

  -- The mutex's holder did not ask, so nobody did.
  nobody_asks : (q : Stat) → (s.cores c).phase ≡ Phase.requesting q → Asked n s → ⊥
  nobody_asks q e (d, ld, asks, none_yet) =
      let same : d ≡ c =
        one_holder inv d c ld lt (Asks-critical s.stat_q (s.cores d).phase asks) (rw e refl) in
      elim (subst (Asks s.stat_q) e (subst (λ d. Asks s.stat_q (s.cores d).phase) same asks)) [ ]

  self_asks : (q : Stat) → Asks q ((at s.cores c (in_phase (s.cores c) (Phase.waking q))) c).phase
  self_asks q = let same : (c == c) ≡ true = ground arith in rw same refl

  request_lem :
      (q : Stat)
      → (s.cores c).phase ≡ Phase.requesting q
      → Inv n (core_step c Op.dm_wait (Phase.requesting q) s)
  unfolding core_step
  request_lem q e =
      let v = in_phase (s.cores c) (Phase.waking q) in
      let (zero, meant) = at_phase inv c lt (Phase.requesting q) e in
      store-Inv inv c lt v s.queue_fill s.stat_pvalid s.queued s.irq s.mutex q
        (inv.counts, room_on inv c lt v s.queue_fill (rw e (omega arith)), omega arith)
        (inv.numbers c lt, λ k. inv.holds c lt (rw e refl), (λ ne. absurd (ne zero), meant))
        (λ d ld ne. (λ k. inv.holds d ld k, inv.at_core d ld))
        (new_request s
          (record (stored s c v s.queue_fill s.stat_pvalid s.queued s.irq s.mutex) { stat_q = q })
          (nobody_asks q e) (c, lt, self_asks q, zero) refl s.mover inv.at_mover)

  -- the mutex was free, so no core was under it
  nobody :
      is_free s.mutex ≡ true
      → (d : ℕ) → d < n
      → (d == c) ≡ false
      → critical (s.cores d).phase ≡ true
      → ⊥
  nobody free d ld ne k = ground (arith, inv.holds d ld k)

  -- All transfers that were queued have been started once the queue is empty.
  drained : s.queue_fill ≡ 0 → bump s.mover ≡ 0 → (s.cores c).last ≤ s.issued
  drained empty still = omega (arith, inv.counts, inv.numbers c lt)

  not_bumping : (m : Mover) → s.queue_fill ≡ 0 → MoverAt n s m → bump m ≡ 0
  not_bumping Mover.bumping empty h = absurd (omega arith)
  not_bumping _ empty h = refl

  same_room :
      (p : Phase)
      → past (in_phase (s.cores c) p) ≡ 0
      → s.queue_fill + tally past n (at s.cores c (in_phase (s.cores c) p)) ≤ 3 + n
  same_room p light = room_on inv c lt (in_phase (s.cores c) p) s.queue_fill (omega arith)

  -- The poll saw a free place; each core that saw it too adds one task.
  polled :
      ltb s.queue_fill dm_task_queue_size ≡ true
      → s.queue_fill + tally past n (at s.cores c (in_phase (s.cores c) Phase.locking)) ≤ 3 + n
  polled z =
      ground
        (arith, tally_most past n (at s.cores c (in_phase (s.cores c) Phase.locking)) past_most)

  begin_lem : (op : Op) → (s.cores c).phase ≡ Phase.idle → Inv n (goes s c (begin op))
  begin_lem Op.memcpy_async e =
      outside inv c lt Phase.idle Phase.polling s.irq e (same_room Phase.polling refl) refl (λ a. a)
        tt
  begin_lem Op.dm_start e =
      outside inv c lt Phase.idle Phase.starting s.irq e (same_room Phase.starting refl) refl
        (λ a. a) tt
  begin_lem Op.dm_wait e =
      outside inv c lt Phase.idle Phase.waking_first s.irq e (same_room Phase.waking_first refl)
        refl (λ a. a) tt
  begin_lem Op.dm_wait_ready e =
      outside inv c lt Phase.idle (Phase.acquiring Stat.ready) s.irq e
        (same_room (Phase.acquiring Stat.ready) refl) refl (λ a. a) tt

  answered_lem :
      (q : Stat)
      → (s.stat_pvalid == 0) ≡ false
      → (s.cores c).phase ≡ Phase.validating q
      → Inv n (goes s c (Phase.returning q))
  answered_lem q z e =
      inside inv c lt (Phase.validating q) (Phase.returning q) s.irq e refl refl
        (λ a none_yet. absurd (ground arith))
        ((at_phase inv c lt (Phase.validating q) e).0 (ground arith))

  pub core_step-Inv :
      (op : Op) (p : Phase) → n + 3 < 2 ^ 32 → (s.cores c).phase ≡ p → Inv n (core_step c op p s)
  unfolding core_step
  core_step-Inv op Phase.idle small e = begin_lem op e
  core_step-Inv op Phase.polling small e = elim (Bool-cases (ltb s.queue_fill dm_task_queue_size)) [
    | inl z ↦
        rw z (outside inv c lt Phase.polling Phase.locking s.irq e (polled z) refl (λ a. a) tt)
    | inr z ↦ rw z (
        outside inv c lt Phase.polling Phase.polling s.irq e (same_room Phase.polling refl) refl
          (λ a. a) tt)
  ]
  core_step-Inv op Phase.locking small e = elim (Bool-cases (is_free s.mutex)) [
    | inl z ↦ rw z (
        with_mutex inv c lt Phase.locking Phase.inserting (some c) e (rw e (omega arith))
          (λ k. refl) (nobody z) (λ a. a) tt)
    | inr z ↦ rw z inv
  ]
  core_step-Inv op Phase.inserting small e = insert_lem small e
  core_step-Inv op Phase.unlocking small e =
      with_mutex inv c lt Phase.unlocking Phase.idle none e (omega arith)
        (λ k. absurd (ground arith)) (no_other inv c lt (rw e refl)) (λ a. a) tt
  core_step-Inv op Phase.starting small e = elim (Bool-cases (s.dm_wfi == 0)) [
    | inl z ↦ rw z inv
    | inr z ↦ rw z (
        outside inv c lt Phase.starting Phase.raising_start s.irq e
          (same_room Phase.raising_start refl) refl (λ a. a) tt)
  ]
  core_step-Inv op Phase.raising_start small e =
      outside inv c lt Phase.raising_start Phase.idle 1 e (same_room Phase.idle refl) refl (λ a. a)
        tt
  core_step-Inv op Phase.waking_first small e = elim (Bool-cases (s.dm_wfi == 0)) [
    | inl z ↦ rw z inv
    | inr z ↦ rw z (
        outside inv c lt Phase.waking_first Phase.raising_first s.irq e
          (same_room Phase.raising_first refl) refl (λ a. a) tt)
  ]
  core_step-Inv op Phase.raising_first small e =
      outside inv c lt Phase.raising_first Phase.draining 1 e (same_room Phase.draining refl) refl
        (λ a. a) tt
  core_step-Inv op Phase.draining small e = elim (Bool-cases (s.queue_fill == 0)) [
    | inl z ↦
        let empty : s.queue_fill ≡ 0 = ground arith in
        rw z (
          outside inv c lt Phase.draining Phase.quieting s.irq e (same_room Phase.quieting refl)
            refl (λ a. a) (drained empty (not_bumping s.mover empty inv.at_mover)))
    | inr z ↦ rw z inv
  ]
  core_step-Inv op Phase.quieting small e = elim (Bool-cases (no_request? s.stat_q)) [
    | inl z ↦ rw z (
        outside inv c lt Phase.quieting (Phase.acquiring Stat.wait_idle) s.irq e
          (same_room (Phase.acquiring Stat.wait_idle) refl) refl (λ a. a)
          (at_phase inv c lt Phase.quieting e))
    | inr z ↦ rw z inv
  ]
  core_step-Inv op (Phase.acquiring q) small e = elim (Bool-cases (is_free s.mutex)) [
    | inl z ↦ rw z (
        with_mutex inv c lt (Phase.acquiring q) (Phase.resetting q) (some c) e (omega arith)
          (λ k. refl) (nobody z) (λ a. a) (at_phase inv c lt (Phase.acquiring q) e))
    | inr z ↦ rw z inv
  ]
  core_step-Inv op (Phase.resetting q) small e = reset_lem q e
  core_step-Inv op (Phase.requesting q) small e = request_lem q e
  core_step-Inv op (Phase.waking q) small e = elim (Bool-cases (s.dm_wfi == 0)) [
    | inl z ↦ rw z inv
    | inr z ↦ rw z (
        inside inv c lt (Phase.waking q) (Phase.raising q) s.irq e refl refl (λ a none_yet. a)
          (at_phase inv c lt (Phase.waking q) e))
  ]
  core_step-Inv op (Phase.raising q) small e =
      inside inv c lt (Phase.raising q) (Phase.validating q) 1 e refl refl (λ a none_yet. a)
        (at_phase inv c lt (Phase.raising q) e)
  core_step-Inv op (Phase.validating q) small e = elim (Bool-cases (s.stat_pvalid == 0)) [
    | inl z ↦ rw z inv
    | inr z ↦ rw z (answered_lem q z e)
  ]
  core_step-Inv op (Phase.returning q) small e =
      with_mutex inv c lt (Phase.returning q) Phase.idle none e (omega arith)
        (λ k. absurd (ground arith)) (no_other inv c lt (rw e refl)) (λ a. a) tt
