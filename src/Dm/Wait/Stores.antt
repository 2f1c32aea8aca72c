-- ===== src/Dm/Wait/Stores.antt =====
-- What a core's store keeps of the invariant: the other cores, the counts and what the data mover
-- knows of the request.
use many_rvdata.Base.{
  ℕ, ◌+◌, ◌≤◌, ◌<◌, ◌≡◌, inl, inr, refl, sym, subst, ◌∙◌, arith, ◌==◌, true, false, Bool-cases,
  Option, some, at, tally, tally-at,
}
use many_rvdata.Dm.{Stat}
use many_rvdata.Dm.Wait.{Phase, Core, Mover, Sys, goes}
use many_rvdata.Dm.Wait.Invariant.{
  past, bump, critical, Upto, CoreAt, Asks, Asked, Quiet, MoverAt, Inv, one_holder,
}

-- core `c` becomes `v`, and what a core may store is new; the request stays
abbrev pub stored : Sys → ℕ → Core → (fill pvalid queued irq : ℕ) → Option ℕ → Sys
stored s c v fill pvalid queued irq mutex = record s {
  queue_fill = fill;
  stat_pvalid = pvalid;
  queued = queued;
  irq = irq;
  mutex = mutex;
  cores = at s.cores c v;
}

abbrev pub in_phase : Core → Phase → Core
in_phase v p = record v { phase = p }

module _ {n : ℕ} {s : Sys} (inv : Inv n s) (c : ℕ) (lt : c < n) where
  pub at_phase :
      (p : Phase) → (s.cores c).phase ≡ p → CoreAt s.stat_pvalid s.issued s.done (s.cores c).last p
  at_phase p e = subst (CoreAt s.stat_pvalid s.issued s.done (s.cores c).last) e (inv.at_core c lt)

  pub room_on :
      (v : Core) (fill : ℕ)
      → fill + past v ≤ s.queue_fill + past (s.cores c)
      → fill + tally past n (at s.cores c v) ≤ 3 + n
  room_on v fill less = omega (arith, inv.room, tally-at past n s.cores c v lt)

  module _ (v : Core) (fill pvalid queued irq : ℕ) (mutex : Option ℕ) where
    abbrev t : Sys
    t = stored s c v fill pvalid queued irq mutex

    -- the new core goes on asking when it did before
    abbrev Keeps : Type 0
    Keeps =
        (d : ℕ)
        → d < n
        → Asks s.stat_q (s.cores d).phase
        → s.stat_pvalid ≡ 0
        → Asks s.stat_q (t.cores d).phase × ((t.cores d).last ≡ (s.cores d).last) × (pvalid ≡ 0)

    asked_on : Keeps → Asked n s → Asked n t
    asked_on keeps (d, ld, asks, none_yet) =
        let (on, same, zero) = keeps d ld asks none_yet in (d, ld, on, zero)

    quiet_on : Keeps → Quiet n s → Quiet n t
    quiet_on keeps (inl e) = inl e
    quiet_on keeps (inr a) = inr (asked_on keeps a)

    pub mover_on : (m : Mover) → s.queue_fill ≤ fill → Keeps → MoverAt n s m → MoverAt n t m
    mover_on Mover.top le keeps h = quiet_on keeps h
    mover_on Mover.issuing le keeps h = (omega arith, quiet_on keeps h.1)
    mover_on Mover.bumping le keeps h = (omega arith, quiet_on keeps h.1)
    mover_on Mover.asking le keeps h = quiet_on keeps h
    mover_on Mover.switching le keeps h = asked_on keeps h
    mover_on Mover.testing le keeps h = (asked_on keeps h.0, h.1)
    mover_on Mover.validating le keeps (d, ld, asks, none_yet, reached) =
        let (on, same, zero) = keeps d ld asks none_yet in
        (d, ld, on, zero, subst (λ l. Upto s.stat_q l s.done) (sym same) reached)
    mover_on Mover.clearing le keeps h = tt
    mover_on Mover.checking_fill le keeps h = quiet_on keeps h
    mover_on Mover.checking_stat le keeps h = quiet_on keeps h
    mover_on Mover.entering le keeps h = quiet_on keeps h
    mover_on Mover.sleeping le keeps h = quiet_on keeps h
    mover_on Mover.clearing_irq le keeps h = quiet_on keeps h
    mover_on Mover.leaving le keeps h = quiet_on keeps h

    -- What a step of core `c` has to show of the other cores, and of itself.
    abbrev pub Others : Type 0
    Others =
        (d : ℕ)
        → d < n
        → (d == c) ≡ false
        → (critical (s.cores d).phase ≡ true → mutex ≡ some d)
          × CoreAt pvalid s.issued s.done (s.cores d).last (s.cores d).phase

    abbrev Own : Type 0
    Own =
        (v.last ≤ queued)
        × (critical v.phase ≡ true → mutex ≡ some c)
        × CoreAt pvalid s.issued s.done v.last v.phase

    abbrev Sums : Type 0
    Sums =
        (s.issued + fill ≡ queued + bump s.mover)
        × (fill + tally past n (at s.cores c v) ≤ 3 + n)
        × (s.queued ≤ queued)

    pub store-Inv :
        (q : Stat)
        → Sums
        → Own
        → Others
        → MoverAt n (record t { stat_q = q }) s.mover
        → Inv n (record t { stat_q = q })
    store-Inv q (counts, room, more) (own_last, own_mutex, own) others h = record {
      counts = counts;
      in_order = inv.in_order;
      room = room;
      numbers = λ d ld. elim (Bool-cases (d == c)) [
        | inl e ↦ rw e own_last
        | inr e ↦ rw e (omega (arith, inv.numbers d ld))
      ];
      holds = λ d ld k. elim (Bool-cases (d == c)) [
        | inl e ↦ ground (arith, own_mutex)
        | inr e ↦ (others d ld e).0 (ground arith)
      ];
      at_core =
          λ d ld. elim (Bool-cases (d == c)) [ inl e ↦ rw e own | inr e ↦ rw e (others d ld e).1 ];
      at_mover = h;
    }

    pub keeps_own :
        (s.stat_pvalid ≡ 0 → pvalid ≡ 0)
        → (Asks s.stat_q (s.cores c).phase
            → s.stat_pvalid ≡ 0
            → Asks s.stat_q v.phase × (v.last ≡ (s.cores c).last))
        → Keeps
    keeps_own zero own d ld asks none_yet = elim (Bool-cases (d == c)) [
      | inl e ↦
          let same : d ≡ c = ground arith in
          let (on, last) = own (subst (λ d. Asks s.stat_q (s.cores d).phase) same asks) none_yet in
          rw e (
            on,
            last ∙ subst (λ d. (s.cores c).last ≡ (s.cores d).last) (sym same) refl,
            zero none_yet,
          )
      | inr e ↦ rw e (asks, refl, zero none_yet)
    ]

  pub no_other :
      critical (s.cores c).phase ≡ true
      → (d : ℕ) → d < n
      → (d == c) ≡ false
      → critical (s.cores d).phase ≡ true
      → ⊥
  no_other own d ld ne k = ground (arith, one_holder inv c d lt ld own k)

  -- The core goes on to `p`; the mutex stays, and a pending request of the core's too.
  pub advance :
      (p : Phase) (irq : ℕ)
      → s.queue_fill + tally past n (at s.cores c (in_phase (s.cores c) p)) ≤ 3 + n
      → (critical p ≡ true → critical (s.cores c).phase ≡ true)
      → (Asks s.stat_q (s.cores c).phase → s.stat_pvalid ≡ 0 → Asks s.stat_q p)
      → CoreAt s.stat_pvalid s.issued s.done (s.cores c).last p
      → Inv n (record (goes s c p) { irq = irq })
  advance p irq room mine asks own =
      let v = in_phase (s.cores c) p in
      store-Inv v s.queue_fill s.stat_pvalid s.queued irq s.mutex s.stat_q
        (inv.counts, room, omega arith) (inv.numbers c lt, λ k. inv.holds c lt (mine k), own)
        (λ d ld ne. (λ k. inv.holds d ld k, inv.at_core d ld))
        (mover_on v s.queue_fill s.stat_pvalid s.queued irq s.mutex s.mover (omega arith)
          (keeps_own v s.queue_fill s.stat_pvalid s.queued irq s.mutex (λ z. z)
            (λ a z. (asks a z, refl)))
          inv.at_mover)

  -- A step outside the mutex.
  pub outside :
      (p p' : Phase) (irq : ℕ)
      → (s.cores c).phase ≡ p
      → s.queue_fill + tally past n (at s.cores c (in_phase (s.cores c) p')) ≤ 3 + n
      → critical p' ≡ false
      → (Asks s.stat_q p → ⊥)
      → CoreAt s.stat_pvalid s.issued s.done (s.cores c).last p'
      → Inv n (record (goes s c p') { irq = irq })
  outside p p' irq e room free silent own =
      advance p' irq room (λ k. absurd (ground arith))
        (λ a none_yet. absurd (silent (subst (Asks s.stat_q) e a))) own

  -- A step under the mutex, with the request out.
  pub inside :
      (p p' : Phase) (irq : ℕ)
      → (s.cores c).phase ≡ p
      → past (in_phase (s.cores c) p') ≡ 0
      → critical p ≡ true
      → (Asks s.stat_q p → s.stat_pvalid ≡ 0 → Asks s.stat_q p')
      → CoreAt s.stat_pvalid s.issued s.done (s.cores c).last p'
      → Inv n (record (goes s c p') { irq = irq })
  inside p p' irq e light under asks own =
      advance p' irq (room_on (in_phase (s.cores c) p') s.queue_fill (omega arith))
        (λ k. rw e under) (λ a none_yet. asks (subst (Asks s.stat_q) e a) none_yet) own

  -- The core takes the mutex or gives it back.
  pub with_mutex :
      (p p' : Phase) (mutex : Option ℕ)
      → (s.cores c).phase ≡ p
      → past (in_phase (s.cores c) p') ≤ past (s.cores c)
      → (critical p' ≡ true → mutex ≡ some c)
      → ((d : ℕ) → d < n → (d == c) ≡ false → critical (s.cores d).phase ≡ true → ⊥)
      → (Asks s.stat_q p → ⊥)
      → CoreAt s.stat_pvalid s.issued s.done (s.cores c).last p'
      → Inv n (record (goes s c p') { mutex = mutex })
  with_mutex p p' mutex e less mine nobody silent own =
      let v = in_phase (s.cores c) p' in
      store-Inv v s.queue_fill s.stat_pvalid s.queued s.irq mutex s.stat_q
        (inv.counts, room_on v s.queue_fill (omega arith), omega arith)
        (inv.numbers c lt, mine, own)
        (λ d ld ne. (λ k. absurd (nobody d ld ne k), inv.at_core d ld))
        (mover_on v s.queue_fill s.stat_pvalid s.queued s.irq mutex s.mover (omega arith)
          (keeps_own v s.queue_fill s.stat_pvalid s.queued s.irq mutex (λ z. z)
            (λ a z. absurd (silent (subst (Asks s.stat_q) e a))))
          inv.at_mover)
