-- ===== src/Dm/Wait/Lost.antt =====
-- A request that `dm_main` clears with the one that it answered: the data mover stores `stat_pvalid`
-- and then `stat_q`, and the next request of `dm_wait_ready` may come between.
use many_rvdata.Base.{
  ℕ, ◌+◌, add32, sub32, ◌^◌, ◌<◌, ◌≡◌, refl, sym, ◌∙◌, subst, arith, ◌==◌, Bool, true, false,
  if◌then◌else◌, Bool-cases, inl, inr, some,
}
use many_rvdata.Dm.{Stat}
use many_rvdata.Dm.Wait.{
  Phase, Op, Mover, Sys, no_request?, goes, core_step, mover_step, Step, Reach, start,
}
use many_rvdata.Dm.Wait.Invariant.{critical, Asks, Inv, Asks-critical}
use many_rvdata.Dm.Wait.Safety.{Reach-Inv}
use many_rvdata.Dm.Wait.Aside.{Aside, aside_lem}

-- The data mover has no request in its hands.
abbrev deaf : Mover → Bool
deaf Mover.switching = false
deaf Mover.testing = false
deaf Mover.validating = false
deaf Mover.clearing = false
deaf _ = true

deaf_if :
    (b : Bool) (x y : Mover) → deaf x ≡ true → deaf y ≡ true → deaf (if b then x else y) ≡ true
deaf_if true x y dx dy = dx
deaf_if false x y dx dy = dy

-- Core `c` waits for an answer to a request that nobody sees any more.
record Lost (n c : ℕ) (q : Stat) (s : Sys) : Type 0 where
  waits : Asks q (s.cores c).phase
  silent : s.stat_pvalid ≡ 0
  cleared : s.stat_q ≡ Stat.no_request
  held : s.mutex ≡ some c
  others : (d : ℕ) → d < n → (d == c) ≡ false → critical (s.cores d).phase ≡ false
  unheard : deaf s.mover ≡ true

module _ {n : ℕ} {s : Sys} {c : ℕ} {q : Stat} (lost : Lost n c q s) where
  -- core `c` moves on within its wait
  waiting_on : (p : Phase) (irq : ℕ) → Asks q p → Lost n c q (record (goes s c p) { irq = irq })
  waiting_on p irq asks = record {
    waits = let same : (c == c) ≡ true = ground arith in rw same asks;
    silent = lost.silent;
    cleared = lost.cleared;
    held = lost.held;
    others = λ d ld ne. rw ne (lost.others d ld ne);
    unheard = lost.unheard;
  }

  own_lem : (op : Op) (p : Phase) → Asks q p → Lost n c q (core_step c op p s)
  unfolding core_step
  own_lem op (Phase.waking r) asks = elim (Bool-cases (s.dm_wfi == 0)) [
    | inl z ↦ rw z lost
    | inr z ↦ rw z (waiting_on (Phase.raising r) s.irq asks)
  ]
  own_lem op (Phase.raising r) asks = waiting_on (Phase.validating r) 1 asks
  own_lem op (Phase.validating r) asks =
      let no : (s.stat_pvalid == 0) ≡ true = ground (arith, lost.silent) in rw no lost
  own_lem op _ asks = elim asks [ ]

  other_lem : (d : ℕ) (t : Sys) → (d == c) ≡ false → Aside d s t → Lost n c q t
  other_lem d t ne aside =
      let unchanged : t.cores c ≡ s.cores c = aside.others c (ground arith) in
      record {
        waits = subst (λ v. Asks q v.phase) (sym unchanged) lost.waits;
        silent = aside.answer ∙ lost.silent;
        cleared = aside.request ∙ lost.cleared;
        held = aside.mutex ∙ lost.held;
        others = λ a la nc. elim (Bool-cases (a == d)) [
          | inl e ↦
              let same : d ≡ a = ground arith in
              subst (λ a. critical (t.cores a).phase ≡ false) same aside.outside
          | inr e ↦
              subst (λ v. critical v.phase ≡ false) (sym (aside.others a e)) (lost.others a la nc)
        ];
        unheard = subst (λ m. deaf m ≡ true) (sym aside.mover) lost.unheard;
      }

  core_lem : (d : ℕ) (op : Op) → d < n → Lost n c q (core_step d op (s.cores d).phase s)
  core_lem d op ld = elim (Bool-cases (d == c)) [
    | inl e ↦
        let same : c ≡ d = ground arith in
        subst (λ d. Lost n c q (core_step d op (s.cores d).phase s)) same
          (own_lem op (s.cores c).phase lost.waits)
    | inr ne ↦
        other_lem d (core_step d op (s.cores d).phase s) ne
          (aside_lem c d op (s.cores d).phase s lost.held refl (lost.others d ld ne))
  ]

  turn :
      (m : Mover) (fill wfi irq issued : ℕ)
      → deaf m ≡ true
      → Lost n c q
          (record s { mover = m; queue_fill = fill; dm_wfi = wfi; irq = irq; issued = issued })
  turn m fill wfi irq issued d = record {
    waits = lost.waits;
    silent = lost.silent;
    cleared = lost.cleared;
    held = lost.held;
    others = lost.others;
    unheard = d;
  }

  mover_lem : (m : Mover) → deaf m ≡ true → Lost n c q (mover_step m s)
  unfolding mover_step
  mover_lem Mover.top d =
      turn (if s.queue_fill == 0 then Mover.asking else Mover.issuing) s.queue_fill s.dm_wfi s.irq
        s.issued (deaf_if (s.queue_fill == 0) Mover.asking Mover.issuing refl refl)
  mover_lem Mover.issuing d = turn Mover.bumping s.queue_fill s.dm_wfi s.irq (s.issued + 1) refl
  mover_lem Mover.bumping d = turn Mover.asking (sub32 s.queue_fill 1) s.dm_wfi s.irq s.issued refl
  mover_lem Mover.asking d =
      let none_out : no_request? s.stat_q ≡ true = ground (arith, lost.cleared) in
      rw none_out (turn Mover.checking_fill s.queue_fill s.dm_wfi s.irq s.issued refl)
  mover_lem Mover.checking_fill d =
      turn (if s.queue_fill == 0 then Mover.checking_stat else Mover.top) s.queue_fill s.dm_wfi
        s.irq s.issued (deaf_if (s.queue_fill == 0) Mover.checking_stat Mover.top refl refl)
  mover_lem Mover.checking_stat d =
      turn (if no_request? s.stat_q then Mover.entering else Mover.top) s.queue_fill s.dm_wfi s.irq
        s.issued (deaf_if (no_request? s.stat_q) Mover.entering Mover.top refl refl)
  mover_lem Mover.entering d =
      turn Mover.sleeping s.queue_fill (add32 s.dm_wfi 1) s.irq s.issued refl
  mover_lem Mover.sleeping d =
      turn (if s.irq == 0 then Mover.sleeping else Mover.clearing_irq) s.queue_fill s.dm_wfi s.irq
        s.issued (deaf_if (s.irq == 0) Mover.sleeping Mover.clearing_irq refl refl)
  mover_lem Mover.clearing_irq d = turn Mover.leaving s.queue_fill s.dm_wfi s.irq s.issued refl
  mover_lem Mover.leaving d = turn Mover.top s.queue_fill (sub32 s.dm_wfi 1) s.irq s.issued refl
  mover_lem _ d = absurd (ground arith)

  engine_lem : Lost n c q (record s { done = s.done + 1 })
  engine_lem = record {
    waits = lost.waits;
    silent = lost.silent;
    cleared = lost.cleared;
    held = lost.held;
    others = lost.others;
    unheard = lost.unheard;
  }

Step-Lost : {n : ℕ} {s t : Sys} {c : ℕ} {q : Stat} → Step n s t → Lost n c q s → Lost n c q t
Step-Lost (Step.core d op ld) lost = core_lem lost d op ld
Step-Lost {n} {s} Step.move lost = mover_lem lost s.mover lost.unheard
Step-Lost (Step.complete lt) lost = engine_lem lost

Reach-Lost : {n : ℕ} {s t : Sys} {c : ℕ} {q : Stat} → Reach n s t → Lost n c q s → Lost n c q t
Reach-Lost Reach.here lost = lost
Reach-Lost (Reach.next r st) lost = Step-Lost st (Reach-Lost r lost)

outsider :
    {n : ℕ} {s : Sys} (inv : Inv n s) (c : ℕ)
    → s.mutex ≡ some c
    → (d : ℕ) → d < n
    → (d == c) ≡ false
    → critical (s.cores d).phase ≡ false
outsider {n} {s} inv c held d ld ne = elim (Bool-cases (critical (s.cores d).phase)) [
  | inl k ↦ absurd (ground (arith, inv.holds d ld k))
  | inr k ↦ k
]

cleared_lem :
    {n : ℕ} {s : Sys} (inv : Inv n s) (c : ℕ) (q : Stat)
    → c < n
    → Asks q (s.cores c).phase
    → s.stat_pvalid ≡ 0
    → Lost n c q (mover_step Mover.clearing s)
unfolding mover_step
cleared_lem {n} {s} inv c q lt asks none_yet =
    let held = inv.holds c lt (Asks-critical q (s.cores c).phase asks) in
    record {
      waits = asks;
      silent = none_yet;
      cleared = refl;
      held = held;
      others = outsider inv c held;
      unheard = refl;
    }

-- Any number of cores below 2^32 - 3. The data mover has stored its answer to a request and is about
-- to clear `stat_q`; meanwhile a core has made a new request, which is not answered. Then the data
-- mover clears the new request, and whatever happens afterwards the core goes on waiting in
-- `wake_dm` or for `stat_pvalid`, with no request out, and does not return.
pub request_lost :
    (n : ℕ) (s t : Sys) (c : ℕ) (q : Stat)
    → n + 3 < 2 ^ 32
    → Reach n start s
    → c < n
    → Asks q (s.cores c).phase
    → s.stat_pvalid ≡ 0
    → s.mover ≡ Mover.clearing
    → Reach n (mover_step s.mover s) t
    → Asks q (t.cores c).phase × (t.stat_q ≡ Stat.no_request)
request_lost n s t c q small r lt asks none_yet e later =
    let lost = Reach-Lost later (
      subst (λ m. Lost n c q (mover_step m s)) (sym e)
        (cleared_lem (Reach-Inv small r) c q lt asks none_yet)) in
    (lost.waits, lost.cleared)
