-- ===== src/Barrier/Laws.antt =====
-- Nobody leaves a barrier before all have entered it, and not all can be stuck in it.
use many_rvdata.Base.{
  ℕ, ◌+◌, ◌%◌, ◌^◌, ◌≤◌, ◌<◌, ◌≡◌, ◌≢◌, inl, inr, arith, true, if◌then◌else◌, tally_short,
}
use many_rvdata.Barrier.{Phase, Hart, Sys, Reach, start}
use many_rvdata.Barrier.Invariant.{inside, last_one, arrived, arrived_most, FitsAt, Reach-Inv}

-- how often a hart has entered a barrier
abbrev pub entered : Hart → ℕ
entered h = h.done + (if inside h.phase then 1 else 0)

Fits-le :
    (g : ℕ) (d : ℕ) (p : Phase)
    → FitsAt g d p
    → (d ≤ g) × (g ≤ entered (record { phase = p; done = d }))
Fits-le g d Phase.outside fit = omega arith
Fits-le g d (Phase.entering prev) fit = omega arith
Fits-le g d Phase.resetting fit = omega arith
Fits-le g d Phase.bumping fit = omega arith
Fits-le g d (Phase.waiting prev) (inl e, p) = omega arith
Fits-le g d (Phase.waiting prev) (inr e, p) = omega arith

-- In every order of steps of `n` harts, at least one and fewer than 2 ^ 32, from counters of 0, no
-- hart has left more barriers than any hart has entered: nobody leaves before all have entered.
pub nobody_early :
    (n : ℕ) (s : Sys) (c d : ℕ)
    → 0 < n
    → n < 2 ^ 32
    → Reach n start s
    → c < n
    → d < n
    → (s.harts c).done ≤ entered (s.harts d)
nobody_early n s c d pos small r lc ld =
    let (g, inv) = Reach-Inv pos small r in
    omega (
      arith,
      Fits-le g (s.harts c).done (s.harts c).phase (inv.fits c lc),
      Fits-le g (s.harts d).done (s.harts d).phase (inv.fits d ld),
    )

-- A hart whose next step takes it on: it does not wait, or what it waits for has come.
abbrev pub Moves : Sys → Phase → Type 0
Moves s (Phase.waiting prev) = prev ≢ s.iteration
Moves s p = Unit {0}

last-Moves : (s : Sys) (p : Phase) → last_one p ≡ true → Moves s p
last-Moves s Phase.resetting e = tt
last-Moves s Phase.bumping e = tt
last-Moves s Phase.outside e = tt
last-Moves s (Phase.entering prev) e = tt
last-Moves s (Phase.waiting prev) e = cc

missing-Moves :
    (g : ℕ) (s : Sys) (d : ℕ) (p : Phase)
    → s.iteration ≡ g % 2 ^ 32
    → FitsAt g d p
    → arrived g (record { phase = p; done = d }) ≡ 0
    → Moves s p
missing-Moves g s d Phase.outside w fit none = tt
missing-Moves g s d (Phase.entering prev) w fit none = tt
missing-Moves g s d Phase.resetting w fit none = tt
missing-Moves g s d Phase.bumping w fit none = tt
missing-Moves g s d (Phase.waiting prev) w (inl e, q) none = absurd (ground arith)
missing-Moves g s d (Phase.waiting prev) w (inr e, q) none = λ same. omega arith

-- In every such order there is always a hart whose next step takes it on: the harts never all wait
-- for one another.
pub no_deadlock :
    (n : ℕ) (s : Sys)
    → 0 < n
    → n < 2 ^ 32
    → Reach n start s
    → (c : ℕ) × (c < n) × Moves s (s.harts c).phase
no_deadlock n s pos small r =
    let (g, inv) = Reach-Inv pos small r in
    elim inv.counted [
      | inr (all, (l, ll, is, only)) ↦ (l, ll, last-Moves s (s.harts l).phase is)
      | inl (some_missing, count, none_last) ↦
          let (c, lt, none) = tally_short (arrived g) n s.harts (arrived_most g) some_missing in
          (
            c,
            lt,
            missing-Moves g s (s.harts c).done (s.harts c).phase inv.word (inv.fits c lt) none,
          )
    ]
