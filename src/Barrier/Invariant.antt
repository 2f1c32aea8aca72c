-- ===== src/Barrier/Invariant.antt =====
-- What every step of a hart keeps: how far each hart is against the number of complete barriers, and
-- what the counter counts.
use many_rvdata.Base.{
  ℕ, suc, ◌+◌, ◌%◌, ◌^◌, ◌≤◌, ◌<◌, ◌≡◌, ◌⊎◌, inl, inr, refl, arith, ◌==◌, Bool, true, false,
  if◌then◌else◌, at, add32, tally, tally-at, tally_full, tally_zero, Bool-cases, subst,
}
use many_rvdata.Barrier.{
  Phase, Hart, Sys, load_iteration, arrive, reset, bump, wait, Step, Reach, start,
}

-- whether a hart is past the fetch-and-add
abbrev pub inside : Phase → Bool
inside Phase.outside = false
inside (Phase.entering prev) = false
inside _ = true

abbrev pub last_one : Phase → Bool
last_one Phase.resetting = true
last_one Phase.bumping = true
last_one _ = false

-- arrived at the barrier number `g`
abbrev pub arrived : ℕ → Hart → ℕ
arrived g h = if inside h.phase then (if h.done == g then 1 else 0) else 0

pub arrived_most : (g : ℕ) (h : Hart) → arrived g h ≤ 1
arrived_most g h = ground arith

-- One hart that has left `d` barriers, when `g` barriers are complete.
abbrev pub FitsAt : (g d : ℕ) → Phase → Type 0
FitsAt g d Phase.outside = d ≡ g
FitsAt g d (Phase.entering prev) = (d ≡ g) × (prev ≡ g % 2 ^ 32)
FitsAt g d Phase.resetting = d ≡ g
FitsAt g d Phase.bumping = d ≡ g
FitsAt g d (Phase.waiting prev) = ((d ≡ g) ⊎ (d + 1 ≡ g)) × (prev ≡ d % 2 ^ 32)

abbrev pub Fits : ℕ → Hart → Type 0
Fits g h = FitsAt g h.done h.phase

-- The counter while some harts are missing, and from the last arrival to the release.
abbrev pub Counted : (n g : ℕ) → Sys → Type 0
Counted n g s =
    ((tally (arrived g) n s.harts < n)
      × (s.barrier ≡ tally (arrived g) n s.harts)
      × ((c : ℕ) → c < n → last_one (s.harts c).phase ≡ false))
    ⊎ ((tally (arrived g) n s.harts ≡ n)
        × ((l : ℕ) × (l < n)
            × (last_one (s.harts l).phase ≡ true)
            × ((c : ℕ) → c < n → last_one (s.harts c).phase ≡ true → c ≡ l)))

pub record Inv (n g : ℕ) (s : Sys) : Type 0 where
  pub word : s.iteration ≡ g % 2 ^ 32
  pub fits : (c : ℕ) → c < n → Fits g (s.harts c)
  pub counted : Counted n g s
  -- the counter is 0 once it is reset
  pub cleared : (c : ℕ) → c < n → (s.harts c).phase ≡ Phase.bumping → s.barrier ≡ 0

module _ (n g : ℕ) (f : ℕ → Hart) (c : ℕ) (h : Hart) where
  Fits-at : Fits g h → ((a : ℕ) → a < n → Fits g (f a)) → (a : ℕ) → a < n → Fits g (at f c h a)
  Fits-at new old a lt = elim (Bool-cases (a == c)) [ inl e ↦ rw e new | inr e ↦ rw e (old a lt) ]

  -- A step after which hart `c` counts as before; the counter may change in the last one's hands.
  Counted-at :
      (b b' i i' : ℕ)
      → c < n
      → arrived g h ≡ arrived g (f c)
      → last_one h.phase ≡ last_one (f c).phase
      → (b' ≡ b) ⊎ (last_one (f c).phase ≡ true)
      → Counted n g (record { barrier = b; iteration = i; harts = f })
      → Counted n g (record { barrier = b'; iteration = i'; harts = at f c h })
  Counted-at b b' i i' lt same last who (inl (some_missing, count, none_last)) = inl (
    omega (arith, tally-at (arrived g) n f c h lt),
    ground (arith, tally-at (arrived g) n f c h lt, none_last c),
    λ a la. ground (arith, none_last a la),
  )
  Counted-at b b' i i' lt same last who (inr (all, (l, ll, is, only))) = inr (
    omega (arith, tally-at (arrived g) n f c h lt),
    (l, ll, ground arith, λ a la e. ground (arith, only a la)),
  )

-- a hart that waits, when the barrier that it waits for is complete
moves_on :
    (g d : ℕ) (p : Phase)
    → FitsAt g d p
    → arrived g (record { phase = p; done = d }) ≡ 1
    → last_one p ≡ false
    → FitsAt (suc g) d p
moves_on g d Phase.outside fit one waits = absurd (omega arith)
moves_on g d (Phase.entering prev) fit one waits = absurd (omega arith)
moves_on g d Phase.resetting fit one waits = cc
moves_on g d Phase.bumping fit one waits = cc
moves_on g d (Phase.waiting prev) (who, e) one waits = (inr (ground arith), e)

alone : {b : Bool} (a c l : ℕ) → (a == c) ≡ false → c ≡ l → (b ≡ true → a ≡ l) → b ≡ false
alone {b} a c l ne mine only = elim (Bool-cases b) [
  | inl t ↦ absurd (ground (arith, only t))
  | inr t ↦ t
]

module _ {n g : ℕ} {s : Sys} (inv : Inv n g s) (c : ℕ) (lt : c < n) where
  fits_as : (p : Phase) → (s.harts c).phase ≡ p → FitsAt g (s.harts c).done p
  fits_as p e = subst (λ p. FitsAt g (s.harts c).done p) e (inv.fits c lt)

  enter_lem : (s.harts c).phase ≡ Phase.outside → Inv n g (load_iteration c s)
  unfolding load_iteration
  enter_lem e =
      let h : Hart = record (s.harts c) { phase = Phase.entering s.iteration } in
      let own = fits_as Phase.outside e in
      record {
        word = inv.word;
        fits = Fits-at n g s.harts c h (own, inv.word) inv.fits;
        counted =
            Counted-at n g s.harts c h s.barrier s.barrier s.iteration s.iteration lt (rw e refl)
              (rw e refl) (inl refl) inv.counted;
        cleared = λ a la p. ground (arith, inv.cleared a la);
      }

  clear_lem : (s.harts c).phase ≡ Phase.resetting → Inv n g (reset c s)
  unfolding reset
  clear_lem e =
      let h : Hart = record (s.harts c) { phase = Phase.bumping } in
      let own = fits_as Phase.resetting e in
      record {
        word = inv.word;
        fits = Fits-at n g s.harts c h own inv.fits;
        counted =
            Counted-at n g s.harts c h s.barrier 0 s.iteration s.iteration lt (rw e refl)
              (rw e refl) (inr (rw e refl)) inv.counted;
        cleared = λ a la p. refl;
      }

  add_lem :
      (prev : ℕ)
      → n < 2 ^ 32
      → (s.harts c).phase ≡ Phase.entering prev
      → Inv n g (arrive n c prev s)
  unfolding arrive
  add_lem prev small e =
      let (own, loaded) = fits_as (Phase.entering prev) e in
      let not_yet : arrived g (s.harts c) ≡ 0 = rw e refl in
      elim inv.counted [
        | inr (all, rest) ↦
            absurd (omega (arith, tally_full (arrived g) n s.harts c (arrived_most g) all lt))
        | inl (some_missing, count, none_last) ↦ elim (Bool-cases (add32 s.barrier 1 == n)) [
          | inl last ↦
              let h : Hart = record (s.harts c) { phase = Phase.resetting } in
              let weight : arrived g h ≡ 1 = ground arith in
              rw last (record {
                word = inv.word;
                fits = Fits-at n g s.harts c h own inv.fits;
                counted = inr (
                  ground (arith, tally-at (arrived g) n s.harts c h lt),
                  (c, lt, ground arith, λ a la is. ground (arith, none_last a la)),
                );
                cleared = λ a la p. ground (arith, none_last a la);
              })
          | inr more ↦
              let h : Hart = record (s.harts c) { phase = Phase.waiting prev } in
              let weight : arrived g h ≡ 1 = ground arith in
              rw more (record {
                word = inv.word;
                fits = Fits-at n g s.harts c h (inl own, ground arith) inv.fits;
                counted = inl (
                  ground (arith, tally-at (arrived g) n s.harts c h lt),
                  ground (arith, tally-at (arrived g) n s.harts c h lt),
                  λ a la. ground (arith, none_last a la),
                );
                cleared = λ a la p. ground (arith, none_last a la);
              })
        ]
      ]

  poll_lem : (prev : ℕ) → (s.harts c).phase ≡ Phase.waiting prev → Inv n g (wait c prev s)
  unfolding wait
  poll_lem prev e =
      let (who, loaded) = fits_as (Phase.waiting prev) e in
      elim (Bool-cases (prev == s.iteration)) [
        | inl same ↦
            let h : Hart = record (s.harts c) { phase = Phase.waiting prev } in
            rw same (record {
              word = inv.word;
              fits = Fits-at n g s.harts c h (who, loaded) inv.fits;
              counted =
                  Counted-at n g s.harts c h s.barrier s.barrier s.iteration s.iteration lt
                    (rw e refl) (rw e refl) (inl refl) inv.counted;
              cleared = λ a la p. ground (arith, inv.cleared a la);
            })
        | inr new ↦
            let h : Hart = record { phase = Phase.outside; done = (s.harts c).done + 1 } in
            let next : (s.harts c).done + 1 ≡ g = ground (arith, inv.word) in
            rw new (record {
              word = inv.word;
              fits = Fits-at n g s.harts c h next inv.fits;
              counted =
                  Counted-at n g s.harts c h s.barrier s.barrier s.iteration s.iteration lt
                    (rw e (ground arith)) (rw e refl) (inl refl) inv.counted;
              cleared = λ a la p. ground (arith, inv.cleared a la);
            })
      ]

  release_lem : (s.harts c).phase ≡ Phase.bumping → Inv n (suc g) (bump c s)
  unfolding bump
  release_lem e =
      let own = fits_as Phase.bumping e in
      let h : Hart = record { phase = Phase.outside; done = (s.harts c).done + 1 } in
      elim inv.counted [
        | inl (some_missing, count, none_last) ↦ absurd (ground (arith, none_last c lt))
        | inr (all, (l, ll, is, only)) ↦
            let full =
              λ (a : ℕ) (la : a < n). tally_full (arrived g) n s.harts a (arrived_most g) all la in
            let mine : c ≡ l = only c lt (rw e refl) in
            let others =
              λ (a : ℕ) (la : a < n) (ne : (a == c) ≡ false). alone a c l ne mine (only a la) in
            let none : tally (arrived (suc g)) n (at s.harts c h) ≡ 0 =
              tally_zero (arrived (suc g)) n (at s.harts c h) (λ a la. ground (arith, full a la)) in
            record {
              word = omega (arith, inv.word);
              fits = λ a la. elim (Bool-cases (a == c)) [
                | inl q ↦ rw q (omega arith)
                | inr q ↦ rw q (
                    moves_on g (s.harts a).done (s.harts a).phase (inv.fits a la) (full a la)
                      (others a la q))
              ];
              counted = inl (
                omega (arith, none),
                omega (arith, none, inv.cleared c lt e),
                λ a la. elim (Bool-cases (a == c)) [
                  | inl q ↦ rw q refl
                  | inr q ↦ rw q (others a la q)
                ],
              );
              cleared = λ a la p. inv.cleared c lt e;
            }
      ]

Step-Inv : {n : ℕ} {s t : Sys} (g : ℕ) → n < 2 ^ 32 → Step n s t → Inv n g s → (g' : ℕ) × Inv n g' t
Step-Inv g small (Step.enter c lt e) inv = (g, enter_lem inv c lt e)
Step-Inv g small (Step.add c prev lt e) inv = (g, add_lem inv c lt prev small e)
Step-Inv g small (Step.clear c lt e) inv = (g, clear_lem inv c lt e)
Step-Inv g small (Step.release c lt e) inv = (suc g, release_lem inv c lt e)
Step-Inv g small (Step.poll c prev lt e) inv = (g, poll_lem inv c lt prev e)

start-Inv : (n : ℕ) → 0 < n → Inv n 0 start
start-Inv n pos =
    let none : tally (arrived 0) n start.harts ≡ 0 =
      tally_zero (arrived 0) n start.harts (λ c lt. refl) in
    record {
      word = refl;
      fits = λ c lt. refl;
      counted = inl (omega (arith, none), omega (arith, none), λ c lt. refl);
      cleared = λ c lt e. refl;
    }

pub Reach-Inv : {n : ℕ} {s : Sys} → 0 < n → n < 2 ^ 32 → Reach n start s → (g : ℕ) × Inv n g s
Reach-Inv {n} pos small Reach.here = (0, start-Inv n pos)
Reach-Inv pos small (Reach.next r st) =
    let (g, inv) = Reach-Inv pos small r in Step-Inv g small st inv
