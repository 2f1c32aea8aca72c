-- ===== src/Eu/Changes.antt =====
-- What a step of core 0 makes of a worker that fits.
use many_rvdata.Base.{ℕ, ◌+◌, ◌≡◌, refl, subst, arith, ltb, true, false, if◌then◌else◌}
use many_rvdata.Eu.{Phase, Worker, Master, in_team}
use many_rvdata.Eu.Invariant.{asleep, joined, counted, Kind, kind, FitsAt, Fits}

-- A worker by its parts.
abbrev pub of : (x y z : ℕ) → Phase → Worker
of x y z p = record { phase = p; pending = x; ran = y; meant = z }

module _ (i x y z : ℕ) where
  pub booted :
      (p : Phase)
      → FitsAt Kind.first i x y z p
      → asleep (of x y z p) ≡ 1
      → FitsAt Kind.resting i x y z p
  booted Phase.joining fit one = absurd (omega arith)
  booted Phase.checking fit one = absurd (omega arith)
  booted Phase.finishing fit one = absurd (omega arith)
  booted Phase.entering fit one = fit
  booted Phase.sleeping fit one = fit
  booted _ fit one = elim fit [ ]

  pub resting-joined : (p : Phase) → FitsAt Kind.resting i x y z p → joined (of x y z p) ≡ 1
  resting-joined Phase.joining fit = elim fit [ ]
  resting-joined _ fit = refl

  pub active-joined :
      (k : ℕ) (p : Phase) → FitsAt (Kind.active k) i x y z p → joined (of x y z p) ≡ 1
  active-joined k Phase.joining fit = elim fit [ ]
  active-joined k _ fit = refl

  pub pushed :
      (k : ℕ) (p : Phase)
      → FitsAt Kind.resting i x y z p
      → asleep (of x y z p) ≡ 1
      → FitsAt (Kind.parked k) i x y (z + in_team k i) p
  pushed k Phase.sleeping fit one = omega arith
  pushed k Phase.entering fit one = absurd (omega arith)
  pushed k _ fit one = elim fit [ ]

  pub nobody :
      (k : ℕ) (p : Phase)
      → ltb 1 k ≡ false
      → FitsAt Kind.resting i x y z p
      → FitsAt Kind.resting i x y (z + in_team k i) p
  nobody k Phase.sleeping few fit = ground arith
  nobody k Phase.entering few fit = ground arith
  nobody k _ few fit = elim fit [ ]

  pub left_alone :
      (k : ℕ) (p : Phase)
      → ltb 1 k ≡ false
      → FitsAt (Kind.parked k) i x y z p
      → FitsAt Kind.resting i x y z p
  left_alone k Phase.sleeping few fit = ground arith
  left_alone k _ few fit = elim fit [ ]

  pub woken :
      (k : ℕ) (p : Phase) → FitsAt (Kind.parked k) i x y z p → FitsAt (Kind.active k) i 1 y z p
  woken k Phase.sleeping fit = fit.1
  woken k _ fit = elim fit [ ]

  pub woken-counted :
      (k : ℕ) (p : Phase) → FitsAt (Kind.parked k) i x y z p → counted (of 1 y z p) ≡ 0
  woken-counted k Phase.sleeping fit = refl
  woken-counted k _ fit = elim fit [ ]

  pub through :
      (k : ℕ) (p : Phase)
      → FitsAt (Kind.active k) i x y z p
      → counted (of x y z p) ≡ 1
      → FitsAt Kind.resting i x y z p
  through k Phase.joining fit one = elim fit [ ]
  through k Phase.entering fit one = fit
  through k Phase.sleeping fit one = ground arith
  through k _ fit one = absurd (omega arith)

pub worked_many :
    (k : ℕ)
    → ltb 1 k ≡ true
    → (i : ℕ) (w : Worker) → Fits (kind (Master.working k)) i w
    → Fits (Kind.active k) i w
worked_many k q i w = subst (λ b. Fits (if b then Kind.active k else Kind.resting) i w) q

pub worked_few :
    (k : ℕ)
    → ltb 1 k ≡ false
    → (i : ℕ) (w : Worker) → Fits (kind (Master.working k)) i w
    → Fits Kind.resting i w
worked_few k q i w = subst (λ b. Fits (if b then Kind.active k else Kind.resting) i w) q
