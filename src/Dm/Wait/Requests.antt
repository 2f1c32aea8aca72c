-- ===== src/Dm/Wait/Requests.antt =====
-- What a new request means for the other cores and for the data mover.
use many_rvdata.Base.{ℕ, ◌≡◌, inr, refl, arith, true}
use many_rvdata.Dm.Wait.{Phase, Mover, Sys}
use many_rvdata.Dm.Wait.Invariant.{critical, CoreAt, Asked, MoverAt}

-- A new request leaves the cores alone that have none out.
pub unanswered :
    (pvalid issued done last : ℕ) (p : Phase)
    → (critical p ≡ true → ⊥)
    → CoreAt pvalid issued done last p
    → CoreAt 0 issued done last p
unanswered pvalid issued done last Phase.quieting free h = h
unanswered pvalid issued done last (Phase.acquiring q) free h = h
unanswered pvalid issued done last (Phase.resetting q) free h = absurd (free refl)
unanswered pvalid issued done last (Phase.requesting q) free h = absurd (free refl)
unanswered pvalid issued done last (Phase.waking q) free h = absurd (free refl)
unanswered pvalid issued done last (Phase.raising q) free h = absurd (free refl)
unanswered pvalid issued done last (Phase.validating q) free h = absurd (free refl)
unanswered pvalid issued done last (Phase.returning q) free h = absurd (free refl)
unanswered pvalid issued done last _ free h = tt

-- What the data mover sees of a request that comes when none is out.
module _ {n : ℕ} (s t : Sys) (none_out : Asked n s → ⊥) (asked : Asked n t)
    (same : s.queue_fill ≡ t.queue_fill) where
  pub new_request : (m : Mover) → MoverAt n s m → MoverAt n t m
  new_request Mover.top h = inr asked
  new_request Mover.issuing h = (omega arith, inr asked)
  new_request Mover.bumping h = (omega arith, inr asked)
  new_request Mover.asking h = inr asked
  new_request Mover.switching h = asked
  new_request Mover.testing h = absurd (none_out h.0)
  new_request Mover.validating (d, ld, asks, none_yet, reached) =
      absurd (none_out (d, ld, asks, none_yet))
  new_request Mover.clearing h = tt
  new_request Mover.checking_fill h = inr asked
  new_request Mover.checking_stat h = inr asked
  new_request Mover.entering h = inr asked
  new_request Mover.sleeping h = inr asked
  new_request Mover.clearing_irq h = inr asked
  new_request Mover.leaving h = inr asked
