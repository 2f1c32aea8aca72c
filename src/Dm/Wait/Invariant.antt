-- ===== src/Dm/Wait/Invariant.antt =====
-- What every step keeps: the counts, who may be where under the mutex, and what a pending request
-- and its answer mean.
use many_rvdata.Base.{
  ℕ, ◌+◌, ◌≤◌, ◌<◌, ◌≡◌, ◌≢◌, ◌⊎◌, refl, subst, arith, Bool, true, false, some, tally,
}
use many_rvdata.Dm.{Stat}
use many_rvdata.Dm.Wait.{Phase, Core, Mover, Sys}

-- past the poll of the fill and not yet through with the insertion
abbrev pub past : Core → ℕ
past c = elim c.phase [ Phase.locking ↦ 1 | Phase.inserting ↦ 1 | _ ↦ 0 ]

abbrev pub bump : Mover → ℕ
bump m = elim m [ Mover.bumping ↦ 1 | _ ↦ 0 ]

-- under the mutex
abbrev pub critical : Phase → Bool
critical Phase.inserting = true
critical Phase.unlocking = true
critical (Phase.resetting q) = true
critical (Phase.requesting q) = true
critical (Phase.waking q) = true
critical (Phase.raising q) = true
critical (Phase.validating q) = true
critical (Phase.returning q) = true
critical _ = false

-- What a wait for the engine promises of a count; a wait for the data mover promises nothing.
abbrev pub Upto : Stat → (last count : ℕ) → Type 0
Upto Stat.wait_idle last count = last ≤ count
Upto _ last count = Unit {0}

-- A core whose latest transfer has the number `last`.
abbrev pub CoreAt : (pvalid issued done last : ℕ) → Phase → Type 0
CoreAt pvalid issued done last Phase.quieting = last ≤ issued
CoreAt pvalid issued done last (Phase.acquiring q) = Upto q last issued
CoreAt pvalid issued done last (Phase.resetting q) = Upto q last issued
CoreAt pvalid issued done last (Phase.requesting q) = (pvalid ≡ 0) × Upto q last issued
CoreAt pvalid issued done last (Phase.waking q) =
    (pvalid ≢ 0 → Upto q last done) × Upto q last issued
CoreAt pvalid issued done last (Phase.raising q) =
    (pvalid ≢ 0 → Upto q last done) × Upto q last issued
CoreAt pvalid issued done last (Phase.validating q) =
    (pvalid ≢ 0 → Upto q last done) × Upto q last issued
CoreAt pvalid issued done last (Phase.returning q) = Upto q last done
CoreAt pvalid issued done last _ = Unit {0}

-- a core whose request `q` is out
abbrev pub Asks : Stat → Phase → Type 0
Asks q (Phase.waking p) = p ≡ q
Asks q (Phase.raising p) = p ≡ q
Asks q (Phase.validating p) = p ≡ q
Asks q _ = ⊥

module _ (n : ℕ) (s : Sys) where
  -- the request is a core's, and not answered
  abbrev pub Asked : Type 0
  Asked = (c : ℕ) × (c < n) × Asks s.stat_q (s.cores c).phase × (s.stat_pvalid ≡ 0)

  abbrev pub Quiet : Type 0
  Quiet = (s.stat_q ≡ Stat.no_request) ⊎ Asked

  abbrev pub MoverAt : Mover → Type 0
  MoverAt Mover.issuing = (1 ≤ s.queue_fill) × Quiet
  MoverAt Mover.bumping = (1 ≤ s.queue_fill) × Quiet
  MoverAt Mover.switching = Asked
  MoverAt Mover.testing = Asked × (s.stat_q ≡ Stat.wait_idle)
  MoverAt Mover.validating =
      (c : ℕ) × (c < n)
      × Asks s.stat_q (s.cores c).phase
      × (s.stat_pvalid ≡ 0)
      × Upto s.stat_q (s.cores c).last s.done
  MoverAt Mover.clearing = Unit {0}
  MoverAt _ = Quiet

pub record Inv (n : ℕ) (s : Sys) : Type 0 where
  pub counts : s.issued + s.queue_fill ≡ s.queued + bump s.mover
  pub in_order : s.done ≤ s.issued
  pub room : s.queue_fill + tally past n s.cores ≤ 3 + n
  pub numbers : (c : ℕ) → c < n → (s.cores c).last ≤ s.queued
  pub holds : (c : ℕ) → c < n → critical (s.cores c).phase ≡ true → s.mutex ≡ some c
  pub at_core :
      (c : ℕ) → c < n → CoreAt s.stat_pvalid s.issued s.done (s.cores c).last (s.cores c).phase
  pub at_mover : MoverAt n s s.mover

-- The answers and counts only grow while a request is out.
pub Upto-grows : (q : Stat) (last a b : ℕ) → a ≤ b → Upto q last a → Upto q last b
Upto-grows Stat.wait_idle last a b le h = omega arith
Upto-grows _ last a b le h = tt

pub CoreAt-grows :
    (pvalid issued done last issued' done' : ℕ) (p : Phase)
    → issued ≤ issued'
    → done ≤ done'
    → CoreAt pvalid issued done last p
    → CoreAt pvalid issued' done' last p
CoreAt-grows pvalid issued done last issued' done' Phase.quieting i d h = omega arith
CoreAt-grows pvalid issued done last issued' done' (Phase.acquiring q) i d h =
    Upto-grows q last issued issued' i h
CoreAt-grows pvalid issued done last issued' done' (Phase.resetting q) i d h =
    Upto-grows q last issued issued' i h
CoreAt-grows pvalid issued done last issued' done' (Phase.requesting q) i d h =
    (h.0, Upto-grows q last issued issued' i h.1)
CoreAt-grows pvalid issued done last issued' done' (Phase.waking q) i d h =
    (λ ne. Upto-grows q last done done' d (h.0 ne), Upto-grows q last issued issued' i h.1)
CoreAt-grows pvalid issued done last issued' done' (Phase.raising q) i d h =
    (λ ne. Upto-grows q last done done' d (h.0 ne), Upto-grows q last issued issued' i h.1)
CoreAt-grows pvalid issued done last issued' done' (Phase.validating q) i d h =
    (λ ne. Upto-grows q last done done' d (h.0 ne), Upto-grows q last issued issued' i h.1)
CoreAt-grows pvalid issued done last issued' done' (Phase.returning q) i d h =
    Upto-grows q last done done' d h
CoreAt-grows pvalid issued done last issued' done' _ i d h = tt

pub Asks-critical : (q : Stat) (p : Phase) → Asks q p → critical p ≡ true
Asks-critical q (Phase.waking p) h = refl
Asks-critical q (Phase.raising p) h = refl
Asks-critical q (Phase.validating p) h = refl
Asks-critical q _ h = elim h [ ]

-- What a core whose request for an idle engine is out knows.
pub Asks-issued :
    (pvalid issued done last : ℕ) (q : Stat) (p : Phase)
    → Asks q p
    → CoreAt pvalid issued done last p
    → Upto q last issued
Asks-issued pvalid issued done last q (Phase.waking p) e h = subst (λ q. Upto q last issued) e h.1
Asks-issued pvalid issued done last q (Phase.raising p) e h = subst (λ q. Upto q last issued) e h.1
Asks-issued pvalid issued done last q (Phase.validating p) e h =
    subst (λ q. Upto q last issued) e h.1
Asks-issued pvalid issued done last q _ e h = elim e [ ]

-- Two cores under the mutex are one.
pub one_holder :
    {n : ℕ} {s : Sys} (inv : Inv n s) (c d : ℕ)
    → c < n
    → d < n
    → critical (s.cores c).phase ≡ true
    → critical (s.cores d).phase ≡ true
    → c ≡ d
one_holder inv c d lc ld p q = ground (arith, inv.holds c lc p, inv.holds d ld q)
