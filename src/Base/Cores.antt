-- ===== src/Base/Cores.antt =====
-- One value for each core: a step of one of them, and sums over the first `n`.
use Prim.Native.Nat.{ℕ, zero, suc, ◌+◌, ◌≤◌, ◌<◌}
use mathlib.Core.Path.{◌≡◌, refl}
use native.Mathlib.Omega.{arith}
use native.Mathlib.Decide.{ℕ_discrete}
use many_rvdata.Base.Tests.{◌==◌, if◌then◌else◌}

module _ {ℓ} {A : Type ℓ} where
  abbrev pub at : (ℕ → A) → ℕ → A → ℕ → A
  at f c x a = if a == c then x else f a

  abbrev pub tally : (A → ℕ) → ℕ → (ℕ → A) → ℕ
  tally w zero f = 0
  tally w (suc n) f = w (f n) + tally w n f

  tally_skip :
      (w : A → ℕ) (n : ℕ) (f : ℕ → A) (c : ℕ) (x : A) → n ≤ c → tally w n (at f c x) ≡ tally w n f
  tally_skip w zero f c x le = refl
  tally_skip w (suc n) f c x le = ground (arith, tally_skip w n f c x)

  pub tally-at :
      (w : A → ℕ) (n : ℕ) (f : ℕ → A) (c : ℕ) (x : A)
      → c < n
      → tally w n (at f c x) + w (f c) ≡ tally w n f + w x
  tally-at w zero f c x lt = absurd (omega arith)
  tally-at w (suc n) f c x lt = elim (ℕ_discrete c n) [
    | yes e ↦ ground (arith, tally_skip w n f c x)
    | no ne ↦ ground (arith, tally-at w n f c x)
  ]

  pub tally_member : (w : A → ℕ) (n : ℕ) (f : ℕ → A) (c : ℕ) → c < n → w (f c) ≤ tally w n f
  tally_member w zero f c lt = absurd (omega arith)
  tally_member w (suc n) f c lt = elim (ℕ_discrete c n) [
    | yes e ↦ rw e (omega arith)
    | no ne ↦ omega (arith, tally_member w n f c (omega arith))
  ]

  pub tally_le :
      (w u : A → ℕ) (n : ℕ) (f : ℕ → A) → ((x : A) → w x ≤ u x) → tally w n f ≤ tally u n f
  tally_le w u zero f le = omega arith
  tally_le w u (suc n) f le = omega (arith, le (f n), tally_le w u n f le)

  -- Weights of one at most: a sum of `n`, and a sum below `n`.
  pub tally_most : (w : A → ℕ) (n : ℕ) (f : ℕ → A) → ((x : A) → w x ≤ 1) → tally w n f ≤ n
  tally_most w zero f one = omega arith
  tally_most w (suc n) f one = omega (arith, one (f n), tally_most w n f one)

  pub tally_full :
      (w : A → ℕ) (n : ℕ) (f : ℕ → A) (c : ℕ)
      → ((x : A) → w x ≤ 1)
      → tally w n f ≡ n
      → c < n
      → w (f c) ≡ 1
  tally_full w zero f c one e lt = absurd (omega arith)
  tally_full w (suc n) f c one e lt = elim (ℕ_discrete c n) [
    | yes same ↦ rw same (omega (arith, one (f n), tally_most w n f one))
    | no ne ↦ tally_full w n f c one (omega (arith, one (f n), tally_most w n f one)) (omega arith)
  ]

  pub tally_short :
      (w : A → ℕ) (n : ℕ) (f : ℕ → A)
      → ((x : A) → w x ≤ 1)
      → tally w n f < n
      → (c : ℕ) × (c < n) × (w (f c) ≡ 0)
  tally_short w zero f one lt = absurd (omega arith)
  tally_short w (suc n) f one lt = elim (ℕ_discrete (w (f n)) 0) [
    | yes e ↦ (n, omega arith, e)
    | no ne ↦
        let (c, below, e) = tally_short w n f one (omega (arith, one (f n))) in (c, omega arith, e)
  ]

  pub tally_zero :
      (w : A → ℕ) (n : ℕ) (f : ℕ → A) → ((c : ℕ) → c < n → w (f c) ≡ 0) → tally w n f ≡ 0
  tally_zero w zero f all = refl
  tally_zero w (suc n) f all =
      omega (arith, all n (omega arith), tally_zero w n f (λ c lt. all c (omega arith)))

  pub tally_ones :
      (w : A → ℕ) (n : ℕ) (f : ℕ → A) → ((c : ℕ) → c < n → w (f c) ≡ 1) → tally w n f ≡ n
  tally_ones w zero f all = refl
  tally_ones w (suc n) f all =
      omega (arith, all n (omega arith), tally_ones w n f (λ c lt. all c (omega arith)))

  pub tally_same :
      (w : A → ℕ) (n : ℕ) (f g : ℕ → A)
      → ((c : ℕ) → c < n → w (g c) ≡ w (f c))
      → tally w n g ≡ tally w n f
  tally_same w zero f g all = refl
  tally_same w (suc n) f g all =
      omega (arith, all n (omega arith), tally_same w n f g (λ c lt. all c (omega arith)))
