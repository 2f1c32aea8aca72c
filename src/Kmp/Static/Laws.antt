-- ===== src/Kmp/Static/Laws.antt =====
-- With an increment of 1 (to which the compiler normalises a loop) the static schedule cuts the
-- iterations into consecutive ranges, one for each thread.
use Prim.Native.Nat.{min}
use native.Mathlib.Nat.{mul-le-mul_right, div-add-mod', mod-lt}
use many_rvdata.Base.{
  ℕ, suc, ◌+◌, ◌-◌, ◌*◌, ◌/◌, ◌%◌, ◌^◌, ◌≤◌, ◌<◌, ◌≡◌, refl, ap, sym, ◌∙◌, arith, ltb, leb, ◌==◌,
  if◌then◌else◌, ◌&&◌, not, Option, add32, sub32, mul32, slt32, sdiv32, Bool-cases, inl, inr,
}
use many_rvdata.Kmp.Static.{Bounds, SchedType, set_last, static_4, for_static_init_4u}

-- the iterations that come before those of thread `t`, when `n` are cut for `nb` threads
abbrev first : (n nb t : ℕ) → ℕ
first n nb t = t * (n / nb) + min t (n % nb)

loop_size_one :
    (lo up : ℕ) → lo ≤ up → up + 1 < 2 ^ 31 → add32 (sdiv32 (sub32 up lo) 1) 1 ≡ up - lo + 1
loop_size_one lo up le small = ground arith

module _ (b : Bounds) (nb t : ℕ) (le : b.lower ≤ b.upper) (small : b.upper + 1 < 2 ^ 31)
    (few : nb < 256) (in_team : t < nb) where
  n : ℕ
  n = b.upper - b.lower + 1

  products : (t * (n / nb) + n / nb ≤ n / nb * nb) × (n / nb * nb + n % nb ≡ n) × (n % nb < nb)
  products = (
    omega (arith, mul-le-mul_right {m = suc t} {n = nb} (n / nb) in_team),
    div-add-mod' n nb,
    mod-lt n (omega arith),
  )

  left_over : sub32 n (mul32 (n / nb) nb) ≡ n % nb
  unfolding n
  left_over = let (a, e, r) = products in omega arith

  by_test : slt32 t (n % nb) ≡ ltb t (n % nb)
  by_test = let (a, e, r) = products in ground arith

  one_more : add32 (n / nb) 1 ≡ n / nb + 1
  unfolding n
  one_more = let (a, e, r) = products in omega arith

  -- the share of `t` begins where the shares before it end, and ends where the next one begins
  share :
      ((static_4 nb t 1 b).lower ≡ b.lower + first n nb t)
      × (add32 (static_4 nb t 1 b).upper 1 ≡ b.lower + first n nb (suc t))
      × (first n nb t ≤ first n nb (suc t))
      × (first n nb (suc t) ≤ n)
  unfolding static_4 n
  share =
      let (a, e, r) = products in
      rw (loop_size_one b.lower b.upper le small, left_over, by_test)
        (elim (Bool-cases (ltb t (n % nb))) [
          | inl more ↦ rw (more, one_more) (ground arith)
          | inr fewer ↦ rw fewer (ground arith)
        ])

  upper_word : (static_4 nb t 1 b).upper < 2 ^ 32
  unfolding static_4
  upper_word = omega arith

  -- the flag by the bounds that the call leaves
  flag_by_bounds :
      (static_4 nb t 1 b).last
      ≡ set_last b.last (
          if ((static_4 nb t 1 b).upper == b.upper) && not (slt32 b.upper (static_4 nb t 1 b).lower)
          then 1
          else 0)
  unfolding static_4
  flag_by_bounds = refl

  flag :
      (static_4 nb t 1 b).last
      ≡ set_last b.last (
          if leb (static_4 nb t 1 b).lower b.upper
            && ltb b.upper (add32 (static_4 nb t 1 b).upper 1)
          then 1
          else 0)
  unfolding n
  flag =
      let (at, next, up, most) = share in
      flag_by_bounds ∙ ap (set_last b.last) (ground (arith, at, next, up, most, upper_word))

-- The iterations from `lo` to `up` cut for `nb` threads: the shares follow one another from `lo` to
-- `up`, their sizes differ by one at most, and the thread whose share holds `up` has the flag.
pub record IsSchedule (old : Option ℕ) (lo up nb : ℕ) (share : ℕ → Bounds) : Type 0 where
  pub begins : (share 0).lower ≡ lo
  pub abuts : (t : ℕ) → suc t < nb → (share (suc t)).lower ≡ add32 (share t).upper 1
  pub ends : (t : ℕ) → suc t ≡ nb → add32 (share t).upper 1 ≡ up + 1
  pub fair :
      (t : ℕ)
      → t < nb
      → ((share t).lower + (up - lo + 1) / nb ≤ add32 (share t).upper 1)
        × (add32 (share t).upper 1 ≤ (share t).lower + (up - lo + 1) / nb + 1)
  pub flagged :
      (t : ℕ)
      → t < nb
      → (share t).last
        ≡ set_last old (if leb (share t).lower up && ltb up (add32 (share t).upper 1) then 1 else 0)

first_grows :
    (n nb t : ℕ)
    → (first n nb t + n / nb ≤ first n nb (suc t))
      × (first n nb (suc t) ≤ first n nb t + n / nb + 1)
first_grows n nb t = ground arith

first_all : (n nb : ℕ) → 0 < nb → first n nb nb ≡ n
first_all n nb h = ground (arith, div-add-mod' n nb, mod-lt n h)

static_4-IsSchedule :
    (nb : ℕ) (b : Bounds)
    → b.lower ≤ b.upper
    → b.upper + 1 < 2 ^ 31
    → 0 < nb
    → nb < 256
    → IsSchedule b.last b.lower b.upper nb (λ t. static_4 nb t 1 b)
unfolding n
static_4-IsSchedule nb b le small pos few = record {
  begins = let (at, next, up, most) = share b nb 0 le small few pos in omega arith;
  abuts = λ t h.
      let (at, next, up, most) = share b nb t le small few (omega arith) in
      (share b nb (suc t) le small few h).0 ∙ sym next;
  ends = λ t h.
      let (at, next, up, most) = share b nb t le small few (omega arith) in
      let whole : first (b.upper - b.lower + 1) nb (suc t) ≡ b.upper - b.lower + 1 =
        rw h (first_all (b.upper - b.lower + 1) nb pos) in
      omega arith;
  fair = λ t h.
      let (at, next, up, most) = share b nb t le small few h in
      let (more, less) = first_grows (b.upper - b.lower + 1) nb t in (omega arith, omega arith);
  flagged = λ t h. flag b nb t le small few h;
}

-- For a loop with increment 1 whose bounds are ordered and below 2 ^ 31 - 1, and a team of at least
-- one and fewer than 256 threads, the static schedule of `__kmpc_for_static_init_4u` cuts the
-- iterations into shares that follow one another from the lower bound to the upper one, thread by
-- thread, with sizes that differ by one at most; the "last" flag is set to one for the thread whose
-- share holds the upper bound, and to zero for every other.
pub for_static_init_4u-IsSchedule :
    (nb chunk : ℕ) (b : Bounds)
    → b.lower ≤ b.upper
    → b.upper + 1 < 2 ^ 31
    → 0 < nb
    → nb < 256
    → IsSchedule b.last b.lower b.upper nb (λ t. for_static_init_4u nb t SchedType.static 1 chunk b)
unfolding for_static_init_4u
for_static_init_4u-IsSchedule nb chunk b le small pos few =
    static_4-IsSchedule nb b le small pos few
