-- ===== src/Interrupt/Poll.antt =====
-- Reading a hart's bit, and waiting for it.
use many_rvdata.Base.{
  ℕ, zero, suc, ◌+◌, ◌*◌, ◌/◌, ◌%◌, ◌^◌, ◌<◌, ◌≡◌, ◌≢◌, refl, ◌==◌, arith, true, false, ℕ_discrete,
  subst, ◌∙◌, some, shr, shr_split,
}
use many_rvdata.Interrupt.{
  Clint, snrt_int_sw_clear, snrt_int_sw_set, snrt_int_sw_get, sw_poll_round, sw_poll,
}
use many_rvdata.Interrupt.Bits.{
  word_of_lem, place_of_lem, pending, others_keep, set-pending, clear-pending,
}

-- the bits of the harts above in the same word
abbrev pub higher : (hartid : ℕ) → Clint → ℕ
higher hartid c = shr (c.words (hartid / 32)) (suc (hartid % 32))

pub sw_get_lem :
    (hartid : ℕ) (c : Clint)
    → hartid < 2 ^ 32
    → snrt_int_sw_get hartid c ≡ pending hartid c + 2 * higher hartid c
unfolding snrt_int_sw_get
sw_get_lem hartid c fits =
    rw (word_of_lem hartid fits)
      (rw (place_of_lem hartid) (shr_split (hartid % 32) (c.words (hartid / 32))))

-- For every hart id of 32 bits: setting its software interrupt makes it pending and leaves every
-- other hart's as it was, clearing it makes it not pending and leaves every other hart's, and the
-- value read has the hart's own interrupt in its lowest bit and those of the harts above it in the
-- same word in the bits above, so that it is 1 for a pending interrupt only if none of these is.
pub sw_bits :
    (hartid h : ℕ) (c : Clint)
    → hartid < 2 ^ 32
    → (pending h (snrt_int_sw_set hartid c) ≡ others_keep hartid 1 h c)
      × (pending h (snrt_int_sw_clear hartid c) ≡ others_keep hartid 0 h c)
      × (snrt_int_sw_get hartid c ≡ pending hartid c + 2 * higher hartid c)
sw_bits hartid h c fits =
    (set-pending hartid fits c h, clear-pending hartid fits c h, sw_get_lem hartid c fits)

round_awake :
    (hartid : ℕ) (c : Clint)
    → snrt_int_sw_get hartid c ≢ 0
    → sw_poll_round hartid c ≡ (true, snrt_int_sw_clear hartid c)
unfolding sw_poll_round
round_awake hartid c some_bit =
    let awake : (snrt_int_sw_get hartid c == 0) ≡ false = ground arith in rw awake refl

round_asleep :
    (hartid : ℕ) (c : Clint) → snrt_int_sw_get hartid c ≡ 0 → sw_poll_round hartid c ≡ (false, c)
unfolding sw_poll_round
round_asleep hartid c no_bit = rw no_bit refl

module _ (others : ℕ → Clint → Clint) (hartid : ℕ) where
  ended :
      (fuel r : ℕ) (c c' : Clint)
      → sw_poll_round hartid (others r c) ≡ (true, c')
      → sw_poll others (suc fuel) r hartid c ≡ some c'
  unfolding sw_poll
  ended fuel r c c' e = rw (e, sw_poll) (rw e refl)

  again :
      (fuel r : ℕ) (c c' : Clint)
      → sw_poll_round hartid (others r c) ≡ (false, c')
      → sw_poll others (suc fuel) r hartid c ≡ sw_poll others fuel (r + 1) hartid c'
  unfolding sw_poll
  again fuel r c c' e = rw (e, sw_poll) (rw e refl)

  cleared : (c : Clint) → hartid < 2 ^ 32 → pending hartid (snrt_int_sw_clear hartid c) ≡ 0
  cleared c fits = ground (arith, clear-pending hartid fits c hartid)

  -- In any surroundings that set the hart's interrupt before round `r + k`, whatever the words are
  -- then, `snrt_int_sw_poll` ends after at most `k + 1` rounds, and the hart's interrupt is cleared.
  pub sw_poll-ends :
      (k r : ℕ) (c : Clint)
      → hartid < 2 ^ 32
      → ((d : Clint) → pending hartid (others (r + k) d) ≡ 1)
      → (c' : Clint) × (sw_poll others (suc k) r hartid c ≡ some c') × (pending hartid c' ≡ 0)
  sw_poll-ends zero r c fits comes =
      let d = others r c in
      let here : snrt_int_sw_get hartid d ≢ 0 = ground (arith, sw_get_lem hartid d fits, comes c) in
      (
        snrt_int_sw_clear hartid d,
        ended zero r c (snrt_int_sw_clear hartid d) (round_awake hartid d here),
        cleared d fits,
      )
  sw_poll-ends (suc k) r c fits comes =
      let d = others r c in
      elim (ℕ_discrete (snrt_int_sw_get hartid d) 0) [
        | no ne ↦ (
          snrt_int_sw_clear hartid d,
          ended (suc k) r c (snrt_int_sw_clear hartid d) (round_awake hartid d ne),
          cleared d fits,
        )
        | yes e ↦
            let later : r + suc k ≡ r + 1 + k = omega arith in
            let (c', ends, clear) =
              sw_poll-ends k (r + 1) d fits
                (λ x. subst (λ j. pending hartid (others j x) ≡ 1) later (comes x)) in
            (c', again (suc k) r c d (round_asleep hartid d e) ∙ ends, clear)
      ]

-- A hart that polls, with no interrupt of its own but one of a hart above it in the same word, is
-- let go at once.
pub sw_poll-early :
    (hartid : ℕ) (c : Clint)
    → hartid < 2 ^ 32
    → pending hartid c ≡ 0
    → higher hartid c ≢ 0
    → sw_poll (λ r d. d) 1 0 hartid c ≡ some (snrt_int_sw_clear hartid c)
sw_poll-early hartid c fits none_own some_higher =
    ended (λ r d. d) hartid 0 0 c (snrt_int_sw_clear hartid c)
      (round_awake hartid c (omega (arith, sw_get_lem hartid c fits)))
