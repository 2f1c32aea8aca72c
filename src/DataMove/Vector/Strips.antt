-- ===== src/DataMove/Vector/Strips.antt =====
-- Each loop of the vector routines extends a copy: it starts with `copied` words moved from `s` to
-- `d`, and ends with more of them moved, in bounds.
use many_rvdata.Base.{
  ℕ, zero, suc, ◌+◌, ◌-◌, ◌*◌, ◌/◌, ◌^◌, ◌≤◌, ◌<◌, ◌≡◌, refl, ◌∙◌, ap, sym, arith, ltb, leb, ◌==◌,
  if◌then◌else◌, sub32, false, Bool-cases, inl, inr, lt→ltb, le→ltb, dec_le,
}
use many_rvdata.DataMove.{Mem, load, blit, Apart}
use many_rvdata.DataMove.Blit.{store-at, blit-at, blit-to, store-zero}
use many_rvdata.DataMove.Vector.{
  Vset, pipe_stores, pipeline, big_loop, medium_avl, medium_loop, general_loop,
}

pipe_stores-blit :
    (w d s e active c : ℕ) (m : Mem) (j : ℕ)
    → j ≤ active
    → pipe_stores w d s e e active c m j m ≡ blit m (d + w * c) (s + w * c) (w * (j * e))
unfolding pipe_stores
pipe_stores-blit w d s e active c m zero le = sym (
    ap (λ n. blit m (d + w * c) (s + w * c) n) zero_bytes
    ∙ store-zero m (d + w * c) (load m (s + w * c)))
  where
    zero_bytes : w * (0 * e) ≡ 0
    zero_bytes = omega arith
pipe_stores-blit w d s e active c m (suc j) le =
    rw (lt→ltb j active (omega arith), pipe_stores-blit w d s e active c m j (omega arith))
      (store-at m (d + w * c) (w * (j * e)) (w * e) (d + w * (c + j * e)) (w * (suc j * e))
        (load m (s + w * c)) (load m (s + w * (c + j * e))) (omega arith) (omega arith)
        (λ i. ap m (omega arith)))

-- The groups from `active` on are left out.
pipe_stores-active :
    (w d s e active c : ℕ) (m : Mem) (j : ℕ)
    → active ≤ j
    → pipe_stores w d s e e active c m j m ≡ blit m (d + w * c) (s + w * c) (w * (active * e))
unfolding pipe_stores
pipe_stores-active w d s e active c m zero le =
    pipe_stores-blit w d s e active c m zero (omega arith)
    ∙ ap (λ k. blit m (d + w * c) (s + w * c) (w * (k * e))) (omega arith)
pipe_stores-active w d s e active c m (suc j) le = elim (dec_le active j) [
  | yes below ↦ rw (le→ltb j active below) (pipe_stores-active w d s e active c m j below)
  | no last ↦
      pipe_stores-blit w d s e active c m (suc j) (omega arith)
      ∙ ap (λ k. blit m (d + w * c) (s + w * c) (w * (k * e))) (omega arith)
]

-- A pipeline of `active` full groups copies `active * e` units.
pub pipeline-blit :
    (w d s e active groups c : ℕ) (m : Mem)
    → active ≤ groups
    → pipeline w d s e e active groups c m ≡ blit m (d + w * c) (s + w * c) (w * (active * e))
unfolding pipeline
pipeline-blit w d s e active groups c m le = pipe_stores-active w d s e active c m groups le

-- The same behind `c` copied units.
pub pipeline-at :
    (w d s e active groups c n c' : ℕ) (m : Mem)
    → active ≤ groups
    → Apart d s n
    → w * c' ≤ n
    → c' ≡ c + active * e
    → pipeline w d s e e active groups c (blit m d s (w * c)) ≡ blit m d s (w * c')
pipeline-at w d s e active groups c n c' m le apart room ec =
    pipeline-blit w d s e active groups c _ le
    ∙ blit-at m d s n (w * c) (w * (active * e)) _ _ apart (omega (arith, sum)) refl refl
    ∙ ap (blit m d s) sum
  where
    sum : w * c + w * (active * e) ≡ w * c'
    sum = omega (arith, ap (λ (t : ℕ). w * t) ec)

-- What a loop over words leaves: `copied'` words are moved, no fewer than before, in bounds, and
-- fewer than `least` are left.
pub record Moved (m : Mem) (d s word_count copied least : ℕ) (r : ℕ × Mem) : Type 0 where
  pub grown : copied ≤ r.0
  pub within : r.0 ≤ word_count
  pub left : word_count < r.0 + least
  pub moved : r.1 ≡ blit m d s (4 * r.0)

sub32-eq : (a b : ℕ) → b ≤ a → a < 2 ^ 32 → sub32 a b ≡ a - b
sub32-eq a b le lt = omega arith

-- A loop whose body copies `chunk` words.
pub big_loop-Moved :
    (d s chunk word_count : ℕ) (body : ℕ → Mem → Mem) (fuel copied : ℕ) (m : Mem)
    → ((c : ℕ)
        → c + chunk ≤ word_count
        → body c (blit m d s (4 * c)) ≡ blit m d s (4 * (c + chunk)))
    → 0 < chunk
    → word_count < 2 ^ 32
    → copied ≤ word_count
    → word_count < copied + fuel
    → Moved m d s word_count copied chunk
        (big_loop chunk word_count body fuel copied (blit m d s (4 * copied)))
unfolding big_loop
big_loop-Moved d s chunk wc body zero copied m step pos small le fuel = absurd (omega arith)
big_loop-Moved d s chunk wc body (suc f) copied m step pos small le fuel =
    elim (Bool-cases (leb chunk (sub32 wc copied))) [
      | inl more ↦
          let fits : copied + chunk ≤ wc = ground arith in
          let ih =
            big_loop-Moved d s chunk wc body f (copied + chunk) m step pos small fits
              (omega arith) in
          rw (more, step copied fits)
            (record {
              grown = omega (arith, ih.grown);
              within = ih.within;
              left = ih.left;
              moved = ih.moved;
            })
      | inr stop ↦
          rw stop (record { grown = omega arith; within = le; left = ground arith; moved = refl })
    ]

medium_avl_lem :
    (e rem : ℕ)
    → 4 ≤ rem
    → 4 ≤ e
    → (4 ≤ medium_avl e rem) × (medium_avl e rem ≤ rem) × (medium_avl e rem ≤ e)
unfolding medium_avl
medium_avl_lem e rem big room = ground arith

-- The loop over single register groups leaves fewer than four words.
pub medium_loop-Moved :
    (v : Vset) (d s e n word_count fuel copied : ℕ) (m : Mem)
    → Apart d s n
    → 4 * word_count ≤ n
    → 4 ≤ e
    → word_count < 2 ^ 32
    → copied ≤ word_count
    → word_count < copied + fuel
    → Moved m d s word_count copied 4
        (medium_loop v d s e word_count fuel copied (blit m d s (4 * copied)))
unfolding medium_loop
medium_loop-Moved v d s e n wc zero copied m apart room big small le fuel = absurd (omega arith)
medium_loop-Moved v d s e n wc (suc f) copied m apart room big small le fuel =
    elim (Bool-cases (leb 4 (sub32 wc copied))) [
      | inl more ↦
          let avl : ℕ = medium_avl e (sub32 wc copied) in
          let (least, fits, one) = medium_avl_lem e (sub32 wc copied) (ground arith) big in
          let nonzero : (avl == 0) ≡ false = ground arith in
          let ih =
            medium_loop-Moved v d s e n wc f (copied + avl) m apart room big small (omega arith)
              (omega arith) in
          rw
            (
              more,
              nonzero,
              v.vl_fits e avl one,
              blit-to m d s n (4 * copied) (4 * avl) (d + 4 * copied) (s + 4 * copied)
                  (4 * (copied + avl)) apart (omega arith) refl refl (omega arith),
            )
            (record {
              grown = omega (arith, ih.grown);
              within = ih.within;
              left = ih.left;
              moved = ih.moved;
            })
      | inr stop ↦
          rw stop (record { grown = omega arith; within = le; left = ground arith; moved = refl })
    ]

-- A request for `k` full groups gets one full group.
pub vl-groups : (v : Vset) (e k : ℕ) → 0 < k → v.vl e (k * e) ≡ e
vl-groups v e zero pos = absurd (omega arith)
vl-groups v e (suc zero) pos = v.vl_fits e (1 * e) (omega arith) ∙ omega arith
vl-groups v e (suc (suc k)) pos = v.vl_full e (suc (suc k) * e) (omega arith)

positive : (k e : ℕ) → 0 < k * e → 0 < k
positive zero e pos = absurd (omega arith)
positive (suc k) e pos = omega arith

-- One round of the big chunks.
groups-step :
    (v : Vset) (d s e k groups n word_count : ℕ) (m : Mem)
    → Apart d s n
    → 4 * word_count ≤ n
    → k ≤ groups
    → 0 < k
    → (c : ℕ) → c + k * e ≤ word_count
    → pipeline 4 d s (v.vl e (k * e)) e k groups c (blit m d s (4 * c))
      ≡ blit m d s (4 * (c + k * e))
groups-step v d s e k groups n wc m apart room le pos c fits =
    rw (vl-groups v e k pos)
      (pipeline-at 4 d s e k groups c n (c + k * e) m le apart (omega arith) refl)

-- The big chunks of the general routines copy whole words, in bounds.
pub general_loop-Moved :
    (v : Vset) (d s e groups n word_count copied : ℕ) (m : Mem)
    → Apart d s n
    → 4 * word_count ≤ n
    → word_count < 2 ^ 32
    → copied ≤ word_count
    → Moved m d s word_count copied
        (word_count + 1)
        (general_loop v d s e groups word_count copied (blit m d s (4 * copied)))
unfolding general_loop
general_loop-Moved v d s e groups n wc copied m apart room small le =
    go (if ltb groups all then groups else all) (ground arith)
  where
    all : ℕ
    all = sub32 wc copied / e

    go :
        (k : ℕ)
        → k ≤ groups
        → Moved m d s wc copied (wc + 1) (
            if k * e == 0
            then (copied, blit m d s (4 * copied))
            else big_loop
                (k * e)
                wc
                (λ c m'. pipeline 4 d s (v.vl e (k * e)) e k groups c m')
                (wc + 1)
                copied
                (blit m d s (4 * copied)))
    go k le' = elim (Bool-cases (k * e == 0)) [
      | inl none_left ↦
          rw none_left
            (record { grown = omega arith; within = le; left = omega arith; moved = refl })
      | inr some_left ↦
          let pos : 0 < k * e = ground arith in
          let r =
            big_loop-Moved d s (k * e) wc (λ c m'. pipeline 4 d s (v.vl e (k * e)) e k groups c m')
              (wc + 1) copied m
              (groups-step v d s e k groups n wc m apart room le' (positive k e pos)) pos small le
              (omega arith) in
          rw some_left (record {
            grown = r.grown;
            within = r.within;
            left = omega (arith, r.grown);
            moved = r.moved;
          })
    ]
