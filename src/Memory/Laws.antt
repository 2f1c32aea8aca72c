-- ===== src/Memory/Laws.antt =====
-- What the copied and set ranges hold, also where source and target overlap.
use many_rvdata.Base.{
  ℕ, zero, suc, ◌+◌, ◌-◌, ◌%◌, ◌≤◌, ◌≡◌, ◌⊎◌, inl, inr, refl, subst, ◌∙◌, arith, ltb, leb, ◌&&◌,
  if◌then◌else◌,
}
use many_rvdata.DataMove.{Mem, load, store}
use many_rvdata.Memory.{copy_from, memcpy, snrt_memcpy, set_from, snrt_memset}

-- the byte that a copy of `n` bytes puts at address `a`
abbrev pub copied : (dest src n : ℕ) → Mem → ℕ → ℕ
copied dest src n m a = if leb dest a && ltb a (dest + n) then m (src + (a - dest)) else m a

-- no byte of the source is written before it is read
abbrev pub InOrder : (dest src n : ℕ) → Type 0
InOrder dest src n = (dest ≤ src) ⊎ (src + n ≤ dest)

first_byte :
    (dest src k i : ℕ) (m : Mem) (a : ℕ)
    → InOrder dest src (i + suc k)
    → copied (dest + (i + 1)) (src + (i + 1)) k (store m (dest + i) 1 (load m (src + i))) a
      ≡ copied (dest + i) (src + i) (suc k) m a
unfolding store
first_byte dest src k i m a (inl le) = ground arith
first_byte dest src k i m a (inr le) = ground arith

copy_from_lem :
    (dest src k i : ℕ) (m : Mem) (a : ℕ)
    → InOrder dest src (i + k)
    → copy_from dest src k i m a ≡ copied (dest + i) (src + i) k m a
unfolding copy_from store
copy_from_lem dest src zero i m a order = ground arith
copy_from_lem dest src (suc k) i m a order =
    let m' = store m (dest + i) 1 (load m (src + i)) in
    let count : i + suc k ≡ i + 1 + k = omega arith in
    let rest = copy_from_lem dest src k (i + 1) m' a (subst (InOrder dest src) count order) in
    rest ∙ first_byte dest src k i m a order

set_from_lem :
    (ptr value k i : ℕ) (m : Mem) (a : ℕ)
    → set_from ptr value k i m a
      ≡ (if leb (ptr + i) a && ltb a (ptr + i + k) then value % 256 else m a)
unfolding set_from store
set_from_lem ptr value zero i m a = ground arith
set_from_lem ptr value (suc k) i m a =
    ground (arith, set_from_lem ptr value k (i + 1) (store m (ptr + i) 1 (λ j. value % 256)) a)

from_zero : (n : ℕ) → n ≡ 0 + n
from_zero n = omega arith

-- `memcpy`, and so `snrt_memcpy`, of ranges that do not overlap or whose target starts first: the
-- result is `dest`, the target holds the bytes that the source held before, and no other byte
-- changes. `snrt_memset` returns its pointer, sets the range to the value's low byte and changes no
-- other byte.
pub memcpy-memset_lem :
    (dest src n value : ℕ) (m : Mem) (a : ℕ)
    → InOrder dest src n
    → ((memcpy dest src n m).0 ≡ dest)
      × ((memcpy dest src n m).1 a ≡ copied dest src n m a)
      × (snrt_memcpy dest src n m ≡ memcpy dest src n m)
      × ((snrt_memset dest value n m).0 ≡ dest)
      × ((snrt_memset dest value n m).1 a
          ≡ (if leb dest a && ltb a (dest + n) then value % 256 else m a))
unfolding memcpy snrt_memcpy snrt_memset
memcpy-memset_lem dest src n value m a order = (
  refl,
  ground (arith, copy_from_lem dest src n 0 m a (subst (InOrder dest src) (from_zero n) order)),
  refl,
  refl,
  ground (arith, set_from_lem dest value n 0 m a),
)
