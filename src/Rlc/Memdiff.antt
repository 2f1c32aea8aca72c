-- ===== src/Rlc/Memdiff.antt =====
-- `memdiff32` of kernel/rlc.c, the comparison of `self_check`, and `self_check` itself as the list
-- of the packets that it reports.
use many_rvdata.Base.{
  ℕ, zero, suc, ◌+◌, ◌-◌, ◌*◌, ◌/◌, ◌%◌, ◌≤◌, ◌<◌, ◌≡◌, ◌⊎◌, refl, arith, Bool, true, ◌&&◌, ◌==◌,
  if◌then◌else◌, Option, none, some, List, [], ◌∷◌, Bool-cases, inl, inr,
}
use many_rvdata.DataMove.{Mem}
use many_rvdata.Rlc.Context.{PdcpPkg}

-- whether the words at `a` and `b` have the same bytes
abbrev pub same_word : Mem → (a b : ℕ) → Bool
same_word m a b =
    (m a == m b)
    && ((m (a + 1) == m (b + 1)) && ((m (a + 2) == m (b + 2)) && (m (a + 3) == m (b + 3))))

-- where both pointers are aligned
abbrev pub aligned : (a b : ℕ) → Bool
aligned a b = (a % 4 == 0) && (b % 4 == 0)

-- 1) The index to go on from, or the result; `left` bytes from `i` on remain.
pub head_bytes : Mem → (p q : ℕ) → (left i : ℕ) → ℕ ⊎ ℕ
head_bytes m p q zero i = inl i
head_bytes m p q (suc left) i =
    let rest = head_bytes m p q left (i + 1) in
    if aligned (p + i) (q + i) then inl i else if m (p + i) == m (q + i) then rest else inr i

-- 2) `p_32[base]` is the word at `p + 4 * base`, with `base` a number of bytes.
pub words : Mem → (p q i : ℕ) → (left k : ℕ) → Option ℕ
words m p q i zero k = none
words m p q i (suc left) k =
    let rest = words m p q i left (k + 1) in
    let base = i + k * 4 in
    if same_word m (p + i + 4 * k) (q + i + 4 * k)
    then rest
    else if same_word m (p + 4 * base) (q + 4 * base)
    then rest
    else some base

-- 3)
pub tail_bytes : Mem → (p q : ℕ) → (left i : ℕ) → Option ℕ
tail_bytes m p q zero i = none
tail_bytes m p q (suc left) i =
    let rest = tail_bytes m p q left (i + 1) in if m (p + i) == m (q + i) then rest else some i

abbrev or_else : Option ℕ → ℕ → ℕ
or_else none j = j
or_else (some i) j = i

-- from the first aligned index on, unless the result is known
after_head : Mem → (a b len_bytes : ℕ) → ℕ ⊎ ℕ → ℕ
unfolding words tail_bytes
after_head m a b len_bytes (inr i) = i
after_head m a b len_bytes (inl i) =
    let n_words = (len_bytes - i) / 4 in
    let i' = i + n_words * 4 in
    or_else (words m a b i n_words 0) (or_else (tail_bytes m a b (len_bytes - i') i') len_bytes)

pub memdiff32 : Mem → (a b len_bytes : ℕ) → ℕ
unfolding head_bytes after_head
memdiff32 m a b len_bytes = after_head m a b len_bytes (head_bytes m a b len_bytes 0)

-- the numbers of the packets that `self_check` reports as failed, from packet `i` on
pub self_check : Mem → (ℕ → PdcpPkg) → (left i : ℕ) → List ℕ
unfolding memdiff32
self_check m meta zero i = []
self_check m meta (suc left) i =
    let rest = self_check m meta left (i + 1) in
    let pkg = meta i in
    if memdiff32 m pkg.src_addr pkg.tgt_addr pkg.pkg_length == pkg.pkg_length
    then rest
    else i ∷ rest

-- the two ranges of `n` bytes hold the same
abbrev pub Equal : Mem → (p q n : ℕ) → Type 0
Equal m p q n = (j : ℕ) → j < n → m (p + j) ≡ m (q + j)

module _ (m : Mem) (p q len : ℕ) (equal : Equal m p q len) where
  head_equal :
      (left i : ℕ) → i + left ≡ len → (j : ℕ) × (head_bytes m p q left i ≡ inl j) × (j ≤ len)
  unfolding head_bytes
  head_equal zero i e = (i, refl, omega arith)
  head_equal (suc left) i e =
      let same : (m (p + i) == m (q + i)) ≡ true = ground (arith, equal i) in
      elim (Bool-cases (aligned (p + i) (q + i))) [
        | inl both ↦ (i, rw both refl, omega arith)
        | inr more ↦
            let (j, f, le) = head_equal left (i + 1) (omega arith) in (j, rw (more, same) f, le)
      ]

  words_equal : (i left k : ℕ) → i + 4 * (k + left) ≤ len → words m p q i left k ≡ none
  unfolding words
  words_equal i zero k le = refl
  words_equal i (suc left) k le =
      let same : same_word m (p + i + 4 * k) (q + i + 4 * k) ≡ true = ground (
        arith,
        equal (i + 4 * k),
        equal (i + 4 * k + 1),
        equal (i + 4 * k + 2),
        equal (i + 4 * k + 3),
      ) in
      rw same (words_equal i left (k + 1) (omega arith))

  tail_equal : (left i : ℕ) → i + left ≤ len → tail_bytes m p q left i ≡ none
  unfolding tail_bytes
  tail_equal zero i le = refl
  tail_equal (suc left) i le =
      let same : (m (p + i) == m (q + i)) ≡ true = ground (arith, equal i) in
      rw same (tail_equal left (i + 1) (omega arith))

  -- Of two ranges with the same bytes `memdiff32` says that they are equal: it returns the length.
  pub memdiff32-Equal : memdiff32 m p q len ≡ len
  unfolding memdiff32
  memdiff32-Equal =
      let (j, e, le) = head_equal len 0 (omega arith) in
      rw
        (
          e,
          words_equal j ((len - j) / 4) 0 (omega arith),
          tail_equal (len - (j + (len - j) / 4 * 4)) (j + (len - j) / 4 * 4) (omega arith),
        )
        refl

module _ (m : Mem) (p q n : ℕ)
    (missed : (k : ℕ)
      → k < n
      → (same_word m (p + 4 * k) (q + 4 * k) ≡ true)
        ⊎ (same_word m (p + 16 * k) (q + 16 * k) ≡ true)) where
  words_missed : (left k : ℕ) → k + left ≡ n → words m p q 0 left k ≡ none
  unfolding words
  words_missed zero k e = refl
  words_missed (suc left) k e =
      let a4 : p + 0 + 4 * k ≡ p + 4 * k = omega arith in
      let b4 : q + 0 + 4 * k ≡ q + 4 * k = omega arith in
      let a16 : p + 4 * (0 + k * 4) ≡ p + 16 * k = omega arith in
      let b16 : q + 4 * (0 + k * 4) ≡ q + 16 * k = omega arith in
      let rest = words_missed left (k + 1) (omega arith) in
      elim (Bool-cases (same_word m (p + 4 * k) (q + 4 * k))) [
        | inl same ↦ rw (a4, b4, same) rest
        | inr differs ↦ elim (missed k (omega arith)) [
          | inl same ↦ cc (same, differs)
          | inr far ↦ rw (a4, b4, differs, a16, b16, far) rest
        ]
      ]

  head_aligned : (left : ℕ) → p % 4 ≡ 0 → q % 4 ≡ 0 → head_bytes m p q left 0 ≡ inl 0
  unfolding head_bytes
  head_aligned zero ap aq = refl
  head_aligned (suc left) ap aq =
      let both : aligned (p + 0) (q + 0) ≡ true = ground arith in rw both refl

  -- For aligned ranges of `n` whole words, `memdiff32` also returns the length, and so says that
  -- they are equal, where each word `k` that differs has equal words at the byte offset 16 * k.
  pub memdiff32_misses : p % 4 ≡ 0 → q % 4 ≡ 0 → memdiff32 m p q (4 * n) ≡ 4 * n
  unfolding memdiff32
  memdiff32_misses ap aq =
      let quot : (4 * n - 0) / 4 ≡ n = omega arith in
      let left : 4 * n - (0 + n * 4) ≡ 0 = omega arith in
      rw (head_aligned (4 * n) ap aq, quot, words_missed n 0 (omega arith), left) refl
