-- ===== src/L1Cache/Laws.antt =====
-- The cache is not reconfigured while it is flushed, and what a configuration of the scratchpad
-- leaves of the L1 allocator.
use many_rvdata.Base.{
  ℕ, zero, suc, ◌+◌, ◌-◌, ◌*◌, ◌^◌, ◌≤◌, ◌<◌, ◌≡◌, refl, ◌∙◌, ◌==◌, arith, Bool, true, false, not,
  ◌&&◌, ltb, if◌then◌else◌, Bool-cases, inl, inr, List, [], ◌∷◌, ◌++◌, Option, some, subst,
}
use many_rvdata.Alloc.{Allocator, snrt_l1alloc, snrt_l1alloc_reset}
use many_rvdata.Alloc.Laws.{IsAllocator, l1alloc_branches}
use many_rvdata.L1Cache.{
  Reg, Access, Machine, store, poll, l1d_wait, l1d_commit, l1d_flush, l1d_xbar_commit,
  l1d_xbar_config, l1d_spm_config, l1d_part, cache_region,
}

-- a flush, or an initialisation, starts by this store
abbrev pub is_start : Reg → Bool
is_start Reg.l1d_insn_commit = true
is_start _ = false

-- these stores change where the cache keeps its lines
abbrev pub is_layout : Reg → Bool
is_layout Reg.xbar_offset_commit = true
is_layout Reg.l1d_spm_commit = true
is_layout Reg.l1d_private_reg = true
is_layout _ = false

-- A flush may be under way: none has been seen to end since the last one started.
abbrev pub flushing : List Access → Bool
flushing [] = false
flushing (Access.write reg v ∷ log) = if is_start reg then true else flushing log
flushing (Access.read reg v ∷ log) = if v == 0 then false else flushing log

abbrev pub safe : List Access → Bool
safe [] = true
safe (Access.write reg v ∷ log) = not (is_layout reg && flushing log) && safe log
safe (Access.read reg v ∷ log) = safe log

module _ (busy : ℕ → ℕ) where
  -- When the hardware is idle at the poll `k` polls from now, `l1d_wait` ends after at most `k + 1`
  -- polls; no flush is under way then, and the wait has only polled.
  pub l1d_wait-ends :
      (k : ℕ) (m : Machine)
      → busy (m.polls + k) ≡ 0
      → (m' : Machine) × (l1d_wait busy (suc k) m ≡ some m')
        × (flushing m'.log ≡ false)
        × (safe m'.log ≡ safe m.log)
        × (m'.l1 ≡ m.l1)
  unfolding l1d_wait
  l1d_wait-ends zero m idle =
      let now : (busy m.polls == 0) ≡ true = ground arith in
      (poll busy m, rw now refl, rw now refl, refl, refl)
  l1d_wait-ends (suc k) m idle = elim (Bool-cases (busy m.polls == 0)) [
    | inl now ↦ (poll busy m, rw now refl, rw now refl, refl, refl)
    | inr later ↦
        let next : m.polls + suc k ≡ m.polls + 1 + k = omega arith in
        let (m', ends, quiet, kept, l1) =
          l1d_wait-ends k (poll busy m) (subst (λ r. busy r ≡ 0) next idle) in
        (m', rw later ends, quiet, kept, l1)
  ]

-- What changes the layout: the bank bits, the scratchpad, the private banks.
pub data Layout : Type 0 where
  xbar spm part : (value : ℕ) → Layout

abbrev pub configure : (busy : ℕ → ℕ) (fuel : ℕ) → Layout → Machine → Option Machine
configure busy fuel (Layout.xbar offset) = l1d_xbar_config busy fuel offset
configure busy fuel (Layout.spm size) = l1d_spm_config busy fuel size
configure busy fuel (Layout.part size) = l1d_part busy fuel size

-- the stores after the wait, latest first
abbrev pub last_stores : Layout → List Access
last_stores (Layout.xbar offset) = Access.write Reg.xbar_offset_commit 1 ∷ []
last_stores (Layout.spm size) =
    Access.write Reg.l1d_spm_commit 1 ∷ Access.write Reg.cfg_l1d_spm size ∷ []
last_stores (Layout.part size) =
    Access.write Reg.l1d_insn_commit 1 ∷ Access.write Reg.l1d_private_reg size ∷ []

module _ (busy : ℕ → ℕ) where
  -- When the hardware is idle at the poll `k` polls from now, each of `l1d_xbar_config`,
  -- `l1d_spm_config` and `l1d_part` ends after at most `k + 1` polls. Its last stores, which commit
  -- the new layout, follow accesses after which no flush is under way; and if no layout was changed
  -- during a flush before, none is by these accesses.
  pub configure-safe :
      (op : Layout) (k : ℕ) (m : Machine)
      → busy (m.polls + k) ≡ 0
      → safe m.log ≡ true
      → (m' : Machine) × (before : List Access) × (configure busy (suc k) op m ≡ some m')
        × (m'.log ≡ last_stores op ++ before)
        × (flushing before ≡ false)
        × (safe m'.log ≡ true)
  unfolding l1d_xbar_config l1d_spm_config l1d_part l1d_flush l1d_commit l1d_xbar_commit
  configure-safe (Layout.xbar offset) k m idle ok =
      let offset' = if ltb 6 offset then offset else 6 in
      let (m', ends, quiet, kept, l1) =
        l1d_wait-ends busy k (l1d_flush (store Reg.xbar_offset offset' m)) idle in
      (l1d_xbar_commit m', m'.log, rw ends refl, refl, quiet, rw quiet (kept ∙ ok))
  configure-safe (Layout.spm size) k m idle ok =
      let (m', ends, quiet, kept, l1) = l1d_wait-ends busy k (l1d_flush m) idle in
      let alloc = (snrt_l1alloc (cache_region size) (snrt_l1alloc_reset m'.l1)).1 in
      (
        store Reg.l1d_spm_commit 1 (store Reg.cfg_l1d_spm size (record m' { l1 = alloc })),
        m'.log,
        rw ends refl,
        refl,
        quiet,
        rw quiet (kept ∙ ok),
      )
  configure-safe (Layout.part size) k m idle ok =
      let (m', ends, quiet, kept, l1) = l1d_wait-ends busy k (l1d_flush m) idle in
      (
        l1d_commit (store Reg.l1d_private_reg size m'),
        m'.log,
        rw ends refl,
        refl,
        quiet,
        rw quiet (kept ∙ ok),
      )

region_lem :
    (size : ℕ) (a : Allocator)
    → size ≤ 128
    → IsAllocator a
    → a.base + a.size + 2 ^ 18 < 2 ^ 32
    → 1024 * (128 - size) ≤ a.size
    → let alloc = (snrt_l1alloc (cache_region size) (snrt_l1alloc_reset a)).1 in
      IsAllocator alloc × (alloc.base ≡ a.base) × (alloc.next ≡ a.base + 1024 * (128 - size))
unfolding snrt_l1alloc_reset
region_lem size a small is room fit =
    let bytes : cache_region size ≡ 1024 * (128 - size) = omega arith in
    let reset = record a { next = a.base } in
    let whole : IsAllocator (record a { next = a.base }) = record {
      from = omega arith;
      to = omega arith;
      fits = is.fits;
      aligned = is.based;
      based = is.based;
      nonzero = is.nonzero;
    } in
    let (rounded, up, near, even, full, served) =
      l1alloc_branches (cache_region size) (record a { next = a.base }) whole
        (omega (arith, bytes)) in
    let (gives, good) = served (omega (arith, bytes)) in rw gives (good, refl, omega (arith, bytes))

module _ (busy : ℕ → ℕ) where
  -- With a well-formed L1 allocator and room for it, `l1d_spm_config` of at most 128 frees every
  -- block and takes the first `1024 * (128 - size)` bytes for the cache: later blocks start there.
  pub spm_config-region :
      (size k : ℕ) (m : Machine)
      → busy (m.polls + k) ≡ 0
      → size ≤ 128
      → IsAllocator m.l1
      → m.l1.base + m.l1.size + 2 ^ 18 < 2 ^ 32
      → 1024 * (128 - size) ≤ m.l1.size
      → (m' : Machine) × (l1d_spm_config busy (suc k) size m ≡ some m')
        × IsAllocator m'.l1
        × (m'.l1.base ≡ m.l1.base)
        × (m'.l1.next ≡ m.l1.base + 1024 * (128 - size))
  unfolding l1d_spm_config l1d_flush l1d_commit
  spm_config-region size k m idle small is room fit =
      let (m', ends, quiet, kept, l1) = l1d_wait-ends busy k (l1d_flush m) idle in
      let alloc = (snrt_l1alloc (cache_region size) (snrt_l1alloc_reset m'.l1)).1 in
      let (good, base, next) = region_lem size m.l1 small is room fit in
      (
        store Reg.l1d_spm_commit 1 (store Reg.cfg_l1d_spm size (record m' { l1 = alloc })),
        rw ends refl,
        rw l1 good,
        rw l1 base,
        rw l1 next,
      )
