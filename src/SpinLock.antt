-- ===== src/SpinLock.antt =====
-- The locks that spin on one word and are released behind a fence: `spin_lock` and `spin_unlock` of
-- kernel/llist.h of the RLC test, and `mm_lock_acquire`, `printf_lock_acquire` and their releases.
-- Any number of cores run, in an order of the environment's choice. A store to the shared data goes to
-- the core's store buffer, and the fence of the release brings it to memory. Not modelled: the
-- runtime's mutexes of include/snrt.h and `spin_unlock` of software/tests/benchmark/spin_lock.c, whose
-- releases have no fence.
pub mod Laws
mod Examples
use many_rvdata.Base.{ℕ, ◌≡◌, ◌==◌, Bool, true, false, if◌then◌else◌, List, [], ◌∷◌}

-- Where a core is. Between lock and release it loads the shared data and stores it changed, and the
-- fence waits for the store.
pub data Phase {ℓ} (D : Type ℓ) : Type ℓ where
  outside swapping inside : Phase D
  loaded : D → Phase D
  -- the changed data are in the core's store buffer, and then in memory
  buffered : D → Phase D
  stored : Phase D

pub record Sys {ℓ} (D : Type ℓ) : Type ℓ where
  pub lock : ℕ
  pub phase : ℕ → Phase D
  pub shared : D
  -- the cores in the order in which their stores reach memory, latest first
  pub log : List ℕ

module _ {ℓ} {D : Type ℓ} where
  abbrev pub at : (ℕ → Phase D) → ℕ → Phase D → ℕ → Phase D
  at f c p a = if a == c then p else f a

  -- one round of `while (__sync_lock_test_and_set(lock, 1))`
  unfoldable pub test_and_set : ℕ → Sys D → Sys D
  test_and_set c s = record s {
    lock = 1;
    phase = at s.phase c (if s.lock == 0 then Phase.inside else Phase.swapping);
  }

  -- `amoswap.w zero, zero`, after the fence
  unfoldable pub release : ℕ → Sys D → Sys D
  release c s = record s { lock = 0; phase = at s.phase c Phase.outside }

  -- Core `c` changes the shared data by `op c`.
  pub data Step (op : ℕ → D → D) (s : Sys D) : Sys D → Type ℓ where
    call :
        (c : ℕ)
        → s.phase c ≡ Phase.outside
        → Step op s (record s { phase = at s.phase c Phase.swapping })
    swap : (c : ℕ) → s.phase c ≡ Phase.swapping → Step op s (test_and_set c s)
    read :
        (c : ℕ)
        → s.phase c ≡ Phase.inside
        → Step op s (record s { phase = at s.phase c (Phase.loaded s.shared) })
    write :
        (c : ℕ) (d : D)
        → s.phase c ≡ Phase.loaded d
        → Step op s (record s { phase = at s.phase c (Phase.buffered (op c d)) })
    fence :
        (c : ℕ) (d : D)
        → s.phase c ≡ Phase.buffered d
        → Step op s (record s { phase = at s.phase c Phase.stored; shared = d; log = c ∷ s.log })
    leave : (c : ℕ) → s.phase c ≡ Phase.stored → Step op s (release c s)

  pub data Reach (op : ℕ → D → D) (s : Sys D) : Sys D → Type ℓ where
    here : Reach op s s
    next : {t u : Sys D} → Reach op s t → Step op t u → Reach op s u

-- All cores are outside, and the lock is free.
abbrev pub start {ℓ} : {D : Type ℓ} → D → Sys D
start d = record { lock = 0; phase = λ c. Phase.outside; shared = d; log = [] }
