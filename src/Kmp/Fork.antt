-- ===== src/Kmp/Fork.antt =====
-- Parallel regions: `__kmpc_push_num_threads`, the store of the arguments in `__kmpc_fork_call`, and
-- `__microtask_wrapper`, which each thread runs. `kmpc_args` points to words, by index; only the
-- first 12 of them are allocated for it.
pub mod Laws
use many_rvdata.Base.{
  ℕ, zero, suc, ◌+◌, ◌-◌, ◌≡◌, Bool, ltb, leb, ◌==◌, if◌then◌else◌, ◌&&◌, Option, none, some, List,
  [], ◌∷◌, slt32,
}

-- `KMP_FORK_MAX_NARGS`, in omp.c
abbrev pub kmp_fork_max_nargs : ℕ
kmp_fork_max_nargs = 12

-- one call `fn(&gtid, id_addr, …)`
pub record Call : Type 0 where
  pub fn : ℕ
  pub gtid : ℕ
  pub id : ℕ
  pub args : List ℕ

-- `omp->numThreads` after the call; both numbers are `int`
unfoldable pub push_num_threads : (num_threads max_threads : ℕ) → ℕ
push_num_threads num_threads max_threads =
    if slt32 max_threads num_threads then max_threads else num_threads

-- the loop that stores the arguments, from index `i` on
pub store_args : (i : ℕ) → List ℕ → (ℕ → ℕ) → ℕ → ℕ
store_args i [] m = m
store_args i (x ∷ xs) m = store_args (i + 1) xs (λ a. if a == i then x else m a)

-- `kmpc_args` as `__kmpc_fork_call` leaves it
pub fork_args : (microtask : ℕ) → List ℕ → (ℕ → ℕ) → ℕ → ℕ
unfolding store_args
fork_args microtask args m = store_args 1 args (λ a. if a == 0 then microtask else m a)

-- `p_argv[0]` to `p_argv[n - 1]`, with `i` the index in the words
pub p_argv : (ℕ → ℕ) → (i n : ℕ) → List ℕ
p_argv m i zero = []
p_argv m i (suc n) = m i ∷ p_argv m (i + 1) n

-- The calls of `case argc` and of the cases that it falls into: those of 8 to 11 have no `break`.
-- `left` is how many cases are left, this one included.
pub cases : (ℕ → ℕ) → (id left argc : ℕ) → List Call
unfolding p_argv
cases m id zero argc = []
cases m id (suc left) argc =
    let rest = cases m id left (argc + 1) in
    let call : Call = record { fn = m 0; gtid = id; id = id; args = p_argv m 1 argc } in
    call ∷ (if leb 8 argc && leb argc 11 then rest else [])

-- `none` where the program exits: for more than 12 arguments
unfoldable pub microtask_wrapper : (ℕ → ℕ) → (argc id : ℕ) → Option (List Call)
unfolding cases
microtask_wrapper m argc id = if leb argc 12 then some (cases m id (13 - argc) argc) else none
