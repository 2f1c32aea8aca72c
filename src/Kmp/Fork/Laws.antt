-- ===== src/Kmp/Fork/Laws.antt =====
-- What a thread of a parallel region calls.
use many_rvdata.Base.{
  ◌++◌, ap, ◌∙◌, ℕ, zero, suc, ◌+◌, ◌-◌, ◌≤◌, ◌<◌, ◌≡◌, refl, arith, true, false, leb, ◌==◌,
  if◌then◌else◌, ◌&&◌, some, List, [], ◌∷◌, length,
}
use many_rvdata.Kmp.Fork.{
  Call, kmp_fork_max_nargs, store_args, fork_args, p_argv, cases, microtask_wrapper,
}

store_args_other : (i : ℕ) (args : List ℕ) (m : ℕ → ℕ) (a : ℕ) → a < i → store_args i args m a ≡ m a
unfolding store_args
store_args_other i [] m a lt = refl
store_args_other i (x ∷ xs) m a lt =
    ground (arith, store_args_other (i + 1) xs (λ (b : ℕ). if b == i then x else m b) a)

store_args_above :
    (i : ℕ) (args : List ℕ) (m : ℕ → ℕ) (a : ℕ) → i + length args ≤ a → store_args i args m a ≡ m a
unfolding store_args
store_args_above i [] m a le = refl
store_args_above i (x ∷ xs) m a le =
    ground (arith, store_args_above (i + 1) xs (λ (b : ℕ). if b == i then x else m b) a)

p_argv_stored :
    (i : ℕ) (args : List ℕ) (m : ℕ → ℕ) → p_argv (store_args i args m) i (length args) ≡ args
unfolding store_args p_argv
p_argv_stored i [] m = refl
p_argv_stored i (x ∷ xs) m =
    let m' : ℕ → ℕ = λ b. if b == i then x else m b in
    let first : store_args (i + 1) xs m' i ≡ x = ground (arith, store_args_other (i + 1) xs m' i) in
    rw (first, p_argv_stored (i + 1) xs m') refl

-- the call that the program means
abbrev pub intended : (microtask id : ℕ) → List ℕ → Call
intended microtask id args = record { fn = microtask; gtid = id; id = id; args = args }

first_case :
    (microtask id left : ℕ) (args : List ℕ) (m : ℕ → ℕ)
    → cases (fork_args microtask args m) id (suc left) (length args)
      ≡ intended microtask id args
        ∷ (if leb 8 (length args) && leb (length args) 11
            then cases (fork_args microtask args m) id left (length args + 1)
            else [])
unfolding cases fork_args
first_case microtask id left args m =
    let m' : ℕ → ℕ = λ a. if a == 0 then microtask else m a in
    let fn : store_args 1 args m' 0 ≡ microtask = store_args_other 1 args m' 0 (omega arith) in
    rw (fn, p_argv_stored 1 args m') refl

cases_falls :
    (m : ℕ → ℕ) (id left argc : ℕ)
    → argc + left ≡ 13
    → 8 ≤ argc
    → length (cases m id left argc) ≡ left
unfolding cases
cases_falls m id zero argc e le = refl
cases_falls m id (suc zero) argc e le = ground arith
cases_falls m id (suc (suc left)) argc e le = ground (arith, cases_falls m id (suc left) (argc + 1))

-- After a fork with at most 7 arguments, or with 12, the wrapper calls the microtask once, with the
-- thread's number and the arguments in order.
pub microtask_wrapper-once :
    (microtask id : ℕ) (args : List ℕ) (m : ℕ → ℕ)
    → length args ≤ 12
    → (leb 8 (length args) && leb (length args) 11) ≡ false
    → microtask_wrapper (fork_args microtask args m) (length args) id
      ≡ some (intended microtask id args ∷ [])
unfolding microtask_wrapper
microtask_wrapper-once microtask id args m most breaks =
    let within : leb (length args) 12 ≡ true = ground arith in
    let left : 13 - length args ≡ suc (12 - length args) = omega arith in
    rw (within, left, first_case microtask id (12 - length args) args m, breaks) refl

-- After a fork with 8 to 11 arguments the wrapper makes the intended call and then more: with `n`
-- arguments the microtask runs 13 - n times.
pub microtask_wrapper-falls :
    (microtask id : ℕ) (args : List ℕ) (m : ℕ → ℕ)
    → 8 ≤ length args
    → length args ≤ 11
    → (rest : List Call) × (microtask_wrapper (fork_args microtask args m) (length args) id
        ≡ some (intended microtask id args ∷ rest))
      × (length rest ≡ 12 - length args)
unfolding microtask_wrapper
microtask_wrapper-falls microtask id args m eight eleven =
    let within : leb (length args) 12 ≡ true = ground arith in
    let falls : (leb 8 (length args) && leb (length args) 11) ≡ true = ground arith in
    let left : 13 - length args ≡ suc (12 - length args) = omega arith in
    (
      cases (fork_args microtask args m) id (12 - length args) (length args + 1),
      rw (within, left, first_case microtask id (12 - length args) args m, falls) refl,
      cases_falls (fork_args microtask args m) id (12 - length args) (length args + 1) (omega arith)
          (omega arith),
    )

-- A fork with at most 11 arguments writes no word past the 12 that are allocated.
pub fork_args-bounds :
    (microtask : ℕ) (args : List ℕ) (m : ℕ → ℕ) (a : ℕ)
    → length args ≤ 11
    → kmp_fork_max_nargs ≤ a
    → fork_args microtask args m a ≡ m a
unfolding fork_args
fork_args-bounds microtask args m a few out =
    ground (arith, store_args_above 1 args (λ (b : ℕ). if b == 0 then microtask else m b) a)

store_args_last :
    (i : ℕ) (xs : List ℕ) (x : ℕ) (m : ℕ → ℕ) → store_args i (xs ++ x ∷ []) m (i + length xs) ≡ x
unfolding store_args
store_args_last i [] x m = ground arith
store_args_last i (y ∷ xs) x m =
    let place : i + suc (length xs) ≡ i + 1 + length xs = omega arith in
    ap (store_args (i + 1) (xs ++ x ∷ []) (λ a. if a == i then y else m a)) place
    ∙ store_args_last (i + 1) xs x (λ a. if a == i then y else m a)

-- The last argument of a fork with `n` goes to word `n`.
pub fork_args-last :
    (microtask : ℕ) (xs : List ℕ) (x : ℕ) (m : ℕ → ℕ)
    → fork_args microtask (xs ++ x ∷ []) m (1 + length xs) ≡ x
unfolding fork_args
fork_args-last microtask xs x m = store_args_last 1 xs x (λ a. if a == 0 then microtask else m a)
