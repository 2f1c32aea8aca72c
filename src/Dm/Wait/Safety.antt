-- ===== src/Dm/Wait/Safety.antt =====
-- What the cores may rely on when they wait for the data mover.
use many_rvdata.Base.{ℕ, ◌+◌, ◌^◌, ◌≤◌, ◌<◌, ◌≡◌, inl, refl, subst, arith, tally, tally_zero}
use many_rvdata.Dm.{Stat}
use many_rvdata.Dm.Wait.{Phase, Sys, Step, Reach, start}
use many_rvdata.Dm.Wait.Invariant.{past, CoreAt, Inv}
use many_rvdata.Dm.Wait.Clients.{core_step-Inv}
use many_rvdata.Dm.Wait.Movers.{mover_step-Inv, complete-Inv}

start-Inv : (n : ℕ) → Inv n start
start-Inv n =
    let light : tally past n start.cores ≡ 0 = tally_zero past n start.cores (λ c lt. refl) in
    record {
      counts = refl;
      in_order = omega arith;
      room = omega (arith, light);
      numbers = λ c lt. omega arith;
      holds = λ c lt k. absurd (ground arith);
      at_core = λ c lt. tt;
      at_mover = inl refl;
    }

Step-Inv : {n : ℕ} {s t : Sys} → n + 3 < 2 ^ 32 → Step n s t → Inv n s → Inv n t
Step-Inv {s} small (Step.core c op lt) inv = core_step-Inv inv c lt op (s.cores c).phase small refl
Step-Inv {s} small Step.move inv = mover_step-Inv inv s.mover small refl
Step-Inv small (Step.complete lt) inv = complete-Inv inv lt

pub Reach-Inv : {n : ℕ} {s : Sys} → n + 3 < 2 ^ 32 → Reach n start s → Inv n s
Reach-Inv {n} small Reach.here = start-Inv n
Reach-Inv small (Reach.next r st) = Step-Inv small st (Reach-Inv small r)

-- Any number of cores below 2^32 - 3 queue transfers, start them and wait for them in any order.
-- When a core is about to return from `dm_wait`, the engine has completed at least as many transfers
-- as had been queued once the core had queued its latest one.
pub dm_wait_lem :
    (n : ℕ) (s : Sys) (c : ℕ)
    → n + 3 < 2 ^ 32
    → Reach n start s
    → c < n
    → (s.cores c).phase ≡ Phase.returning Stat.wait_idle
    → (s.cores c).last ≤ s.done
dm_wait_lem n s c small r lt e =
    subst (CoreAt s.stat_pvalid s.issued s.done (s.cores c).last) e
      ((Reach-Inv small r).at_core c lt)

-- With `n` cores, below 2^32 - 3, the fill of the ring of four never exceeds n + 3.
fill_bound : (n : ℕ) (s : Sys) → n + 3 < 2 ^ 32 → Reach n start s → s.queue_fill ≤ n + 3
fill_bound n s small r = omega (arith, (Reach-Inv small r).room)
