-- ===== src/Kmp/Dynamic.antt =====
-- The dynamic schedule: `__kmpc_dispatch_init_4`, `_4u`, `__kmpc_dispatch_next_4` and `_4u`. Each
-- body runs between `eu_mutex_lock` and `eu_mutex_release`, so the calls of all threads form one
-- sequence of steps on the team's state.
pub mod Laws
use many_rvdata.Base.{
  ℕ, zero, suc, ◌≡◌, ◌==◌, Bool, true, false, not, if◌then◌else◌, List, [], ◌∷◌, add32, sub32,
  slt32,
}

-- the fields of `omp_team_t` that the dynamic schedule uses
pub record Team : Type 0 where
  pub loop_start : ℕ
  pub loop_end : ℕ
  pub loop_incr : ℕ
  pub loop_chunk : ℕ
  pub loop_is_setup : ℕ

-- what a caller passes by reference
pub record Chunk : Type 0 where
  pub last : ℕ
  pub lower : ℕ
  pub upper : ℕ
  pub stride : ℕ

unfoldable pub dispatch_init_4 : (lb ub st chunk : ℕ) → Team → Team
dispatch_init_4 lb ub st chunk team =
    if team.loop_is_setup == 0
    then record {
      loop_start = lb;
      loop_end = ub;
      loop_incr = st;
      loop_chunk = chunk;
      loop_is_setup = 1;
    }
    else team

unfoldable pub dispatch_init_4u : (lb ub st chunk : ℕ) → Team → Team
unfolding dispatch_init_4
dispatch_init_4u lb ub st chunk team =
    let ilb = lb in let iub = ub in dispatch_init_4 ilb iub st chunk team

-- the branch with work left: the chunk from `loop_start` on, cut at `loop_end`
unfoldable pub next_chunk : Team → Chunk → Chunk
next_chunk team c =
    let lower' = team.loop_start in
    let upper' = sub32 (add32 lower' team.loop_chunk) 1 in
    let is_last = not (slt32 upper' team.loop_end) in
    record {
      last = if is_last then 1 else c.last;
      lower = lower';
      upper = if is_last then team.loop_end else upper';
      stride = 1;
    }

-- true for a return value of 1
unfoldable pub dispatch_next_4 : Team → Chunk → Bool × Chunk × Team
unfolding next_chunk
dispatch_next_4 team c =
    if slt32 team.loop_end team.loop_start
    then (false, record c { stride = 1 }, record team { loop_is_setup = 0 })
    else (
      true,
      next_chunk team c,
      record team { loop_start = add32 team.loop_start team.loop_chunk },
    )

-- The bounds go through signed copies, with the same words.
unfoldable pub dispatch_next_4u : Team → Chunk → Bool × Chunk × Team
unfolding dispatch_next_4
dispatch_next_4u team c =
    let p_lbi = c.lower in
    let p_ubi = c.upper in dispatch_next_4 team (record c { lower = p_lbi; upper = p_ubi })
