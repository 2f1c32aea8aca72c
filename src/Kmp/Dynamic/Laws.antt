-- ===== src/Kmp/Dynamic/Laws.antt =====
-- The chunks that the threads of a team get, in the order of their calls.
use many_rvdata.Base.{
  ℕ, zero, suc, ◌+◌, ◌-◌, ◌^◌, ◌≤◌, ◌<◌, ◌≡◌, refl, ap, arith, ◌==◌, leb, true, if◌then◌else◌, List,
  [], ◌∷◌, slt32, dec_le, Bool-cases, inl, inr,
}
use many_rvdata.Kmp.Dynamic.{Team, Chunk, dispatch_init_4u, dispatch_next_4u}

-- `calls` calls of `__kmpc_dispatch_next_4u`, each with the caller's `c`: the chunks handed out, and
-- the team after the calls
pub hand_out : (calls : ℕ) → Team → Chunk → List Chunk × Team
hand_out zero team c = ([], team)
hand_out (suc calls) team c =
    let (more, chunk, team') = dispatch_next_4u team c in
    let rest = hand_out calls team' c in if more then (chunk ∷ rest.0, rest.1) else rest

-- The chunks cover the iterations from `lo` to `up` in order, each once; each has between one and
-- `size` of them, and the flag is set on the chunk that ends at `up` and left alone on the others.
abbrev pub Tiles : (size up : ℕ) (c : Chunk) → ℕ → List Chunk → Type 0
Tiles size up c lo [] = lo ≡ up + 1
Tiles size up c lo (x ∷ xs) =
    (x.lower ≡ lo)
    × (lo ≤ x.upper)
    × (x.upper < lo + size)
    × (x.last ≡ (if x.upper == up then 1 else c.last))
    × Tiles size up c (x.upper + 1) xs

-- A team of whose loop the iterations below `lo` are handed out.
abbrev At : (lo up size : ℕ) → Team → Type 0
At lo up size team = (team.loop_start ≡ lo) × (team.loop_end ≡ up) × (team.loop_chunk ≡ size)

none_left :
    (calls : ℕ) (team : Team) (c : Chunk)
    → slt32 team.loop_end team.loop_start ≡ true
    → ((hand_out calls team c).0 ≡ [])
      × (0 < calls → (hand_out calls team c).1 ≡ record team { loop_is_setup = 0 })
unfolding hand_out dispatch_next_4u
none_left zero team c h = (refl, λ p. absurd (omega arith))
none_left (suc zero) team c h = rw h (refl, λ p. refl)
none_left (suc (suc calls)) team c h =
    let (empty, after) = none_left (suc calls) (record team { loop_is_setup = 0 }) c h in
    rw h (empty, λ p. after (omega arith))

module _ (size up : ℕ) (c : Chunk) (pos : 0 < size) (small : up + size < 2 ^ 31) where
  -- a call with iterations left
  next_call :
      (team : Team)
      → team.loop_end ≡ up
      → team.loop_chunk ≡ size
      → team.loop_start ≤ up
      → let (more, x, team') = dispatch_next_4u team c in
        (more ≡ true)
        × (x.lower ≡ team.loop_start)
        × (team.loop_start ≤ x.upper)
        × (x.upper < team.loop_start + size)
        × (x.upper ≤ up)
        × (x.last ≡ (if x.upper == up then 1 else c.last))
        × (team'.loop_end ≡ up)
        × (team'.loop_chunk ≡ size)
        × (team'.loop_start ≡ team.loop_start + size)
        × (x.upper
            ≡ (if leb up (team.loop_start + size - 1) then up else team.loop_start + size - 1))
  unfolding dispatch_next_4u
  next_call team e k le = ground arith

  Tiles-rest :
      (calls : ℕ) (team : Team)
      → team.loop_end ≡ up
      → team.loop_chunk ≡ size
      → team.loop_start ≤ up + size
      → (lo : ℕ) → lo ≡ (if leb team.loop_start up then team.loop_start else up + 1)
      → up + 1 - lo < calls
      → Tiles size up c lo (hand_out calls team c).0
  unfolding hand_out
  Tiles-rest zero team e k most lo at enough = absurd (omega arith)
  Tiles-rest (suc calls) team e k most lo at enough = elim (Bool-cases (leb team.loop_start up)) [
    | inl more ↦
        let starts : team.loop_start ≤ up = ground arith in
        let (go, first, some_left, few, within, flag, e', k', next, upper) =
          next_call team e k starts in
        rw go (
          ground (arith, first),
          ground (arith, some_left),
          ground (arith, few),
          flag,
          Tiles-rest calls (dispatch_next_4u team c).2 e' k' (omega arith)
              ((dispatch_next_4u team c).1.upper + 1) (ground (arith, upper, next))
              (ground (arith, some_left)),
        )
    | inr over ↦
        let past : slt32 team.loop_end team.loop_start ≡ true = ground arith in
        rw (none_left (suc calls) team c past).0 (ground arith)
  ]

  drained :
      (calls : ℕ) (team : Team)
      → team.loop_end ≡ up
      → team.loop_chunk ≡ size
      → team.loop_start ≤ up + size
      → up + 1 - team.loop_start < calls
      → (hand_out calls team c).1.loop_is_setup ≡ 0
  unfolding hand_out
  drained zero team e k most enough = absurd (omega arith)
  drained (suc calls) team e k most enough = elim (dec_le team.loop_start up) [
    | yes starts ↦
        let (go, first, some_left, few, within, flag, e', k', next, upper) =
          next_call team e k starts in
        rw go (drained calls (dispatch_next_4u team c).2 e' k' (omega arith) (omega arith))
    | no over ↦
        let past : slt32 team.loop_end team.loop_start ≡ true = ground arith in
        ap (λ t. t.loop_is_setup) ((none_left (suc calls) team c past).1 (omega arith))
  ]

init_idle :
    (lb ub st size : ℕ) (team : Team)
    → team.loop_is_setup ≡ 0
    → dispatch_init_4u lb ub st size team ≡ record {
      loop_start = lb;
      loop_end = ub;
      loop_incr = st;
      loop_chunk = size;
      loop_is_setup = 1;
    }
unfolding dispatch_init_4u
init_idle lb ub st size team idle = ground arith

-- From a team with no loop set up, a thread sets up a loop of chunks that are not empty, with bounds
-- in order and no overflow at the end; the chunks that the following calls hand out, to whichever
-- threads and for enough of them, cover its iterations in order, each once, in chunks of the given
-- size at most, with the "last" flag set on the chunk that ends at the upper bound only.
pub hand_out-Tiles :
    (lb ub st size calls : ℕ) (team : Team) (c : Chunk)
    → team.loop_is_setup ≡ 0
    → 0 < size
    → lb ≤ ub
    → ub + size < 2 ^ 31
    → ub + 1 - lb < calls
    → Tiles size ub c lb (hand_out calls (dispatch_init_4u lb ub st size team) c).0
hand_out-Tiles lb ub st size calls team c idle pos le small enough =
    Tiles-rest size ub c pos small calls (dispatch_init_4u lb ub st size team)
      (ap (λ (t : Team). t.loop_end) (init_idle lb ub st size team idle))
      (ap (λ (t : Team). t.loop_chunk) (init_idle lb ub st size team idle))
      (omega (arith, ap (λ (t : Team). t.loop_start) (init_idle lb ub st size team idle))) lb
      (ground (arith, init_idle lb ub st size team idle)) enough

-- The same when a thread enters the loop after the others are through with it: it sets the loop up
-- again, and the calls after that hand out all iterations a second time.
pub late_init-Tiles :
    (lb ub st size calls : ℕ) (team : Team) (c : Chunk)
    → team.loop_is_setup ≡ 0
    → 0 < size
    → lb ≤ ub
    → ub + size < 2 ^ 31
    → ub + 1 - lb < calls
    → let done = (hand_out calls (dispatch_init_4u lb ub st size team) c).1 in
      Tiles size ub c lb (hand_out calls (dispatch_init_4u lb ub st size done) c).0
late_init-Tiles lb ub st size calls team c idle pos le small enough =
    let set_up = init_idle lb ub st size team idle in
    let done =
      drained size ub c pos small calls (dispatch_init_4u lb ub st size team)
        (ap (λ (t : Team). t.loop_end) set_up) (ap (λ (t : Team). t.loop_chunk) set_up)
        (omega (arith, ap (λ (t : Team). t.loop_start) set_up))
        (omega (arith, ap (λ (t : Team). t.loop_start) set_up)) in
    hand_out-Tiles lb ub st size calls (hand_out calls (dispatch_init_4u lb ub st size team) c).1 c
      done pos le small enough
