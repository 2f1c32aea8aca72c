-- ===== src/Kmp/Static.antt =====
-- The static schedule: `__kmpc_for_static_init_4`, `_4u` and `_8u`. `nb_threads` is a `char`, below
-- 256. `last` is what `plastiter` points to, `none` for NULL.
pub mod Laws
use many_rvdata.Base.{
  ℕ, ◌+◌, ◌/◌, ◌%◌, ◌≡◌, ◌==◌, if◌then◌else◌, ◌&&◌, not, Option, none, some, add32, sub32, mul32,
  slt32, sdiv32, smod32, add64, sub64, mul64, slt64, ltb, leb,
}

pub data SchedType : Type 0 where
  static_chunked static other : SchedType

pub record Bounds : Type 0 where
  pub last : Option ℕ
  pub lower : ℕ
  pub upper : ℕ
  pub stride : ℕ

-- a C truth value, written through a pointer that may be NULL
abbrev pub set_last : Option ℕ → ℕ → Option ℕ
set_last none v = none
set_last (some old) v = some v

unfoldable pub static_chunked_4 : (nb_threads thread_num incr chunk : ℕ) → Bounds → Bounds
static_chunked_4 nb_threads thread_num incr chunk b =
    let span = mul32 incr chunk in
    let stride' = mul32 span nb_threads in
    let lower' = add32 b.lower (mul32 span thread_num) in
    let upper' = sub32 (add32 lower' span) incr in
    let begin_last_chunk = sub32 b.upper (smod32 b.upper span) in
    record {
      last = set_last b.last (if smod32 (sub32 begin_last_chunk lower') stride' == 0 then 1 else 0);
      lower = lower';
      upper = upper';
      stride = stride';
    }

unfoldable pub static_4 : (nb_threads thread_num incr : ℕ) → Bounds → Bounds
static_4 nb_threads thread_num incr b =
    let loop_size = add32 (sdiv32 (sub32 b.upper b.lower) incr) 1 in
    let chunk = loop_size / nb_threads in
    let left_over = sub32 loop_size (mul32 chunk nb_threads) in
    let extra = slt32 thread_num left_over in
    let chunk' = if extra then add32 chunk 1 else chunk in
    let base = add32 b.lower (mul32 (mul32 thread_num chunk') incr) in
    let lower' = if extra then base else add32 base left_over in
    let upper' = sub32 (add32 lower' (mul32 chunk' incr)) incr in
    record {
      last = set_last b.last (if (upper' == b.upper) && not (slt32 b.upper lower') then 1 else 0);
      lower = lower';
      upper = upper';
      stride = loop_size;
    }

unfoldable pub for_static_init_4 :
    (nb_threads thread_num : ℕ) → SchedType → (incr chunk : ℕ) → Bounds → Bounds
unfolding static_chunked_4 static_4
for_static_init_4 nb_threads thread_num static_chunked incr chunk b =
    static_chunked_4 nb_threads thread_num incr chunk b
for_static_init_4 nb_threads thread_num static incr chunk b = static_4 nb_threads thread_num incr b
for_static_init_4 nb_threads thread_num other incr chunk b = b

-- The bounds are copied to signed variables and back, with the same words.
unfoldable pub for_static_init_4u :
    (nb_threads thread_num : ℕ) → SchedType → (incr chunk : ℕ) → Bounds → Bounds
unfolding for_static_init_4
for_static_init_4u nb_threads thread_num sched incr chunk b =
    let ilower = b.lower in
    let iupper = b.upper in
    for_static_init_4 nb_threads thread_num sched incr chunk
      (record b { lower = ilower; upper = iupper })

unfoldable pub static_chunked_8u : (nb_threads thread_num incr chunk : ℕ) → Bounds → Bounds
static_chunked_8u nb_threads thread_num incr chunk b =
    let span = mul64 incr chunk in
    let stride' = mul64 span nb_threads in
    let lower' = add64 b.lower (mul64 span thread_num) in
    let upper' = sub64 (add64 lower' span) incr in
    let begin_last_chunk = sub64 b.upper (b.upper % span) in
    record {
      last = set_last b.last (if sub64 begin_last_chunk lower' % stride' == 0 then 1 else 0);
      lower = lower';
      upper = upper';
      stride = stride';
    }

-- `uint64_t` against `int64_t`: the division and the last comparison are unsigned.
unfoldable pub static_8u : (nb_threads thread_num incr : ℕ) → Bounds → Bounds
static_8u nb_threads thread_num incr b =
    let loop_size = add64 (sub64 b.upper b.lower / incr) 1 in
    let chunk = loop_size / nb_threads in
    let left_over = sub64 loop_size (mul64 chunk nb_threads) in
    let extra = slt64 thread_num left_over in
    let chunk' = if extra then add64 chunk 1 else chunk in
    let base = add64 b.lower (mul64 (mul64 thread_num chunk') incr) in
    let lower' = if extra then base else add64 base left_over in
    let upper' = sub64 (add64 lower' (mul64 chunk' incr)) incr in
    record {
      last = set_last b.last (if (upper' == b.upper) && leb lower' b.upper then 1 else 0);
      lower = lower';
      upper = upper';
      stride = loop_size;
    }

unfoldable pub for_static_init_8u :
    (nb_threads thread_num : ℕ) → SchedType → (incr chunk : ℕ) → Bounds → Bounds
unfolding static_chunked_8u static_8u
for_static_init_8u nb_threads thread_num static_chunked incr chunk b =
    static_chunked_8u nb_threads thread_num incr chunk b
for_static_init_8u nb_threads thread_num static incr chunk b =
    static_8u nb_threads thread_num incr b
for_static_init_8u nb_threads thread_num other incr chunk b = b
