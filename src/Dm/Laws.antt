-- ===== src/Dm/Laws.antt =====
-- The ring hands every transfer to the DMA engine once, in order.
use many_rvdata.Base.{
  ℕ, zero, suc, ◌+◌, ◌%◌, ◌≤◌, ◌<◌, ◌≡◌, refl, ap, sym, ◌∙◌, arith, true, false, ltb, ltb→lt, ◌==◌,
  if◌then◌else◌, List, [], ◌∷◌, ◌++◌, map, at, Bool-cases, inl, inr, add32, sub32, u32,
}
use mathlib.Core.Path.{ap₂}
use mathlib.Core.List.{append_assoc, append-nil, map-append}
use many_rvdata.Dm.{
  Task, Transfer, Stat, Dm, transfer, insert, task_1d, task_2d, dm_memcpy_async, dm_memcpy2d_async,
  issue, answer, answer_to, dm_main_round, request,
}

-- the tasks in the ring, oldest first
abbrev pub pending : (ℕ → Task) → (back fill : ℕ) → List Task
pending queue back zero = []
pending queue back (suc fill) = queue back ∷ pending queue ((back + 1) % 4) fill

pub record IsRing (dm : Dm) : Type 0 where
  pub back_in : dm.queue_back < 4
  pub fill_in : dm.queue_fill ≤ 4
  pub front_at : dm.queue_front ≡ (dm.queue_back + dm.queue_fill) % 4

-- what has been started, and then what is in the ring
abbrev pub handed : Dm → List Transfer
handed dm = dm.started ++ map transfer (pending dm.queue dm.queue_back dm.queue_fill)

pending_insert :
    (queue : ℕ → Task) (back fill front : ℕ) (t : Task)
    → back < 4
    → fill < 4
    → front ≡ (back + fill) % 4
    → pending (at queue front t) back (suc fill) ≡ pending queue back fill ++ t ∷ []
pending_insert queue back zero front t b f e =
    let here : (back == front) ≡ true = ground arith in rw here refl
pending_insert queue back (suc fill) front t b f e =
    let elsewhere : (back == front) ≡ false = ground arith in
    ap₂ (λ x xs. x ∷ xs) (rw elsewhere refl)
      (pending_insert queue ((back + 1) % 4) fill front t (omega arith) (omega arith) (omega arith))

-- What a core or the data mover does: a round of a copy's poll, a round of `dm_main`, a request.
pub data Op : Type 0 where
  copy : (dest src n : ℕ) → Op
  copy_2d : (src dst size sstrd dstrd nreps cfg : ℕ) → Op
  round : (busy : ℕ) → Op
  ask : Stat → Op

pub perform : Op → Dm → Dm
perform (Op.copy dest src n) dm = dm_memcpy_async dest src n dm
perform (Op.copy_2d src dst size sstrd dstrd nreps cfg) dm =
    dm_memcpy2d_async src dst size sstrd dstrd nreps cfg dm
perform (Op.round busy) dm = dm_main_round busy dm
perform (Op.ask q) dm = request q dm

-- the transfer that an operation hands over, where the ring has room for it
abbrev pub accepted : Op → Dm → List Transfer
accepted (Op.copy dest src n) dm =
    if ltb dm.queue_fill 4 then Transfer.oned src dest (u32 n) 0 ∷ [] else []
accepted (Op.copy_2d src dst size sstrd dstrd nreps cfg) dm =
    if ltb dm.queue_fill 4 then Transfer.two_d src dst size sstrd dstrd nreps cfg ∷ [] else []
accepted (Op.round busy) dm = []
accepted (Op.ask q) dm = []

insert_lem :
    (fill_in : Task → Task) (dm : Dm)
    → IsRing dm
    → dm.queue_fill < 4
    → IsRing (insert fill_in dm)
      × (handed (insert fill_in dm)
          ≡ handed dm ++ transfer (fill_in (dm.queue dm.queue_front)) ∷ [])
unfolding insert
insert_lem fill_in dm ring room =
    let t = fill_in (dm.queue dm.queue_front) in
    let more : add32 dm.queue_fill 1 ≡ suc dm.queue_fill = omega arith in
    let old = pending dm.queue dm.queue_back dm.queue_fill in
    let added =
      pending_insert dm.queue dm.queue_back dm.queue_fill dm.queue_front t ring.back_in room
        ring.front_at in
    (
      record {
        back_in = ring.back_in;
        fill_in = omega arith;
        front_at = omega (arith, ring.front_at);
      },
      ap (λ k. dm.started ++ map transfer (pending (at dm.queue dm.queue_front t) dm.queue_back k))
            more
          ∙ (ap (λ l. dm.started ++ map transfer l) added
              ∙ (ap (λ l. dm.started ++ l) (map-append transfer old (t ∷ []))
                  ∙ sym (append_assoc dm.started (map transfer old) (transfer t ∷ [])))),
    )

pending_issue :
    (queue : ℕ → Task) (back fill : ℕ)
    → fill ≤ 4
    → (fill == 0) ≡ false
    → pending queue back fill ≡ queue back ∷ pending queue ((back + 1) % 4) (sub32 fill 1)
pending_issue queue back zero le ne = absurd (ground arith)
pending_issue queue back (suc fill) le ne =
    let less : sub32 (suc fill) 1 ≡ fill = omega arith in rw less refl

issue_lem : (dm : Dm) → IsRing dm → IsRing (issue dm) × (handed (issue dm) ≡ handed dm)
unfolding issue
issue_lem dm ring = elim (Bool-cases (dm.queue_fill == 0)) [
  | inl none ↦ rw none (ring, refl)
  | inr some_left ↦
      let next = pending_issue dm.queue dm.queue_back dm.queue_fill ring.fill_in some_left in
      rw (some_left, next)
        (
          record {
            back_in = omega arith;
            fill_in = ground (arith, ring.fill_in);
            front_at = ground (arith, ring.front_at, ring.fill_in);
          },
          append_assoc dm.started (transfer (dm.queue dm.queue_back) ∷ [])
              (map transfer (pending dm.queue ((dm.queue_back + 1) % 4) (sub32 dm.queue_fill 1))),
        )
]

answer_lem :
    (q : Stat) (busy : ℕ) (dm : Dm)
    → IsRing dm
    → IsRing (answer_to q busy dm) × (handed (answer_to q busy dm) ≡ handed dm)
unfolding answer_to
answer_lem Stat.no_request busy dm ring = (ring, refl)
answer_lem Stat.exit busy dm ring = (ring, refl)
answer_lem Stat.ready busy dm ring =
    (record { back_in = ring.back_in; fill_in = ring.fill_in; front_at = ring.front_at }, refl)
answer_lem Stat.wait_idle busy dm ring = elim (Bool-cases (busy == 0)) [
  | inl idle ↦
      rw idle
        (record { back_in = ring.back_in; fill_in = ring.fill_in; front_at = ring.front_at }, refl)
  | inr busy ↦ rw busy (ring, refl)
]

copy_lem :
    (fill_in : Task → Task) (x : Transfer) (dm : Dm)
    → ((t : Task) → transfer (fill_in t) ≡ x)
    → IsRing dm
    → let dm' = if ltb dm.queue_fill 4 then insert fill_in dm else dm in
      IsRing dm' × (handed dm' ≡ handed dm ++ (if ltb dm.queue_fill 4 then x ∷ [] else []))
copy_lem fill_in x dm same ring = elim (Bool-cases (ltb dm.queue_fill 4)) [
  | inl room ↦
      let (ring', all) = insert_lem fill_in dm ring (ltb→lt dm.queue_fill 4 room) in
      rw room (ring', all ∙ ap (λ y. handed dm ++ y ∷ []) (same (dm.queue dm.queue_front)))
  | inr full ↦ rw full (ring, sym (append-nil (handed dm)))
]

perform_lem :
    (op : Op) (dm : Dm)
    → IsRing dm
    → IsRing (perform op dm) × (handed (perform op dm) ≡ handed dm ++ accepted op dm)
unfolding perform dm_memcpy_async dm_memcpy2d_async dm_main_round answer request
perform_lem (Op.copy dest src n) dm ring =
    copy_lem (task_1d dest src n) (Transfer.oned src dest (u32 n) 0) dm (λ t. refl) ring
perform_lem (Op.copy_2d src dst size sstrd dstrd nreps cfg) dm ring =
    copy_lem (task_2d src dst size sstrd dstrd nreps cfg)
      (Transfer.two_d src dst size sstrd dstrd nreps cfg) dm (λ t. refl) ring
perform_lem (Op.round busy) dm ring =
    let (ring', same) = issue_lem dm ring in
    let (ring'', same') = answer_lem (issue dm).stat_q busy (issue dm) ring' in
    (ring'', same' ∙ (same ∙ sym (append-nil (handed dm))))
perform_lem (Op.ask q) dm ring = (
  record { back_in = ring.back_in; fill_in = ring.fill_in; front_at = ring.front_at },
  sym (append-nil (handed dm)),
)

-- The operations in order, and the transfers that they hand over.
pub perform_all : List Op → Dm → Dm
perform_all [] dm = dm
perform_all (op ∷ ops) dm = perform_all ops (perform op dm)

pub accepted_all : List Op → Dm → List Transfer
accepted_all [] dm = []
accepted_all (op ∷ ops) dm = accepted op dm ++ accepted_all ops (perform op dm)

-- With one core that copies, for every sequence of its copies and requests and of rounds of the data
-- mover, the ring stays well formed, and the transfers started, followed by those in the ring, are
-- those that were there before followed by the accepted ones, each once and in order.
pub perform_all-handed :
    (ops : List Op) (dm : Dm)
    → IsRing dm
    → IsRing (perform_all ops dm) × (handed (perform_all ops dm) ≡ handed dm ++ accepted_all ops dm)
unfolding perform_all accepted_all
perform_all-handed [] dm ring = (ring, sym (append-nil (handed dm)))
perform_all-handed (op ∷ ops) dm ring =
    let (ring', step) = perform_lem op dm ring in
    let (ring'', rest) = perform_all-handed ops (perform op dm) ring' in
    (
      ring'',
      rest
          ∙ (ap (λ l. l ++ accepted_all ops (perform op dm)) step
              ∙ append_assoc (handed dm) (accepted op dm) (accepted_all ops (perform op dm))),
    )
