-- ===== src/Dm/Wait/Overrun.antt =====
-- src/dm.c: the poll of the fill before the mutex does not keep the ring from being overrun.
use many_rvdata.Base.{ℕ, ◌≤◌, ◌<◌, ◌≡◌, none}
use many_rvdata.Dm.Wait.{Phase, Sys, Reach, start}

-- the first `k` cores have seen room in the ring, which is empty
record Polled (n k : ℕ) (s : Sys) : Type 0 where
  steps : Reach n start s
  seen : (i : ℕ) → i < k → (s.cores i).phase ≡ Phase.locking
  rest : (i : ℕ) → k ≤ i → (s.cores i).phase ≡ Phase.idle
  fill : s.queue_fill ≡ 0
  queued : s.queued ≡ 0
  issued : s.issued ≡ 0
  mutex : s.mutex ≡ none

-- `k` of the cores that have seen room have inserted
record Inserted (n k : ℕ) (s : Sys) : Type 0 where
  steps : Reach n start s
  seen : (i : ℕ) → k ≤ i → i < n → (s.cores i).phase ≡ Phase.locking
  fill : s.queue_fill ≡ k
  queued : s.queued ≡ k
  issued : s.issued ≡ 0
  mutex : s.mutex ≡ none
