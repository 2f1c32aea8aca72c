-- ===== src/Rlc/Stopping.antt =====
-- The five steps after which the consumers have stopped and a packet is on the to-send list.
use many_rvdata.Base.{at, ℕ, ◌≤◌, ◌≡◌, ◌≢◌, refl, arith, true, ◌==◌, [], ◌∷◌}
use many_rvdata.LinkedList.{Ptr, null}
use many_rvdata.LinkedList.Laws.{IsList, push_back-IsList, pop_front-nil}
use many_rvdata.DataMove.{Reg}
use many_rvdata.DataMove.Vector.{Vset}
use many_rvdata.Rlc.Context.{PdcpPkg}
use many_rvdata.Rlc.Core.{Phase, Cluster, pop, push, core_step, step, run}

module _ (v : Vset) (old : Reg) (buffer : Ptr) (num_pkgs : ℕ) (pdcp_pkgs : ℕ → PdcpPkg) where
  -- two steps of a consumer that finds the list empty and the flag set
  stops :
      (c : Cluster) (a : ℕ)
      → c.phase a ≡ Phase.popping
      → c.shared.producer_done ≡ 1
      → IsList c.shared.heap c.shared.ctx.list []
      → step v old buffer num_pkgs pdcp_pkgs a (step v old buffer num_pkgs pdcp_pkgs a c) ≡ record {
        phase = at (at c.phase a Phase.checking_done) a Phase.finished;
        shared = c.shared;
      }
  unfolding step core_step pop
  stops c a e done empty =
      let self : (a == a) ≡ true = ground arith in
      rw (e, pop_front-nil c.shared.ctx.list c.shared.heap empty, self, done) refl

  pushes :
      (c : Cluster) (a : ℕ) (node : Ptr)
      → c.phase a ≡ Phase.pushing node
      → step v old buffer num_pkgs pdcp_pkgs a c
        ≡ record { phase = at c.phase a Phase.receiving; shared = push node c.shared }
  unfolding step core_step
  pushes c a node e = rw e refl

  -- the state after the five steps
  abbrev pub left : Cluster → (producer : ℕ) → Ptr → Cluster
  left c producer node = record {
    phase =
        at
          (at (at (at (at c.phase 0 Phase.checking_done) 0 Phase.finished) 1 Phase.checking_done) 1
            Phase.finished)
          producer Phase.receiving;
    shared = push node c.shared;
  }

  pub settled :
      (c : Cluster) (producer : ℕ) (node : Ptr)
      → 2 ≤ producer
      → c.phase producer ≡ Phase.pushing node
      → node ≢ null
      → c.phase 0 ≡ Phase.popping
      → c.phase 1 ≡ Phase.popping
      → c.shared.producer_done ≡ 1
      → IsList c.shared.heap c.shared.ctx.list []
      → (run v old buffer num_pkgs pdcp_pkgs (0 ∷ 0 ∷ 1 ∷ 1 ∷ producer ∷ []) c
          ≡ left c producer node)
        × IsList (push node c.shared).heap (push node c.shared).ctx.list (node ∷ [])
  unfolding run push
  settled c producer node two pushing ne first second done empty =
      let f1 = at (at c.phase 0 Phase.checking_done) 0 Phase.finished in
      let f2 = at (at f1 1 Phase.checking_done) 1 Phase.finished in
      let c1 : Cluster = record { phase = f1; shared = c.shared } in
      let c2 : Cluster = record { phase = f2; shared = c.shared } in
      (
        rw
            (
              stops c 0 first done empty,
              stops c1 1 (ground arith) done empty,
              pushes c2 producer node (ground arith),
            )
            refl,
        (push_back-IsList node c.shared.ctx.list c.shared.heap [] empty ne refl).0,
      )
