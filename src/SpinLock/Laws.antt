-- ===== src/SpinLock/Laws.antt =====
-- What the spin locks give: one core at a time, and sections that are as good as atomic.
use many_rvdata.Base.{
  ℕ, ◌≡◌, ◌⊎◌, inl, inr, refl, ap, sym, ◌∙◌, arith, ℕ_discrete, Bool, true, false, List, [], ◌∷◌,
}
use many_rvdata.SpinLock.{Phase, Sys, at, test_and_set, release, Step, Reach, start}

module _ {ℓ} {D : Type ℓ} where
  -- whether a core is between the lock and the release
  abbrev pub holds : Phase D → Bool
  holds Phase.inside = true
  holds (Phase.loaded d) = true
  holds (Phase.buffered d) = true
  holds Phase.stored = true
  holds _ = false

  -- the sections one after another, in the order of the log
  abbrev pub replay : (ℕ → D → D) → D → List ℕ → D
  replay op d [] = d
  replay op d (c ∷ cs) = op c (replay op d cs)

  record Inv (op : ℕ → D → D) (d : D) (s : Sys D) : Type ℓ where
    free : s.lock ≡ 0 → (c : ℕ) → holds (s.phase c) ≡ false
    single : (a b : ℕ) → holds (s.phase a) ≡ true → holds (s.phase b) ≡ true → a ≡ b
    fresh : (c : ℕ) (e : D) → s.phase c ≡ Phase.loaded e → e ≡ s.shared
    waiting : (c : ℕ) (e : D) → s.phase c ≡ Phase.buffered e → e ≡ op c s.shared
    serial : s.shared ≡ replay op d s.log
    held : (s.lock ≡ 0) ⊎ ((c : ℕ) × (holds (s.phase c) ≡ true))

  -- a step of core `c` that changes neither the lock nor who holds it
  same_holder :
      (lock : ℕ) (f : ℕ → Phase D) (c : ℕ) (p : Phase D)
      → holds p ≡ holds (f c)
      → (lock ≡ 0) ⊎ ((a : ℕ) × (holds (f a) ≡ true))
      → (lock ≡ 0) ⊎ ((a : ℕ) × (holds (at f c p a) ≡ true))
  same_holder lock f c p same (inl z) = inl z
  same_holder lock f c p same (inr (a, h)) = inr (a, ground arith)

  waits_at :
      (op : ℕ → D → D) (f : ℕ → Phase D) (shared : D) (c : ℕ) (p : Phase D) (a : ℕ) (x : D)
      → (p ≡ Phase.buffered x → x ≡ op c shared)
      → (f a ≡ Phase.buffered x → x ≡ op a shared)
      → at f c p a ≡ Phase.buffered x
      → x ≡ op a shared
  waits_at op f shared c p a x new old h = elim (ℕ_discrete a c) [
    | yes e ↦
        let there : at f c p a ≡ p = ground arith in
        new (sym there ∙ h) ∙ ap (λ c. op c shared) (sym e)
    | no ne ↦ let there : at f c p a ≡ f a = ground arith in old (sym there ∙ h)
  ]

  -- The same, for the whole invariant, with the shared data as they are.
  quiet :
      (op : ℕ → D → D) (d : D) (s : Sys D) (c : ℕ) (p : Phase D)
      → holds p ≡ holds (s.phase c)
      → ((e : D) → p ≡ Phase.loaded e → e ≡ s.shared)
      → ((e : D) → p ≡ Phase.buffered e → e ≡ op c s.shared)
      → Inv op d s
      → Inv op d (record s { phase = at s.phase c p })
  quiet op d s c p same new late inv = record {
    free = λ z a. ground (arith, inv.free z a, inv.free z c);
    single = λ a b ha hb. ground (arith, inv.single a b, inv.single a c, inv.single c b);
    fresh = λ a x h. ground (arith, inv.fresh a x, new x);
    waiting = λ a x h. waits_at op s.phase s.shared c p a x (late x) (inv.waiting a x) h;
    serial = inv.serial;
    held = same_holder s.lock s.phase c p same inv.held;
  }

  -- a round that finds the lock taken, or takes it
  swapped :
      (op : ℕ → D → D) (d : D) (s : Sys D) (c : ℕ)
      → s.phase c ≡ Phase.swapping
      → Inv op d s
      → Inv op d (test_and_set c s)
  unfolding test_and_set
  swapped op d s c e inv = record {
    free = λ z a. ground arith;
    single = λ a b ha hb.
        ground (
          arith,
          inv.single a b,
          λ (z : s.lock ≡ 0). inv.free z a,
          λ (z : s.lock ≡ 0). inv.free z b,
        );
    fresh = λ a x h. ground (arith, inv.fresh a x);
    waiting = λ a x h. ground (arith, inv.waiting a x);
    serial = inv.serial;
    held = elim (ℕ_discrete s.lock 0) [
      | yes z ↦ inr (c, ground arith)
      | no taken ↦ elim inv.held [ inl z ↦ absurd (taken z) | inr (a, h) ↦ inr (a, ground arith) ]
    ];
  }

  buffered_of : D → Phase D → D
  buffered_of y (Phase.buffered x) = x
  buffered_of y _ = y

  buffered-injective : {x y : D} → Phase.buffered x ≡ Phase.buffered y → x ≡ y
  unfolding buffered_of
  buffered-injective {x} h = ap (buffered_of x) h

  Step-Inv : (op : ℕ → D → D) (d : D) {s t : Sys D} → Step op s t → Inv op d s → Inv op d t
  unfolding release
  Step-Inv op d {s} (Step.call c e) inv =
      quiet op d s c Phase.swapping (rw e refl) (λ x h. ground arith) (λ x h. ground arith) inv
  Step-Inv op d {s} (Step.swap c e) inv = swapped op d s c e inv
  Step-Inv op d {s} (Step.read c e) inv =
      quiet op d s c (Phase.loaded s.shared) (rw e refl) (λ x h. ground arith) (λ x h. ground arith)
        inv
  Step-Inv op d {s} (Step.write c x e) inv =
      quiet op d s c (Phase.buffered (op c x)) (rw e refl) (λ y h. ground arith)
        (λ y h. sym (buffered-injective h) ∙ ap (op c) (inv.fresh c x e)) inv
  Step-Inv op d {s} (Step.fence c x e) inv = record {
    free = λ z a. ground (arith, inv.free z a, inv.free z c);
    single = λ a b ha hb. ground (arith, inv.single a b, inv.single a c, inv.single c b);
    fresh = λ a y h. ground (arith, inv.fresh a y, inv.single a c);
    waiting = λ a y h. ground (arith, inv.waiting a y, inv.single a c);
    serial = inv.waiting c x e ∙ ap (op c) inv.serial;
    held = inr (c, ground arith);
  }
  Step-Inv op d {s} (Step.leave c e) inv = record {
    free = λ z a. ground (arith, inv.single a c);
    single = λ a b ha hb. ground (arith, inv.single a b, inv.single a c, inv.single c b);
    fresh = λ a y h. ground (arith, inv.fresh a y, inv.single a c);
    waiting = λ a y h. ground (arith, inv.waiting a y, inv.single a c);
    serial = inv.serial;
    held = inl refl;
  }

  Reach-Inv : (op : ℕ → D → D) (d : D) {s : Sys D} → Reach op (start d) s → Inv op d s
  Reach-Inv op d Reach.here = record {
    free = λ z c. refl;
    single = λ a b ha hb. ground arith;
    fresh = λ c e h. ground arith;
    waiting = λ c e h. ground arith;
    serial = refl;
    held = inl refl;
  }
  Reach-Inv op d (Reach.next r st) = Step-Inv op d st (Reach-Inv op d r)

  -- In every order of steps that starts with all cores outside and the lock free, two cores that
  -- are between the lock and its release are the same core.
  pub mutual_exclusion :
      (op : ℕ → D → D) (d : D) (s : Sys D) (a b : ℕ)
      → Reach op (start d) s
      → holds (s.phase a) ≡ true
      → holds (s.phase b) ≡ true
      → a ≡ b
  mutual_exclusion op d s a b r = (Reach-Inv op d r).single a b

  -- In every order of steps that starts with all cores outside and the lock free, with stores that wait
  -- in the core's buffer until the fence of the release: the shared data in memory are what the cores'
  -- changes give one after another, each whole, in the order in which they reach memory.
  pub sections_atomic :
      (op : ℕ → D → D) (d : D) (s : Sys D) → Reach op (start d) s → s.shared ≡ replay op d s.log
  sections_atomic op d s r = (Reach-Inv op d r).serial

  -- In every such order the lock is free or some core is between the lock and its release, and a
  -- core whose swap runs while the lock is free has the lock after that one round.
  pub never_stuck :
      (op : ℕ → D → D) (d : D) (s : Sys D)
      → Reach op (start d) s
      → ((s.lock ≡ 0) ⊎ ((c : ℕ) × (holds (s.phase c) ≡ true)))
        × ((c : ℕ) → s.lock ≡ 0 → holds ((test_and_set c s).phase c) ≡ true)
  unfolding test_and_set
  never_stuck op d s r = ((Reach-Inv op d r).held, λ c z. ground arith)
