-- ===== src/Elf/Segments.antt =====
-- What the loop over the program headers leaves in `sections` and `mems`.
use many_rvdata.Base.{
  ◌^◌, ℕ, zero, suc, ◌+◌, ◌*◌, ◌≤◌, ◌<◌, ◌≡◌, ◌≢◌, ◌⊎◌, inl, inr, refl, sym, ap, ◌∙◌, subst, arith,
  ◌==◌, Bool, true, false, not, ◌&&◌, if◌then◌else◌, Bool-cases, ℕ_discrete, Option, none, some,
  List, [], ◌∷◌, ◌++◌,
}
use mathlib.Core.List.{append_assoc, append-nil}
use mathlib.Core.Option.{some-injective}
use many_rvdata.Elf.Headers.{Class, Phdr, phdr_size, phdr_at}
use many_rvdata.Elf.Loader.{
  ◌>>=◌, File, Loader, find, insert, bytes, write, load_segment, load_segments, pt_load,
}

-- The bytes of a segment are in the file and go to memory.
abbrev pub loads : Phdr → Bool
loads ph = ph.p_type == pt_load && (not (ph.p_memsz == 0) && not (ph.p_filesz == 0))

-- the addresses and lengths of these segments, from header `i` on
abbrev pub loadable : Class → (ℕ → ℕ) → (phoff k i : ℕ) → List (ℕ × ℕ)
loadable c buf phoff zero i = []
loadable c buf phoff (suc k) i =
    let ph = phdr_at c buf (phoff + i * phdr_size c) in
    let rest = loadable c buf phoff k (i + 1) in
    if loads ph then (ph.p_paddr, ph.p_memsz) ∷ rest else rest

module _ {ℓ κ} {A : Type ℓ} {B : Type κ} where
  -- the parts of a chain that succeeds
  pub bind_some :
      (m : Option A) (f : A → Option B) (b : B)
      → (m >>= f) ≡ some b
      → (a : A) × (m ≡ some a) × (f a ≡ some b)
  bind_some none f b h = cc
  bind_some (some a) f b h = (a, refl, h)

contrary : (b : Bool) → b ≡ false → b ≡ true → ⊥
contrary b n is = ground arith

differ : {a b : ℕ} → a ≢ b → (a == b) ≡ false
differ ne = ground arith

-- The bytes of a segment are in the file, and an `int` can count them.
abbrev pub InFile : File → Phdr → Type 0
InFile f ph = (ph.p_offset + ph.p_filesz ≤ f.size) × (ph.p_filesz < 2 ^ 31)

abbrev pub written : File → Phdr → Loader → Loader
written f ph l = record l {
  sections = l.sections ++ (ph.p_paddr, ph.p_memsz) ∷ [];
  mems = insert ph.p_paddr (bytes ph.p_filesz f.buf ph.p_offset) l.mems;
}

pub segment_lem :
    (c : Class) (f : File) (ph : Phdr) (l l' : Loader)
    → load_segment c f ph l ≡ some l'
    → ((loads ph ≡ true) × (l' ≡ written f ph l) × InFile f ph) ⊎ ((loads ph ≡ false) × (l' ≡ l))
unfolding load_segment write
segment_lem c f ph l l' h = elim (Bool-cases (ph.p_type == pt_load)) [
  | inr t ↦ ground arith
  | inl t ↦ elim (Bool-cases (ph.p_memsz == 0)) [
    | inl m ↦ ground arith
    | inr m ↦ elim (Bool-cases (ph.p_filesz == 0)) [ inl z ↦ ground arith | inr z ↦ ground arith ]
  ]
]

by_old :
    (a b : ℕ) (mem : List ℕ) (mems : List (ℕ × List ℕ)) (old : Option (List ℕ))
    → (b == a) ≡ false
    → find b mems ≡ old
    → find a (insert b mem mems) ≡ find a mems
by_old a b mem mems none ne h = ground arith
by_old a b mem mems (some o) ne h = ground arith

other_key :
    (a b : ℕ) (mem : List ℕ) (mems : List (ℕ × List ℕ))
    → (b == a) ≡ false
    → find a (insert b mem mems) ≡ find a mems
other_key a b mem mems ne = by_old a b mem mems (find b mems) ne refl

-- The first bytes that are stored at an address stay.
find-insert_old :
    (a b : ℕ) (mem d : List ℕ) (mems : List (ℕ × List ℕ))
    → find a mems ≡ some d
    → find a (insert b mem mems) ≡ some d
find-insert_old a b mem d mems h = elim (Bool-cases (b == a)) [
  | inl e ↦ ground arith
  | inr e ↦ other_key a b mem mems e ∙ h
]

find-insert_new :
    (a : ℕ) (mem : List ℕ) (mems : List (ℕ × List ℕ))
    → find a mems ≡ none
    → find a (insert a mem mems) ≡ some mem
find-insert_new a mem mems h = let same : (a == a) ≡ true = ground arith in ground (arith, same)

module _ (c : Class) (f : File) (phoff : ℕ) where
  abbrev pub header : ℕ → Phdr
  header i = phdr_at c f.buf (phoff + i * phdr_size c)

  pub kept :
      (k i a : ℕ) (d : List ℕ) (l l' : Loader)
      → load_segments c f phoff k i l ≡ some l'
      → find a l.mems ≡ some d
      → find a l'.mems ≡ some d
  unfolding load_segments
  kept zero i a d l l' h there = ground arith
  kept (suc k) i a d l l' h there =
      let (l1, h1, h2) =
        bind_some (load_segment c f (header i) l) (load_segments c f phoff k (i + 1)) l' h in
      kept k (i + 1) a d l1 l' h2 (elim (segment_lem c f (header i) l l1 h1) [
        | inl (is, e, fits) ↦
            subst (λ l. find a l.mems ≡ some d) (sym e)
              (find-insert_old a (header i).p_paddr
                (bytes (header i).p_filesz f.buf (header i).p_offset) d l.mems there)
        | inr (is, e) ↦ subst (λ l. find a l.mems ≡ some d) (sym e) there
      ])

  pub sections_lem :
      (k i : ℕ) (l l' : Loader)
      → load_segments c f phoff k i l ≡ some l'
      → l'.sections ≡ l.sections ++ loadable c f.buf phoff k i
  unfolding load_segments
  sections_lem zero i l l' h =
      sym (ap (λ l. l.sections) (some-injective l l' h)) ∙ sym (append-nil l.sections)
  sections_lem (suc k) i l l' h =
      let (l1, h1, h2) =
        bind_some (load_segment c f (header i) l) (load_segments c f phoff k (i + 1)) l' h in
      let later = loadable c f.buf phoff k (i + 1) in
      let rest = sections_lem k (i + 1) l1 l' h2 in
      elim (segment_lem c f (header i) l l1 h1) [
        | inl (is, e, fits) ↦ rw is (
            rest
            ∙ ap (λ l. l.sections ++ later) e
            ∙ append_assoc l.sections (((header i).p_paddr, (header i).p_memsz) ∷ []) later)
        | inr (is, e) ↦ rw is (rest ∙ ap (λ l. l.sections ++ later) e)
      ]

  -- Header `j`'s bytes are stored at its address, and they are in the file.
  abbrev pub Stored : Loader → ℕ → Type 0
  Stored l j =
      (find (header j).p_paddr l.mems ≡ some (bytes (header j).p_filesz f.buf (header j).p_offset))
      × InFile f (header j)

  stored_now :
      (k i : ℕ) (l l1 l' : Loader)
      → l1 ≡ written f (header i) l
      → find (header i).p_paddr l.mems ≡ none
      → load_segments c f phoff k (i + 1) l1 ≡ some l'
      → find (header i).p_paddr l'.mems ≡ some (bytes (header i).p_filesz f.buf (header i).p_offset)
  stored_now k i l l1 l' w absent h =
      let mem = bytes (header i).p_filesz f.buf (header i).p_offset in
      kept k (i + 1) (header i).p_paddr mem l1 l' h (
        subst (λ l. find (header i).p_paddr l.mems ≡ some mem) (sym w)
          (find-insert_new (header i).p_paddr mem l.mems absent))

  loads_not : (i : ℕ) → loads (header i) ≡ false → loads (header i) ≡ true → ⊥
  loads_not i n is = contrary (loads (header i)) n is

  pub mems_lem :
      (k i j : ℕ) (l l' : Loader)
      → i ≤ j
      → j < i + k
      → loads (header j) ≡ true
      → ((m : ℕ)
          → i ≤ m
          → m < j
          → loads (header m) ≡ true
          → (header m).p_paddr ≢ (header j).p_paddr)
      → find (header j).p_paddr l.mems ≡ none
      → load_segments c f phoff k i l ≡ some l'
      → Stored l' j
  unfolding load_segments
  mems_lem zero i j l l' le lt is alone absent h = absurd (omega arith)
  mems_lem (suc k) i j l l' le lt is alone absent h =
      let (l1, h1, h2) =
        bind_some (load_segment c f (header i) l) (load_segments c f phoff k (i + 1)) l' h in
      elim (ℕ_discrete j i) [
        | yes e ↦ elim (segment_lem c f (header i) l l1 h1) [
          | inl (loaded, w, fits) ↦ subst (Stored l') (sym e) (
            stored_now k i l l1 l' w (subst (λ j. find (header j).p_paddr l.mems ≡ none) e absent)
                h2,
            fits,
          )
          | inr (not_loaded, w) ↦
              absurd (loads_not i not_loaded (subst (λ j. loads (header j) ≡ true) e is))
        ]
        | no ne ↦
            mems_lem k (i + 1) j l1 l' (omega arith) (omega arith) is
              (λ m lm ltm. alone m (omega arith) ltm)
              (elim (segment_lem c f (header i) l l1 h1) [
                | inl (loaded, w, fits) ↦
                    subst (λ l. find (header j).p_paddr l.mems ≡ none) (sym w)
                      (other_key (header j).p_paddr (header i).p_paddr
                          (bytes (header i).p_filesz f.buf (header i).p_offset) l.mems
                          (differ (alone i (omega arith) (omega arith) loaded))
                        ∙ absent)
                | inr (not_loaded, w) ↦
                    subst (λ l. find (header j).p_paddr l.mems ≡ none) (sym w) absent
              ])
              h2
      ]
