-- ===== src/Elf/Sections.antt =====
-- What the test bench gets of a file that was read: the list of its sections, to the last one.
use many_rvdata.Base.{
  ℕ, zero, suc, ◌+◌, ◌*◌, ◌≤◌, ◌≡◌, inl, inr, refl, sym, ap, ◌∙◌, arith, ltb, true, false,
  Bool-cases, Option, none, some, List, [], ◌∷◌, ◌++◌, length, length-append, get_elem?,
}
use mathlib.Core.List.{append_assoc, append-nil}
use mathlib.Core.Option.{some-injective}
use many_rvdata.Elf.Headers.{Class, phdr_size, ehdr, phdr_at, class_of}
use many_rvdata.Elf.Loader.{
  ◌>>=◌, File, Loader, get_section, load_segment, load_segments, read_elf, start, drain,
}
use many_rvdata.Elf.Segments.{loads, loadable, header, bind_some, segment_lem, sections_lem}
use many_rvdata.Elf.Laws.{read_lem}

next_section :
    (before rest : List (ℕ × ℕ)) (x : ℕ × ℕ)
    → get_elem? (before ++ x ∷ rest) (length before) ≡ some x
next_section [] rest x = refl
next_section (y ∷ before) rest x = next_section before rest x

get_more :
    (before rest : List (ℕ × ℕ)) (x : ℕ × ℕ) (l : Loader)
    → l.sections ≡ before ++ x ∷ rest
    → l.section_index ≡ length before
    → get_section l ≡ (some x, record l { section_index = l.section_index + 1 })
unfolding get_section
get_more before rest x l e i =
    let more : ltb l.section_index (length l.sections) ≡ true =
      ground (arith, ap length e, length-append before (x ∷ rest)) in
    let found : get_elem? l.sections l.section_index ≡ some x =
      ap (λ s. get_elem? s l.section_index) e
      ∙ ap (get_elem? (before ++ x ∷ rest)) i
      ∙ next_section before rest x in
    rw more (ap (λ o. (o, record l { section_index = l.section_index + 1 })) found)

get_end : (l : Loader) → l.section_index ≡ length l.sections → get_section l ≡ (none, l)
unfolding get_section
get_end l i =
    let over : ltb l.section_index (length l.sections) ≡ false = ground arith in rw over refl

drain_by :
    (k : ℕ) (l : Loader) (g : Option (ℕ × ℕ) × Loader)
    → get_section l ≡ g
    → drain (suc k) l
      ≡ elim g.0 [ none ↦ some [] | some section ↦ drain k g.1 >>= λ rest. some (section ∷ rest) ]
unfolding drain
drain_by k l g e =
    ap
      (λ g. elim g.0 [
        | none ↦ some []
        | some section ↦ drain k g.1 >>= λ rest. some (section ∷ rest)
      ])
      e

drain_lem :
    (k : ℕ) (before rest : List (ℕ × ℕ)) (l : Loader)
    → l.sections ≡ before ++ rest
    → l.section_index ≡ length before
    → length rest ≤ k
    → drain (suc k) l ≡ some rest
drain_lem k before [] l e i le =
    drain_by k l (none, l) (get_end l (i ∙ sym (ap length (e ∙ append-nil before))))
drain_lem zero before (x ∷ rest) l e i le = absurd (omega arith)
drain_lem (suc k) before (x ∷ rest) l e i le =
    drain_by (suc k) l (some x, record l { section_index = l.section_index + 1 })
      (get_more before rest x l e i)
    ∙ ap (λ d. d >>= λ rest. some (x ∷ rest))
        (drain_lem k (before ++ x ∷ []) rest (record l { section_index = l.section_index + 1 })
          (e ∙ sym (append_assoc before (x ∷ []) rest))
          (omega (arith, length-append before (x ∷ []))) (omega arith))

length-loadable : (c : Class) (buf : ℕ → ℕ) (phoff k i : ℕ) → length (loadable c buf phoff k i) ≤ k
length-loadable c buf phoff zero i = omega arith
length-loadable c buf phoff (suc k) i =
    elim (Bool-cases (loads (phdr_at c buf (phoff + i * phdr_size c)))) [
      | inl e ↦ rw e (omega (arith, length-loadable c buf phoff k (i + 1)))
      | inr e ↦ rw e (omega (arith, length-loadable c buf phoff k (i + 1)))
    ]

index_kept :
    (c : Class) (f : File) (phoff k i : ℕ) (l l' : Loader)
    → load_segments c f phoff k i l ≡ some l'
    → l'.section_index ≡ l.section_index
unfolding load_segments
index_kept c f phoff zero i l l' h = sym (ap (λ l. l.section_index) (some-injective l l' h))
index_kept c f phoff (suc k) i l l' h =
    let (l1, h1, h2) =
      bind_some (load_segment c f (header c f phoff i) l) (load_segments c f phoff k (i + 1)) l'
        h in
    index_kept c f phoff k (i + 1) l1 l' h2 ∙ elim (segment_lem c f (header c f phoff i) l l1 h1) [
      | inl (is, e, fits) ↦ ap (λ l. l.section_index) e
      | inr (is, e) ↦ ap (λ l. l.section_index) e
    ]

-- A file whose class is `c` was read without a failed assertion. A caller that asks `get_section`
-- until it returns 0 is through after as many calls as there are program headers and one more, and
-- gets the address and the length in memory of each header to load, once and in the file's order.
pub read_elf-get_section :
    (f : File) (l : Loader) (symbols : List (List ℕ × ℕ)) (c : Class)
    → read_elf f start ≡ some (l, symbols)
    → class_of f.buf ≡ some c
    → drain (suc (ehdr c f.buf).e_phnum) l
      ≡ some (loadable c f.buf (ehdr c f.buf).e_phoff (ehdr c f.buf).e_phnum 0)
read_elf-get_section f l symbols c h cls =
    let eh = ehdr c f.buf in
    let begin = record start { entry = eh.e_entry } in
    let segments = (read_lem f l symbols c h cls).0 in
    drain_lem eh.e_phnum [] (loadable c f.buf eh.e_phoff eh.e_phnum 0) l
      (sections_lem c f eh.e_phoff eh.e_phnum 0 begin l segments)
      (index_kept c f eh.e_phoff eh.e_phnum 0 begin l segments)
      (length-loadable c f.buf eh.e_phoff eh.e_phnum 0)
