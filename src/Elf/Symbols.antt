-- ===== src/Elf/Symbols.antt =====
-- The string table is not found, and so no symbol is read.
use many_rvdata.Base.{
  ℕ, zero, suc, ◌+◌, ◌*◌, ◌/◌, ◌<◌, ◌≡◌, refl, sym, ap, ◌∙◌, arith, ◌==◌, ltb, leb, Bool, true,
  false, not, ◌&&◌, if◌then◌else◌, Option, some, List, [], add64, bit_and,
}
use mathlib.Core.Option.{some-injective}
use many_rvdata.Elf.Headers.{Class, Shdr, shdr_size, sym_size, ehdr, shdr_at, class_of, add_word}
use many_rvdata.Elf.Loader.{
  ◌>>=◌, ◌>>◌, assert, File, Loader, Names, scan_section, scan_sections, read_symbols, load_symbols,
  read_elf, start, is_string, strtab_name, symtab_name, sht_progbits,
}
use many_rvdata.Elf.Segments.{bind_some}
use many_rvdata.Elf.Laws.{read_lem}

abbrev pub sht_strtab : ℕ
sht_strtab = 3

guarded {ℓ} : {A : Type ℓ} (b : Bool) (r : Option A) {x : A} → (assert b >> r) ≡ some x → r ≡ some x
guarded true r h = h
guarded false r h = cc

abbrev pick : (odd strtab : Bool) (i s t t' : ℕ) → ℕ × ℕ
pick odd strtab i s t t' = if odd then (s, t) else (if strtab then i else s, t')

picked :
    (odd strtab : Bool) (i s t t' : ℕ)
    → (strtab ≡ true → odd ≡ true)
    → (pick odd strtab i s t t').0 ≡ s
picked true strtab i s t t' h = refl
picked false true i s t t' h = absurd (ground (arith, h refl))
picked false false i s t t' h = refl

module _ (c : Class) (f : File) where
  abbrev pub section : ℕ → Shdr
  section i = shdr_at c f.buf ((ehdr c f.buf).e_shoff + i * shdr_size c)

  -- where the name of section `i` starts
  abbrev pub name : ℕ → ℕ
  name i = (section (ehdr c f.buf).e_shstrndx).sh_offset + (section i).sh_name

  names : Names
  names = record {
    shstr = section (ehdr c f.buf).e_shstrndx;
    shstrtab = (section (ehdr c f.buf).e_shstrndx).sh_offset;
  }

  skipped :
      (i : ℕ) (found found' : ℕ × ℕ)
      → (is_string strtab_name f.buf (name i) ≡ true → (section i).sh_type ≡ sht_strtab)
      → scan_section f names (section i) i found ≡ some found'
      → found'.0 ≡ found.0
  unfolding scan_section names
  skipped i (s, t) found' typed h =
      sym (ap (λ p. p.0) (some-injective _ found' (guarded _ _ h)))
      ∙ picked (not (bit_and (section i).sh_type sht_progbits == 0))
          (is_string strtab_name f.buf (name i)) i s t
          (if is_string symtab_name f.buf (name i) then i else t)
          (λ e. let three = typed e in rw three refl)

  scan_lem :
      (k i : ℕ) (found found' : ℕ × ℕ)
      → ((m : ℕ)
          → m < i + k
          → is_string strtab_name f.buf (name m) ≡ true
          → (section m).sh_type ≡ sht_strtab)
      → scan_sections c f names (ehdr c f.buf).e_shoff k i found ≡ some found'
      → found'.0 ≡ found.0
  unfolding scan_sections
  scan_lem zero i found found' typed h = sym (ap (λ p. p.0) (some-injective found found' h))
  scan_lem (suc k) i found found' typed h =
      let (next, h1, h2) =
        bind_some (scan_section f names (section i) i found)
          (scan_sections c f names (ehdr c f.buf).e_shoff k (i + 1)) found' h in
      scan_lem k (i + 1) next found' (λ m lt. typed m (omega arith)) h2
      ∙ skipped i found next (typed i (omega arith)) h1

  -- what `load_symbols` does once it has the two indices
  read_on : ℕ × ℕ → Option (List (List ℕ × ℕ))
  read_on (strtabidx, symtabidx) =
      if not (strtabidx == 0) && not (symtabidx == 0)
      then read_symbols c f (section strtabidx) (section symtabidx).sh_offset
          ((section symtabidx).sh_size / sym_size c) 0 []
      else some []

  no_table : (found : ℕ × ℕ) → found.0 ≡ 0 → read_on found ≡ some []
  unfolding read_on
  no_table found unset = rw unset refl

  symbols_lem :
      (symbols : List (List ℕ × ℕ))
      → ((m : ℕ)
          → m < (ehdr c f.buf).e_shnum
          → is_string strtab_name f.buf (name m) ≡ true
          → (section m).sh_type ≡ sht_strtab)
      → load_symbols c f (ehdr c f.buf) ≡ some symbols
      → symbols ≡ []
  unfolding load_symbols names read_on
  symbols_lem symbols typed h =
      let eh = ehdr c f.buf in
      let shstr = section eh.e_shstrndx in
      let scanned = scan_sections c f names eh.e_shoff eh.e_shnum 0 (0, 0) in
      let after : Option (List (List ℕ × ℕ)) = scanned >>= read_on in
      let in_file = leb (add_word c shstr.sh_offset shstr.sh_size) f.size in
      let there = ltb eh.e_shstrndx eh.e_shnum in
      let s1 =
        guarded (leb (add64 eh.e_shoff (eh.e_shnum * shdr_size c)) f.size)
          (assert there >> (assert in_file >> after)) h in
      let s2 = guarded there (assert in_file >> after) s1 in
      let (found, h1, h2) = bind_some scanned read_on symbols (guarded in_file after s2) in
      let unset : found.0 ≡ 0 =
        scan_lem eh.e_shnum 0 (0, 0) found (λ m lt. typed m (omega arith)) h1 in
      some-injective symbols [] (sym h2 ∙ no_table found unset)

-- A file whose class is `c` was read without a failed assertion, and each of its sections with the
-- name ".strtab" has the type that the format gives to string tables, 3. Then no symbol was read.
pub read_elf-no_symbols :
    (f : File) (l : Loader) (symbols : List (List ℕ × ℕ)) (c : Class)
    → read_elf f start ≡ some (l, symbols)
    → class_of f.buf ≡ some c
    → ((m : ℕ)
        → m < (ehdr c f.buf).e_shnum
        → is_string strtab_name f.buf (name c f m) ≡ true
        → (section c f m).sh_type ≡ sht_strtab)
    → symbols ≡ []
read_elf-no_symbols f l symbols c h cls typed =
    symbols_lem c f symbols typed (read_lem f l symbols c h cls).1
