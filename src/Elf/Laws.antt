-- ===== src/Elf/Laws.antt =====
-- What the test bench gets of a file that was read: the bytes of its segments.
use many_rvdata.Base.{
  ℕ, zero, suc, ◌+◌, ◌-◌, ◌*◌, ◌<◌, ◌≡◌, ◌≢◌, refl, sym, ap, ◌∙◌, subst, arith, ◌==◌, ltb, leb,
  true, ◌&&◌, if◌then◌else◌, none, some, List, add64,
}
use mathlib.Core.Option.{some-injective}
use many_rvdata.Elf.Headers.{Class, phdr_size, ehdr, class_of}
use many_rvdata.Elf.Loader.{
  ◌>>=◌, assert, File, Loader, find, bytes, copy_out, read_section, load_segments, load_symbols,
  load_elf, read_elf, start,
}
use many_rvdata.Elf.Segments.{InFile, loads, header, bind_some, mems_lem}

copied : (len i o : ℕ) (buf buffer : ℕ → ℕ) (a : ℕ) → ℕ
copied len i o buf buffer a = if leb i a && ltb a (i + len) then buf (o + (a - i)) else buffer a

copy_out-bytes :
    (len i o : ℕ) (buf buffer : ℕ → ℕ) (a : ℕ)
    → copy_out (bytes len buf o) i buffer a ≡ copied len i o buf buffer a
unfolding copy_out bytes copied
copy_out-bytes zero i o buf buffer a = ground arith
copy_out-bytes (suc len) i o buf buffer a =
    copy_out-bytes len (i + 1) (o + 1) buf (λ b. if b == i then buf o else buffer b) a
    ∙ ground arith

read_found :
    (address : ℕ) (buffer : ℕ → ℕ) (l : Loader) (mem : List ℕ)
    → find address l.mems ≡ some mem
    → read_section address buffer l ≡ some (copy_out mem 0 buffer)
unfolding read_section
read_found address buffer l mem there =
    ap (λ o. elim o [ some mem ↦ some (copy_out mem 0 buffer) | none ↦ none ]) there

from_start :
    (len o : ℕ) (buf buffer : ℕ → ℕ) (a : ℕ)
    → copied len 0 o buf buffer a ≡ (if ltb a len then buf (o + a) else buffer a)
unfolding copied
from_start len o buf buffer a = ground arith

-- the parts of a file that was read
abbrev Parts : File → Loader → List (List ℕ × ℕ) → Class → Type 0
Parts f l symbols c =
    (load_segments c f (ehdr c f.buf).e_phoff (ehdr c f.buf).e_phnum 0
        (record start { entry = (ehdr c f.buf).e_entry })
      ≡ some l)
    × (load_symbols c f (ehdr c f.buf) ≡ some symbols)

load_lem :
    (f : File) (l : Loader) (symbols : List (List ℕ × ℕ)) (c : Class)
    → load_elf c f start ≡ some (l, symbols)
    → Parts f l symbols c
unfolding load_elf
load_lem f l symbols c h =
    let eh = ehdr c f.buf in
    let symbol_part = λ (l : Loader). load_symbols c f eh >>= λ symbols. some (l, symbols) in
    let segment_part =
      load_segments c f eh.e_phoff eh.e_phnum 0 (record start { entry = eh.e_entry }) in
    let (u, hu, h1) =
      bind_some (assert (leb (add64 eh.e_phoff (eh.e_phnum * phdr_size c)) f.size))
        (λ u. segment_part >>= symbol_part) (l, symbols) h in
    let (l1, hl, h2) = bind_some segment_part symbol_part (l, symbols) h1 in
    let (syms, hs, h3) =
      bind_some (load_symbols c f eh) (λ symbols. some (l1, symbols)) (l, symbols) h2 in
    let same = some-injective (l1, syms) (l, symbols) h3 in
    (hl ∙ ap (λ p. some p.0) same, hs ∙ ap (λ p. some p.1) same)

pub read_lem :
    (f : File) (l : Loader) (symbols : List (List ℕ × ℕ)) (c : Class)
    → read_elf f start ≡ some (l, symbols)
    → class_of f.buf ≡ some c
    → Parts f l symbols c
unfolding read_elf
read_lem f l symbols c h cls =
    let (u, hu, h1) =
      bind_some (assert (leb 64 f.size)) (λ u. class_of f.buf >>= λ c. load_elf c f start)
        (l, symbols) h in
    let (d, hd, h2) = bind_some (class_of f.buf) (λ c. load_elf c f start) (l, symbols) h1 in
    subst (Parts f l symbols) (some-injective d c (sym hd ∙ cls)) (load_lem f l symbols d h2)

-- A file whose class is `c` was read without a failed assertion and without a read outside of it, and
-- program header `j` is one to load: its type is PT_LOAD, and it has bytes in memory and in the file. No earlier header to load
-- has the same address. Then its bytes in the file are fewer than 2^31 and lie in the file, and
-- `read_section` at its address puts the file's bytes from its offset on into the buffer, as many as
-- it has in the file, and leaves the rest of the buffer.
pub read_elf-read_section :
    (f : File) (l : Loader) (symbols : List (List ℕ × ℕ)) (c : Class) (j : ℕ) (buffer : ℕ → ℕ)
    → read_elf f start ≡ some (l, symbols)
    → class_of f.buf ≡ some c
    → j < (ehdr c f.buf).e_phnum
    → loads (header c f (ehdr c f.buf).e_phoff j) ≡ true
    → ((m : ℕ)
        → m < j
        → loads (header c f (ehdr c f.buf).e_phoff m) ≡ true
        → (header c f (ehdr c f.buf).e_phoff m).p_paddr
          ≢ (header c f (ehdr c f.buf).e_phoff j).p_paddr)
    → let ph = header c f (ehdr c f.buf).e_phoff j in
      InFile f ph
      × (b : ℕ → ℕ) × (read_section ph.p_paddr buffer l ≡ some b)
      × ((a : ℕ) → b a ≡ (if ltb a ph.p_filesz then f.buf (ph.p_offset + a) else buffer a))
read_elf-read_section f l symbols c j buffer h cls lt is alone =
    let eh = ehdr c f.buf in
    let ph = header c f eh.e_phoff j in
    let mem = bytes ph.p_filesz f.buf ph.p_offset in
    let (there, fits) =
      mems_lem c f eh.e_phoff eh.e_phnum 0 j (record start { entry = eh.e_entry }) l (omega arith)
        (omega arith) is (λ m lm ltm. alone m ltm) refl (read_lem f l symbols c h cls).0 in
    (
      fits,
      copy_out mem 0 buffer,
      read_found ph.p_paddr buffer l mem there,
      λ a.
          copy_out-bytes ph.p_filesz 0 ph.p_offset f.buf buffer a
          ∙ from_start ph.p_filesz ph.p_offset f.buf buffer a,
    )
