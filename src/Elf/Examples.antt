-- ===== src/Elf/Examples.antt =====
-- A 32-bit file with one segment, of three bytes in the file and eight in memory, and three sections.
use many_rvdata.Base.{
  ℕ, zero, suc, ◌+◌, ◌<◌, ◌≡◌, refl, arith, ◌==◌, ltb, true, if◌then◌else◌, some, List, [], ◌∷◌,
}
use many_rvdata.Elf.Headers.{Class, le, ehdr, phdr_at, shdr_at, class_of}
use many_rvdata.Elf.Loader.{
  File, Loader, bytes, write, load_segment, load_segments, scan_section, scan_sections,
  read_symbols, load_symbols, load_elf, read_elf, start, drain, read_section, is_string,
  strtab_name,
}
use many_rvdata.Elf.Segments.{InFile, loadable, loads, header}
use many_rvdata.Elf.Laws.{read_elf-read_section}
use many_rvdata.Elf.Sections.{read_elf-get_section}
use many_rvdata.Elf.Symbols.{read_elf-no_symbols, section, name, sht_strtab}

-- the bytes that are not 0
abbrev sparse : List (ℕ × ℕ) → ℕ → ℕ
sparse [] a = 0
sparse ((b, v) ∷ rest) a = if a == b then v else sparse rest a

abbrev from : (a : ℕ) → List ℕ → List (ℕ × ℕ) → List (ℕ × ℕ)
from a [] rest = rest
from a (v ∷ vs) rest = (a, v) ∷ from (a + 1) vs rest

abbrev contents : List (ℕ × ℕ)
contents = from 0 (127 ∷ 69 ∷ 76 ∷ 70 ∷ 1 ∷ []) (
    (25, 16)
    ∷ (28, 52)
    ∷ (32, 112)
    ∷ (44, 1)
    ∷ (48, 3)
    ∷ (50, 1)
    ∷ (52, 1)
    ∷ (56, 84)
    ∷ (65, 16)
    ∷ (68, 3)
    ∷ (72, 8)
    ∷ from 84 (7 ∷ 8 ∷ 9 ∷ []) (
        from 89 (46 ∷ 115 ∷ 104 ∷ 115 ∷ 116 ∷ 114 ∷ 116 ∷ 97 ∷ 98 ∷ []) (
          from 99 (46 ∷ 115 ∷ 116 ∷ 114 ∷ 116 ∷ 97 ∷ 98 ∷ [])
            ((152, 1) ∷ (156, 3) ∷ (168, 88) ∷ (172, 19) ∷ (192, 11) ∷ (196, 3) ∷ []))))

abbrev file : File
file = record { size = 232; buf = sparse contents }

abbrev loaded : Loader
loaded = record {
  sections = (4096, 8) ∷ [];
  mems = (4096, 7 ∷ 8 ∷ 9 ∷ []) ∷ [];
  entry = 4096;
  section_index = 0;
}

file-loaded : read_elf file start ≡ some (loaded, [])
unfolding read_elf load_elf load_segments load_segment write bytes load_symbols scan_sections
    scan_section read_symbols ehdr phdr_at shdr_at le
file-loaded = refl

file-class : class_of file.buf ≡ some Class.elf32
file-class = refl

one_header : 0 < (ehdr Class.elf32 file.buf).e_phnum
unfolding ehdr le
one_header = omega arith

header-loads : loads (header Class.elf32 file (ehdr Class.elf32 file.buf).e_phoff 0) ≡ true
unfolding ehdr phdr_at le
header-loads = refl

named :
    (m : ℕ)
    → m < (ehdr Class.elf32 file.buf).e_shnum
    → is_string strtab_name file.buf (name Class.elf32 file m) ≡ true
    → (section Class.elf32 file m).sh_type ≡ sht_strtab
unfolding ehdr shdr_at le
named zero lt e = absurd (ground arith)
named (suc zero) lt e = refl
named (suc (suc zero)) lt e = refl
named (suc (suc (suc m))) lt e = absurd (omega arith)

abbrev symbols_read : List (List ℕ × ℕ)
symbols_read = []

read_elf-no_symbols_example : symbols_read ≡ []
read_elf-no_symbols_example =
    read_elf-no_symbols file loaded symbols_read Class.elf32 file-loaded file-class named

read_elf-get_section_example :
    drain (suc (ehdr Class.elf32 file.buf).e_phnum) loaded
    ≡ some (
        loadable Class.elf32 file.buf
          (ehdr Class.elf32 file.buf).e_phoff
          (ehdr Class.elf32 file.buf).e_phnum
          0)
read_elf-get_section_example =
    read_elf-get_section file loaded [] Class.elf32 file-loaded file-class

read_elf-read_section_example :
    let ph = header Class.elf32 file (ehdr Class.elf32 file.buf).e_phoff 0 in
    InFile file ph
    × (b : ℕ → ℕ) × (read_section ph.p_paddr (λ a. 0) loaded ≡ some b)
    × ((a : ℕ) → b a ≡ (if ltb a ph.p_filesz then file.buf (ph.p_offset + a) else 0))
read_elf-read_section_example =
    read_elf-read_section file loaded [] Class.elf32 0 (λ a. 0) file-loaded file-class one_header
      header-loads (λ m lt l. absurd (omega arith))
