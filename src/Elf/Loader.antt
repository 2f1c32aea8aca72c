-- ===== src/Elf/Loader.antt =====
-- The functions of elfloader.cpp.
use many_rvdata.Base.{
  ℕ, zero, suc, ◌+◌, ◌*◌, ◌/◌, ◌^◌, ◌==◌, ltb, leb, Bool, true, false, not, ◌&&◌, ◌||◌,
  if◌then◌else◌, Option, none, some, List, [], ◌∷◌, ◌++◌, length, get_elem?, u32, add64, sub32,
  bit_and,
}
use many_rvdata.Elf.Headers.{
  Class, Ehdr, Phdr, Shdr, phdr_size, shdr_size, sym_size, ehdr, phdr_at, shdr_at, sym_at, class_of,
  add_word, sub_word,
}

infixl 5 ◌>>=◌ ◌>>◌
abbrev pub ◌>>=◌ {ℓ κ} : {A : Type ℓ} {B : Type κ} → Option A → (A → Option B) → Option B
none >>= f = none
some a >>= f = f a

abbrev pub ◌>>◌ {ℓ} : {B : Type ℓ} → Option (Unit {0}) → Option B → Option B
m >> k = m >>= λ _. k

abbrev pub assert : Bool → Option (Unit {0})
assert true = some tt
assert false = none

pub record File : Type 0 where
  pub size : ℕ
  pub buf : ℕ → ℕ

-- the globals; `mems` is a map with the addresses as keys
pub record Loader : Type 0 where
  pub sections : List (ℕ × ℕ)
  pub mems : List (ℕ × List ℕ)
  pub entry : ℕ
  pub section_index : ℕ

abbrev pub find : ℕ → List (ℕ × List ℕ) → Option (List ℕ)
find address [] = none
find address ((a, mem) ∷ mems) = if a == address then some mem else find address mems

-- `std::map::insert`: an address that is there keeps its bytes
abbrev pub insert : ℕ → List ℕ → List (ℕ × List ℕ) → List (ℕ × List ℕ)
insert address mem mems = elim (find address mems) [
  | some old ↦ mems
  | none ↦ (address, mem) ∷ mems
]

-- the `len` bytes at `a`
unfoldable pub bytes : (len : ℕ) → (ℕ → ℕ) → (a : ℕ) → List ℕ
bytes zero buf a = []
bytes (suc len) buf a = buf a ∷ bytes len buf (a + 1)

-- `none` too where the `int` index of the loop would overflow, or a byte outside the file be read.
unfoldable pub write : (size address len a : ℕ) → (ℕ → ℕ) → Loader → Option Loader
unfolding bytes
write size address len a buf l = do
  assert (ltb len (2 ^ 31))
  assert (leb (a + len) size)
  some (record l { mems = insert address (bytes len buf a) l.mems })

-- the address and the length of the next section
unfoldable pub get_section : Loader → Option (ℕ × ℕ) × Loader
get_section l =
    if ltb l.section_index (length l.sections)
    then (get_elem? l.sections l.section_index, record l { section_index = l.section_index + 1 })
    else (none, l)

-- the loop of `read_section` from index `i` on, into the test bench's buffer
unfoldable pub copy_out : List ℕ → (i : ℕ) → (ℕ → ℕ) → ℕ → ℕ
copy_out [] i buffer = buffer
copy_out (datum ∷ mem) i buffer = copy_out mem (i + 1) (λ a. if a == i then datum else buffer a)

unfoldable pub read_section : (address : ℕ) → (buffer : ℕ → ℕ) → Loader → Option (ℕ → ℕ)
unfolding copy_out
read_section address buffer l = elim (find address l.mems) [
  | some mem ↦ some (copy_out mem 0 buffer)
  | none ↦ none
]

-- `zeros.resize` throws beyond the largest size of a vector; the vector is not used.
abbrev pub resize : ℕ → Option (Unit {0})
resize n = assert (ltb n (2 ^ 63))

abbrev pub pt_load : ℕ
pt_load = 1

-- one round of the loop over the program headers
unfoldable pub load_segment : Class → File → Phdr → Loader → Option Loader
unfolding write
load_segment c f ph l =
    if ph.p_type == pt_load && not (ph.p_memsz == 0)
    then ((if ph.p_filesz == 0 then some l else (do
      assert (leb (add_word c ph.p_offset ph.p_filesz) f.size)
      write f.size ph.p_paddr ph.p_filesz ph.p_offset f.buf
          (record l { sections = l.sections ++ (ph.p_paddr, ph.p_memsz) ∷ [] })))
        >>= λ l. resize (sub_word c ph.p_memsz ph.p_filesz) >> some l)
    else some l

-- the loop over the program headers from `i` on, with `k` rounds left
unfoldable pub load_segments : Class → File → (phoff k i : ℕ) → Loader → Option Loader
unfolding load_segment
load_segments c f phoff zero i l = some l
load_segments c f phoff (suc k) i l =
    load_segment c f (phdr_at c f.buf (phoff + i * phdr_size c)) l
    >>= load_segments c f phoff k (i + 1)

-- `strcmp(s, name) == 0` for the string at `a`
abbrev pub is_string : List ℕ → (ℕ → ℕ) → (a : ℕ) → Bool
is_string [] buf a = buf a == 0
is_string (c ∷ name) buf a = buf a == c && is_string name buf (a + 1)

-- `strnlen(s, max) < max`
abbrev pub ends_within : (max : ℕ) → (ℕ → ℕ) → (a : ℕ) → Bool
ends_within zero buf a = false
ends_within (suc max) buf a = buf a == 0 || ends_within max buf (a + 1)

-- ".strtab", ".shstrtab" and ".symtab"
abbrev pub strtab_name : List ℕ
strtab_name = 46 ∷ 115 ∷ 116 ∷ 114 ∷ 116 ∷ 97 ∷ 98 ∷ []

abbrev pub shstrtab_name : List ℕ
shstrtab_name = 46 ∷ 115 ∷ 104 ∷ 115 ∷ 116 ∷ 114 ∷ 116 ∷ 97 ∷ 98 ∷ []

abbrev pub symtab_name : List ℕ
symtab_name = 46 ∷ 115 ∷ 121 ∷ 109 ∷ 116 ∷ 97 ∷ 98 ∷ []

abbrev pub sht_progbits : ℕ
sht_progbits = 1

abbrev pub sht_group : ℕ
sht_group = 17

-- What the rounds share: the header of the section with the names, and where the names start.
pub record Names : Type 0 where
  pub shstr : Shdr
  pub shstrtab : ℕ

-- One round of the loop over the section headers; the pair is `strtabidx` and `symtabidx`.
unfoldable pub scan_section : File → Names → Shdr → (i : ℕ) → ℕ × ℕ → Option (ℕ × ℕ)
scan_section f names sh i (strtabidx, symtabidx) =
    let max_len = sub32 (u32 names.shstr.sh_size) sh.sh_name in
    let name = names.shstrtab + sh.sh_name in
    let is_strtab = is_string strtab_name f.buf name in
    let is_shstrtab = is_string shstrtab_name f.buf name in
    assert (
      bit_and sh.sh_type sht_group == 0
      || is_strtab
      || is_shstrtab
      || ends_within max_len f.buf name)
    >> some (
        if not (bit_and sh.sh_type sht_progbits == 0) then (strtabidx, symtabidx) else (
          if is_strtab then i else strtabidx,
          if is_string symtab_name f.buf name then i else symtabidx,
        ))

unfoldable pub scan_sections : Class → File → Names → (shoff k i : ℕ) → ℕ × ℕ → Option (ℕ × ℕ)
unfolding scan_section
scan_sections c f names shoff zero i found = some found
scan_sections c f names shoff (suc k) i found =
    scan_section f names (shdr_at c f.buf (shoff + i * shdr_size c)) i found
    >>= scan_sections c f names shoff k (i + 1)

-- the string at `a`, which ends within `max` bytes
abbrev pub string_at : (max : ℕ) → (ℕ → ℕ) → (a : ℕ) → List ℕ
string_at zero buf a = []
string_at (suc max) buf a = if buf a == 0 then [] else buf a ∷ string_at max buf (a + 1)

-- The map `symbols` that `read_elf` declares, the latest value first.
unfoldable pub read_symbols :
    Class
    → File
    → (strtab : Shdr) → (symtab k i : ℕ) → List (List ℕ × ℕ)
    → Option (List (List ℕ × ℕ))
read_symbols c f strtab symtab zero i symbols = some symbols
read_symbols c f strtab symtab (suc k) i symbols =
    let sym = sym_at c f.buf (symtab + i * sym_size c) in
    let max_len = sub32 (u32 strtab.sh_size) sym.st_name in
    let name = strtab.sh_offset + sym.st_name in
    assert (ltb sym.st_name strtab.sh_size && ends_within max_len f.buf name)
    >> read_symbols c f strtab symtab k (i + 1)
        ((string_at max_len f.buf name, sym.st_value) ∷ symbols)

-- from the section headers on
unfoldable pub load_symbols : Class → File → Ehdr → Option (List (List ℕ × ℕ))
unfolding scan_sections read_symbols
load_symbols c f eh =
    let section = λ (i : ℕ). shdr_at c f.buf (eh.e_shoff + i * shdr_size c) in
    let shstr = section eh.e_shstrndx in
    assert (leb (add64 eh.e_shoff (eh.e_shnum * shdr_size c)) f.size)
    >> (assert (ltb eh.e_shstrndx eh.e_shnum)
        >> (assert (leb (add_word c shstr.sh_offset shstr.sh_size) f.size)
            >> (scan_sections c f (record { shstr = shstr; shstrtab = shstr.sh_offset }) eh.e_shoff
                  eh.e_shnum 0 (0, 0)
                >>= λ (strtabidx, symtabidx).
                    if not (strtabidx == 0) && not (symtabidx == 0)
                    then read_symbols c f (section strtabidx) (section symtabidx).sh_offset
                        ((section symtabidx).sh_size / sym_size c) 0 []
                    else some [])))

-- `LOAD_ELF`, with the symbols that it reads
unfoldable pub load_elf : Class → File → Loader → Option (Loader × List (List ℕ × ℕ))
unfolding load_segments load_symbols
load_elf c f l =
    let eh = ehdr c f.buf in
    assert (leb (add64 eh.e_phoff (eh.e_phnum * phdr_size c)) f.size)
    >> (load_segments c f eh.e_phoff eh.e_phnum 0 (record l { entry = eh.e_entry }) >>= λ l.
        load_symbols c f eh >>= λ symbols. some (l, symbols))

unfoldable pub read_elf : File → Loader → Option (Loader × List (List ℕ × ℕ))
unfolding load_elf
read_elf f l = assert (leb 64 f.size) >> (class_of f.buf >>= λ c. load_elf c f l)

-- the globals before the first call
abbrev pub start : Loader
start = record { sections = []; mems = []; entry = 0; section_index = 0 }

-- What the test bench does: ask for sections until there are no more.
unfoldable pub drain : (fuel : ℕ) → Loader → Option (List (ℕ × ℕ))
unfolding get_section
drain zero l = none
drain (suc fuel) l = elim (get_section l).0 [
  | none ↦ some []
  | some section ↦ drain fuel (get_section l).1 >>= λ rest. some (section ∷ rest)
]
