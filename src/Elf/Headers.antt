-- ===== src/Elf/Headers.antt =====
-- The structs of the file format that elfloader.cpp declares, read from the bytes of the file at
-- their offsets, in the host's byte order (little-endian). Fields that the loader does not use are
-- left out.
use many_rvdata.Base.{
  ℕ, zero, suc, ◌+◌, ◌*◌, ◌==◌, Bool, ◌&&◌, if◌then◌else◌, Option, none, some, add32, add64, sub32,
  sub64,
}

pub data Class : Type 0 where
  elf32 elf64 : Class

-- the `k` bytes at `a` as a number
unfoldable pub le : (k : ℕ) → (buf : ℕ → ℕ) → (a : ℕ) → ℕ
le zero buf a = 0
le (suc k) buf a = buf a + 256 * le k buf (a + 1)

-- `Elf32_Ehdr` and `Elf64_Ehdr`
pub record Ehdr : Type 0 where
  pub e_entry : ℕ
  pub e_phoff : ℕ
  pub e_shoff : ℕ
  pub e_phnum : ℕ
  pub e_shnum : ℕ
  pub e_shstrndx : ℕ

-- `Elf32_Phdr` and `Elf64_Phdr`
pub record Phdr : Type 0 where
  pub p_type : ℕ
  pub p_offset : ℕ
  pub p_paddr : ℕ
  pub p_filesz : ℕ
  pub p_memsz : ℕ

-- `Elf32_Shdr` and `Elf64_Shdr`
pub record Shdr : Type 0 where
  pub sh_name : ℕ
  pub sh_type : ℕ
  pub sh_offset : ℕ
  pub sh_size : ℕ

-- `Elf32_Sym` and `Elf64_Sym`
pub record Sym : Type 0 where
  pub st_name : ℕ
  pub st_value : ℕ

-- `sizeof`
abbrev pub phdr_size : Class → ℕ
phdr_size Class.elf32 = 32
phdr_size Class.elf64 = 56

abbrev pub shdr_size : Class → ℕ
shdr_size Class.elf32 = 40
shdr_size Class.elf64 = 64

abbrev pub sym_size : Class → ℕ
sym_size Class.elf32 = 16
sym_size Class.elf64 = 24

unfoldable pub ehdr : Class → (ℕ → ℕ) → Ehdr
unfolding le
ehdr Class.elf32 buf = record {
  e_entry = le 4 buf 24;
  e_phoff = le 4 buf 28;
  e_shoff = le 4 buf 32;
  e_phnum = le 2 buf 44;
  e_shnum = le 2 buf 48;
  e_shstrndx = le 2 buf 50;
}
ehdr Class.elf64 buf = record {
  e_entry = le 8 buf 24;
  e_phoff = le 8 buf 32;
  e_shoff = le 8 buf 40;
  e_phnum = le 2 buf 56;
  e_shnum = le 2 buf 60;
  e_shstrndx = le 2 buf 62;
}

-- the program header that starts at `a`
unfoldable pub phdr_at : Class → (ℕ → ℕ) → (a : ℕ) → Phdr
unfolding le
phdr_at Class.elf32 buf a = record {
  p_type = le 4 buf a;
  p_offset = le 4 buf (a + 4);
  p_paddr = le 4 buf (a + 12);
  p_filesz = le 4 buf (a + 16);
  p_memsz = le 4 buf (a + 20);
}
phdr_at Class.elf64 buf a = record {
  p_type = le 4 buf a;
  p_offset = le 8 buf (a + 8);
  p_paddr = le 8 buf (a + 24);
  p_filesz = le 8 buf (a + 32);
  p_memsz = le 8 buf (a + 40);
}

unfoldable pub shdr_at : Class → (ℕ → ℕ) → (a : ℕ) → Shdr
unfolding le
shdr_at Class.elf32 buf a = record {
  sh_name = le 4 buf a;
  sh_type = le 4 buf (a + 4);
  sh_offset = le 4 buf (a + 16);
  sh_size = le 4 buf (a + 20);
}
shdr_at Class.elf64 buf a = record {
  sh_name = le 4 buf a;
  sh_type = le 4 buf (a + 4);
  sh_offset = le 8 buf (a + 24);
  sh_size = le 8 buf (a + 32);
}

unfoldable pub sym_at : Class → (ℕ → ℕ) → (a : ℕ) → Sym
unfolding le
sym_at Class.elf32 buf a = record { st_name = le 4 buf a; st_value = le 4 buf (a + 4) }
sym_at Class.elf64 buf a = record { st_name = le 4 buf a; st_value = le 8 buf (a + 8) }

-- `IS_ELF`, and `IS_ELF32` or `IS_ELF64`
abbrev pub is_elf : (ℕ → ℕ) → Bool
is_elf buf = buf 0 == 127 && buf 1 == 69 && buf 2 == 76 && buf 3 == 70

abbrev pub class_of : (ℕ → ℕ) → Option Class
class_of buf =
    if is_elf buf && buf 4 == 1
    then some Class.elf32
    else (if is_elf buf && buf 4 == 2 then some Class.elf64 else none)

-- sums and differences in the class's word
abbrev pub add_word : Class → ℕ → ℕ → ℕ
add_word Class.elf32 a b = add32 a b
add_word Class.elf64 a b = add64 a b

abbrev pub sub_word : Class → ℕ → ℕ → ℕ
sub_word Class.elf32 a b = sub32 a b
sub_word Class.elf64 a b = sub64 a b
