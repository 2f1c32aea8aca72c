-- ===== src/Elf.antt =====
-- src/hardware/tb/dpi/elfloader.cpp (hardware/tb/dpi): the simulator reads an ELF file, and the test
-- bench asks for the sections and copies their bytes into the simulated memory. Opening and mapping
-- the file succeed here, and the file is a size and its bytes; a failed assertion is `none`,
-- and so is a segment whose bytes are not all in the file or too many for the `int` that counts them.
-- Section headers, names and symbols are read from the file's bytes without such a test.
pub mod Headers
pub mod Loader
pub mod Segments
pub mod Laws
pub mod Sections
pub mod Symbols
mod Examples
