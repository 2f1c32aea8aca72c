-- ===== src/Kmp.antt =====
-- src/omp/kmp.c of the runtime (software/snRuntime): the entry points that compiled OpenMP code
-- calls. A 32-bit or 64-bit integer is a word; `int` and `unsigned` share their words.
pub mod Static
pub mod Dynamic
pub mod Fork
mod Examples
