-- ===== src/Securec.antt =====
-- silog_comm/src/silog_securec.c: the memory and string functions with checked bounds. `Memory` has the
-- functions on memory with pointers that may overlap, `Text` the copying of texts, `Compare` and `Search` the
-- functions that read them, `Tokens` the
-- splitting of a text, `Format` the functions that print and scan.
pub mod Memory
pub mod Text
pub mod Compare
pub mod Search
pub mod Tokens
pub mod Format
mod Tests

-- The codes `EOK`, `EINVAL` and `ERANGE`.
pub data Errno : Type 0 where
  eok einval erange : Errno
