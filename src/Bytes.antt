-- ===== src/Bytes.antt =====
-- Byte slices as lists of numbers, with what the Go standard library does on them that the
-- program uses: binary.BigEndian, bytes.Compare, bytes.Equal, copy and slice expressions.
pub mod BigEndian
pub mod Slices
pub mod Compare
use gohbase.Prelude.{ℕ, ◌<◌, List}

abbrev pub Bytes : Type 0
Bytes = List ℕ

abbrev pub IsByte : ℕ → Type 0
IsByte b = b < 256
