-- ===== src/RegionClient/Exceptions.antt =====
-- region/client.go (the tables of Java exceptions and exceptionToError). A string is a list of bytes.
use gohbase.Prelude.{
  ℕ, Bool, true, false, ◌&&◌, ◌||◌, Option, none, some, List, [], ◌∷◌, ◌++◌, ◌==◌, if◌then◌else◌,
}
use gohbase.Bytes.{Bytes}
use gohbase.Bytes.Compare.{equal}

abbrev pub Table : Type 0
Table = List (Bytes × Bytes)

abbrev pub hbase_package : Bytes
hbase_package =
    (b'o' ∷ b'r' ∷ b'g' ∷ b'.' ∷ b'a' ∷ b'p' ∷ b'a' ∷ b'c' ∷ b'h' ∷ b'e' ∷ b'.' ∷ b'h' ∷ b'a' ∷ b'd'
      ∷ b'o' ∷ b'o' ∷ b'p' ∷ b'.' ∷ b'h' ∷ b'b' ∷ b'a' ∷ b's' ∷ b'e' ∷ b'.' ∷ [])

abbrev pub java_region_exceptions : Table
java_region_exceptions =
    (
      hbase_package
          ++ (b'N' ∷ b'o' ∷ b't' ∷ b'S' ∷ b'e' ∷ b'r' ∷ b'v' ∷ b'i' ∷ b'n' ∷ b'g' ∷ b'R' ∷ b'e'
              ∷ b'g' ∷ b'i' ∷ b'o' ∷ b'n' ∷ b'E' ∷ b'x' ∷ b'c' ∷ b'e' ∷ b'p' ∷ b't' ∷ b'i' ∷ b'o'
              ∷ b'n' ∷ []),
      [],
    )
    ∷ (
      hbase_package
          ++ (b'e' ∷ b'x' ∷ b'c' ∷ b'e' ∷ b'p' ∷ b't' ∷ b'i' ∷ b'o' ∷ b'n' ∷ b's' ∷ b'.' ∷ b'R'
              ∷ b'e' ∷ b'g' ∷ b'i' ∷ b'o' ∷ b'n' ∷ b'M' ∷ b'o' ∷ b'v' ∷ b'e' ∷ b'd' ∷ b'E' ∷ b'x'
              ∷ b'c' ∷ b'e' ∷ b'p' ∷ b't' ∷ b'i' ∷ b'o' ∷ b'n' ∷ []),
      [],
    )
    ∷ (
      (b'j' ∷ b'a' ∷ b'v' ∷ b'a' ∷ b'.' ∷ b'i' ∷ b'o' ∷ b'.' ∷ b'I' ∷ b'O' ∷ b'E' ∷ b'x' ∷ b'c'
          ∷ b'e' ∷ b'p' ∷ b't' ∷ b'i' ∷ b'o' ∷ b'n' ∷ []),
      (b'C' ∷ b'a' ∷ b'n' ∷ b'n' ∷ b'o' ∷ b't' ∷ b' ' ∷ b'a' ∷ b'p' ∷ b'p' ∷ b'e' ∷ b'n' ∷ b'd'
          ∷ b';' ∷ b' ' ∷ b'l' ∷ b'o' ∷ b'g' ∷ b' ' ∷ b'i' ∷ b's' ∷ b' ' ∷ b'c' ∷ b'l' ∷ b'o' ∷ b's'
          ∷ b'e' ∷ b'd' ∷ []),
    )
    ∷ []

abbrev pub java_retryable_exceptions : Table
java_retryable_exceptions =
    (
      hbase_package
          ++ (b'C' ∷ b'a' ∷ b'l' ∷ b'l' ∷ b'Q' ∷ b'u' ∷ b'e' ∷ b'u' ∷ b'e' ∷ b'T' ∷ b'o' ∷ b'o'
              ∷ b'B' ∷ b'i' ∷ b'g' ∷ b'E' ∷ b'x' ∷ b'c' ∷ b'e' ∷ b'p' ∷ b't' ∷ b'i' ∷ b'o' ∷ b'n'
              ∷ []),
      [],
    )
    ∷ (
      hbase_package
          ++ (b'e' ∷ b'x' ∷ b'c' ∷ b'e' ∷ b'p' ∷ b't' ∷ b'i' ∷ b'o' ∷ b'n' ∷ b's' ∷ b'.' ∷ b'R'
              ∷ b'e' ∷ b'g' ∷ b'i' ∷ b'o' ∷ b'n' ∷ b'O' ∷ b'p' ∷ b'e' ∷ b'n' ∷ b'i' ∷ b'n' ∷ b'g'
              ∷ b'E' ∷ b'x' ∷ b'c' ∷ b'e' ∷ b'p' ∷ b't' ∷ b'i' ∷ b'o' ∷ b'n' ∷ []),
      [],
    )
    ∷ (
      hbase_package
          ++ (b'i' ∷ b'p' ∷ b'c' ∷ b'.' ∷ b'S' ∷ b'e' ∷ b'r' ∷ b'v' ∷ b'e' ∷ b'r' ∷ b'N' ∷ b'o'
              ∷ b't' ∷ b'R' ∷ b'u' ∷ b'n' ∷ b'n' ∷ b'i' ∷ b'n' ∷ b'g' ∷ b'Y' ∷ b'e' ∷ b't' ∷ b'E'
              ∷ b'x' ∷ b'c' ∷ b'e' ∷ b'p' ∷ b't' ∷ b'i' ∷ b'o' ∷ b'n' ∷ []),
      [],
    )
    ∷ (
      hbase_package
          ++ (b'q' ∷ b'u' ∷ b'o' ∷ b't' ∷ b'a' ∷ b's' ∷ b'.' ∷ b'R' ∷ b'p' ∷ b'c' ∷ b'T' ∷ b'h'
              ∷ b'r' ∷ b'o' ∷ b't' ∷ b't' ∷ b'l' ∷ b'i' ∷ b'n' ∷ b'g' ∷ b'E' ∷ b'x' ∷ b'c' ∷ b'e'
              ∷ b'p' ∷ b't' ∷ b'i' ∷ b'o' ∷ b'n' ∷ []),
      [],
    )
    ∷ (
      hbase_package
          ++ (b'R' ∷ b'e' ∷ b't' ∷ b'r' ∷ b'y' ∷ b'I' ∷ b'm' ∷ b'm' ∷ b'e' ∷ b'd' ∷ b'i' ∷ b'a'
              ∷ b't' ∷ b'e' ∷ b'l' ∷ b'y' ∷ b'E' ∷ b'x' ∷ b'c' ∷ b'e' ∷ b'p' ∷ b't' ∷ b'i' ∷ b'o'
              ∷ b'n' ∷ []),
      [],
    )
    ∷ (
      hbase_package
          ++ (b'R' ∷ b'e' ∷ b'g' ∷ b'i' ∷ b'o' ∷ b'n' ∷ b'T' ∷ b'o' ∷ b'o' ∷ b'B' ∷ b'u' ∷ b's'
              ∷ b'y' ∷ b'E' ∷ b'x' ∷ b'c' ∷ b'e' ∷ b'p' ∷ b't' ∷ b'i' ∷ b'o' ∷ b'n' ∷ []),
      [],
    )
    ∷ []

abbrev pub java_server_exceptions : Table
java_server_exceptions =
    (
      hbase_package
          ++ (b'r' ∷ b'e' ∷ b'g' ∷ b'i' ∷ b'o' ∷ b'n' ∷ b's' ∷ b'e' ∷ b'r' ∷ b'v' ∷ b'e' ∷ b'r'
              ∷ b'.' ∷ b'R' ∷ b'e' ∷ b'g' ∷ b'i' ∷ b'o' ∷ b'n' ∷ b'S' ∷ b'e' ∷ b'r' ∷ b'v' ∷ b'e'
              ∷ b'r' ∷ b'A' ∷ b'b' ∷ b'o' ∷ b'r' ∷ b't' ∷ b'e' ∷ b'd' ∷ b'E' ∷ b'x' ∷ b'c' ∷ b'e'
              ∷ b'p' ∷ b't' ∷ b'i' ∷ b'o' ∷ b'n' ∷ []),
      [],
    )
    ∷ (
      hbase_package
          ++ (b'r' ∷ b'e' ∷ b'g' ∷ b'i' ∷ b'o' ∷ b'n' ∷ b's' ∷ b'e' ∷ b'r' ∷ b'v' ∷ b'e' ∷ b'r'
              ∷ b'.' ∷ b'R' ∷ b'e' ∷ b'g' ∷ b'i' ∷ b'o' ∷ b'n' ∷ b'S' ∷ b'e' ∷ b'r' ∷ b'v' ∷ b'e'
              ∷ b'r' ∷ b'S' ∷ b't' ∷ b'o' ∷ b'p' ∷ b'p' ∷ b'e' ∷ b'd' ∷ b'E' ∷ b'x' ∷ b'c' ∷ b'e'
              ∷ b'p' ∷ b't' ∷ b'i' ∷ b'o' ∷ b'n' ∷ []),
      [],
    )
    ∷ []

-- What an RPC fails with, of one of the classes of region/client.go.
pub data Cause : Type 0 where
  unread bad_header missing_call_id deadline bad_response bad_compression bad_cells : Cause
  client_closed : Cause
  unexpected_call_id : ℕ → Cause
  short_read : ℕ → ℕ → Cause
  exception : Bytes → Bytes → Cause

pub data RpcError : Type 0 where
  server_error retryable_error not_serving_region_error plain_error : Cause → RpcError

pub lookup_exception : Bytes → Table → Option Bytes
lookup_exception class [] = none
lookup_exception class ((k, v) ∷ table) =
    if equal k class then some v else lookup_exception class table

pub has_prefix : Bytes → Bytes → Bool
has_prefix b [] = true
has_prefix [] (y ∷ s) = false
has_prefix (x ∷ b) (y ∷ s) = x == y && has_prefix b s

-- strings.Contains.
pub contains : Bytes → Bytes → Bool
contains [] s = has_prefix [] s
contains (x ∷ b) s = has_prefix (x ∷ b) s || contains b s

pub is_listed : Table → Bytes → Bytes → Bool
is_listed table class stack = elim (lookup_exception class table) [
  | none ↦ false
  | some s ↦ contains stack s
]

pub exception_to_error : Bytes → Bytes → RpcError
exception_to_error class stack =
    if is_listed java_retryable_exceptions class stack
    then retryable_error (exception class stack)
    else if is_listed java_region_exceptions class stack
    then not_serving_region_error (exception class stack)
    else if is_listed java_server_exceptions class stack
    then server_error (exception class stack)
    else plain_error (exception class stack)
