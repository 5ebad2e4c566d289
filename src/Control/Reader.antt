-- ===== src/Control/Reader.antt =====
-- The buffered reader under the control channel, and the bounded line reader that src/serve.rs and
-- src/control_crypto.rs both have, each with its own limit. The reader is the list of the chunks
-- that `fill_buf` shows in turn, an empty list at the end of the stream: a consumed prefix leaves
-- its chunk shorter, and a chunk with nothing left gives way to the next.
pub mod Lines
pub mod Limits
use xfr.Prelude.{
  ℕ, ◌+◌, ◌-◌, ◌⊎◌, Bool, Option, none, some, List, [], ◌∷◌, ◌++◌, inl, inr, length, take, drop,
  ◌==◌, ltb, leb, if◌then◌else◌,
}
use xfr.Control.Codec.{ControlError, line_too_long, unexpected_eof}

abbrev pub Reader : Type 0
Reader = List (List ℕ)

abbrev pub max_line_length : ℕ
max_line_length = 65_536

abbrev pub after_first : Option ℕ → Option ℕ
after_first none = none
after_first (some i) = some (i + 1)

-- iter().position(|&b| b == b'\n')
unfoldable pub newline_pos : List ℕ → Option ℕ
newline_pos [] = none
newline_pos (b ∷ bytes) =
    let rest = newline_pos bytes in if b == 10 then some 0 else after_first rest

-- all bytes to come
abbrev pub flatten : Reader → List ℕ
flatten [] = []
flatten (chunk ∷ chunks) = chunk ++ flatten chunks

abbrev pub prepend : List ℕ → Option (List ℕ × Reader) → Option (List ℕ × Reader)
prepend chunk none = none
prepend chunk (some (bytes, reader)) = some (chunk ++ bytes, reader)

-- `read_exact`: the bytes and the reader after them, or none at an early end of the stream
unfoldable pub read_exact : ℕ → Reader → Option (List ℕ × Reader)
read_exact n [] = if n == 0 then some ([], []) else none
read_exact n (chunk ∷ chunks) =
    let rest = read_exact (n - length chunk) chunks in
    if leb n (length chunk) then some (take n chunk, drop n chunk ∷ chunks) else prepend chunk rest

abbrev pub Line : Type 0
Line = Reader × (ControlError ⊎ (ℕ × List ℕ))

-- `String::from_utf8_lossy`, a parameter
module _ (limit : ℕ) (lossy : List ℕ → List ℕ) where
  -- the buffer's bytes, the position of a newline in them, and the loop's next round
  abbrev pub line_round : List ℕ → Reader → ℕ → List ℕ → Option ℕ → Line → Line
  line_round bytes chunks total buf (some newline_pos) rest =
      let to_read = newline_pos + 1 in
      if ltb limit (total + to_read)
      then (bytes ∷ chunks, inl line_too_long)
      else (drop to_read bytes ∷ chunks, inr (total + to_read, buf ++ lossy (take to_read bytes)))
  line_round bytes chunks total buf none rest =
      if ltb limit (total + length bytes) then (bytes ∷ chunks, inl line_too_long) else rest

  unfoldable pub read_line_loop : Reader → ℕ → List ℕ → Line
  read_line_loop [] total buf = ([], inr (total, buf))
  read_line_loop ([] ∷ chunks) total buf = read_line_loop chunks total buf
  read_line_loop ((b ∷ more) ∷ chunks) total buf =
      let bytes = b ∷ more in
      let rest = read_line_loop chunks (total + length bytes) (buf ++ lossy bytes) in
      line_round bytes chunks total buf (newline_pos bytes) rest

  -- `buf.clear()`, then the loop
  unfoldable pub read_within : Reader → Line
  read_within chunks = read_line_loop chunks 0 []

unfoldable pub read_bounded_line : (List ℕ → List ℕ) → Reader → Line
unfolding read_within
read_bounded_line lossy = read_within max_line_length lossy
