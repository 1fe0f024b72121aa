-- ===== src/Codec.antt =====
-- Bytes on the disk and on the bus: big-endian integers and length-prefixed chunks (`read_chunk`
-- and `write_chunk` of crates/entmoot-node/src/session.rs, and the closure of the same name in
-- retained.rs), and the strings that `String::from_utf8` accepts.
pub mod Chunks
mod Runs
use entmoot.Common.{
  ℕ, zero, suc, ◌+◌, ◌-◌, ◌*◌, ◌/◌, ◌%◌, ◌^◌, Bool, true, false, ◌&&◌, ◌||◌, Option, none, some,
  List, [], ◌∷◌, ◌++◌, Result, ok, err, ◌>>=◌, ok_or, Bytes, Str, length, take, drop, leb, ltb,
  ◌==◌, if◌then◌else◌,
}

-- `stuck` is no value of the program: a loop of the model ran out of fuel.
pub data ReadError : Type 0 where
  missing bad_magic truncated bad_text bad_qos too_large stuck : ReadError

-- `(n as uN).to_be_bytes()`: the lowest `w` bytes of a number, the highest first.
unfoldable pub to_be_bytes : ℕ → ℕ → Bytes
to_be_bytes zero n = []
to_be_bytes (suc w) n = to_be_bytes w (n / 256) ++ (n % 256 ∷ [])

be_fold : ℕ → Bytes → ℕ
be_fold acc [] = acc
be_fold acc (b ∷ bs) = be_fold (acc * 256 + b) bs

-- `uN::from_be_bytes`
unfoldable pub from_be_bytes : Bytes → ℕ
unfolding be_fold
from_be_bytes bs = be_fold 0 bs

-- `s.split_at_checked(n)`
unfoldable pub split_at_checked : ℕ → Bytes → Option (Bytes × Bytes)
split_at_checked n bs = if leb n (length bs) then some (take n bs, drop n bs) else none

abbrev pub u32_max : ℕ
u32_max = 2 ^ 32 - 1

-- What is read, and what is left to read.
unfoldable pub read_chunk : Bytes → Result (Bytes × Bytes) ReadError
unfolding split_at_checked
read_chunk rest = do
  (len_bytes, tail) ← ok_or (split_at_checked 4 rest) truncated
  ok_or (split_at_checked (from_be_bytes len_bytes) tail) truncated

unfoldable pub write_chunk : Bytes → Bytes → Result Bytes ReadError
write_chunk out chunk =
    if ltb u32_max (length chunk)
    then err too_large
    else ok (out ++ (to_be_bytes 4 (length chunk) ++ chunk))

-- The well-formed byte sequences of Unicode: how many bytes must follow a lead byte, and the range
-- of the first of them.
abbrev between : ℕ → ℕ → ℕ → Bool
between lo hi b = leb lo b && leb b hi

lead : ℕ → Option (ℕ × ℕ × ℕ)
lead b =
    if ltb b 0x80
    then some (0, 0x80, 0xbf)
    else if between 0xc2 0xdf b
    then some (1, 0x80, 0xbf)
    else if b == 0xe0
    then some (2, 0xa0, 0xbf)
    else if b == 0xed
    then some (2, 0x80, 0x9f)
    else if between 0xe1 0xef b
    then some (2, 0x80, 0xbf)
    else if b == 0xf0
    then some (3, 0x90, 0xbf)
    else if between 0xf1 0xf3 b
    then some (3, 0x80, 0xbf)
    else if b == 0xf4
    then some (3, 0x80, 0x8f)
    else none

-- One byte further: how many bytes are still to follow, and the range of the next; `none` once the
-- text is malformed.
utf8_step : Option (ℕ × ℕ × ℕ) → ℕ → Option (ℕ × ℕ × ℕ)
utf8_step none b = none
utf8_step (some (zero, lo, hi)) b = lead b
utf8_step (some (suc n, lo, hi)) b = if between lo hi b then some (n, 0x80, 0xbf) else none

utf8_done : Option (ℕ × ℕ × ℕ) → Bool
utf8_done none = false
utf8_done (some (n, lo, hi)) = n == 0

utf8_run : Option (ℕ × ℕ × ℕ) → Bytes → Bool
utf8_run state [] = utf8_done state
utf8_run state (b ∷ bs) = utf8_run (utf8_step state b) bs

unfoldable pub is_utf8 : Bytes → Bool
unfolding utf8_run utf8_done utf8_step lead
is_utf8 bs = utf8_run (some (0, 0x80, 0xbf)) bs

-- `String::from_utf8`
unfoldable pub from_utf8 : Bytes → Result Str ReadError
from_utf8 bs = if is_utf8 bs then ok bs else err bad_text

-- `String::from_utf8_lossy`, as a list of characters: every longest part that begins a character
-- without completing one, and every byte that begins none, becomes the replacement character.
abbrev pub replacement : Str
replacement = 0xef ∷ 0xbf ∷ 0xbd ∷ []

-- How many bytes are to follow, the range of the next, and the bytes of the character so far.
pub record Decoder : Type 0 where
  pub need : ℕ
  pub low : ℕ
  pub high : ℕ
  pub char : Str

abbrev pub between_chars : Decoder
between_chars = record { need = 0; low = 0; high = 0; char = [] }

lossy_lead : Option (ℕ × ℕ × ℕ) → ℕ → List Str × Decoder
lossy_lead none b = (replacement ∷ [], between_chars)
lossy_lead (some (n, lo, hi)) b =
    if n == 0
    then ((b ∷ []) ∷ [], between_chars)
    else ([], record { need = n; low = lo; high = hi; char = b ∷ [] })

lossy_step : Decoder → ℕ → List Str × Decoder
lossy_step st b =
    let (opened, st') = lossy_lead (lead b) b in
    let longer = st.char ++ (b ∷ []) in
    if st.need == 0
    then (opened, st')
    else if between st.low st.high b
    then (if st.need == 1
        then (longer ∷ [], between_chars)
        else ([], record { need = st.need - 1; low = 0x80; high = 0xbf; char = longer }))
    else (replacement ∷ opened, st')

unfoldable pub lossy_run : Decoder → Bytes → List Str
unfolding lossy_step lossy_lead lead
lossy_run st [] = if st.need == 0 then [] else replacement ∷ []
lossy_run st (b ∷ bs) = let (out, st') = lossy_step st b in out ++ lossy_run st' bs

unfoldable pub from_utf8_lossy : Bytes → List Str
unfolding lossy_run
from_utf8_lossy bs = lossy_run between_chars bs
