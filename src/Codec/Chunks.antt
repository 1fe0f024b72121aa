-- ===== src/Codec/Chunks.antt =====
-- Round trips of integers and chunks.
use native.Mathlib.Nat.{pow-suc}
use entmoot.Common.{
  ℕ, zero, suc, ◌+◌, ◌*◌, ◌/◌, ◌%◌, ◌^◌, ◌≤◌, ◌<◌, ◌≡◌, refl, ◌∙◌, some, [], ◌∷◌, ◌++◌,
  append_assoc, ok, ok_or, ok_or-eq-ok, >>=-eq-ok, Bytes, length, length-append, take-append,
  drop-append, length-drop, le→leb, arith,
}
use entmoot.Codec.{
  to_be_bytes, from_be_bytes, be_fold, split_at_checked, read_chunk, write_chunk, u32_max,
  truncated,
}

be_fold-append :
    (acc : ℕ) (xs : Bytes) (b : ℕ) → be_fold acc (xs ++ (b ∷ [])) ≡ be_fold acc xs * 256 + b
unfolding be_fold
be_fold-append acc [] b = refl
be_fold-append acc (x ∷ xs) b = be_fold-append (acc * 256 + x) xs b

pub length-to_be_bytes : (w n : ℕ) → length (to_be_bytes w n) ≡ w
unfolding to_be_bytes
length-to_be_bytes zero n = refl
length-to_be_bytes (suc w) n =
    omega (
      arith,
      length-append (to_be_bytes w (n / 256)) (n % 256 ∷ []),
      length-to_be_bytes w (n / 256),
    )

high_byte : (w n : ℕ) → n < 256 ^ suc w → n / 256 < 256 ^ w
high_byte w n h = let e = pow-suc 256 w in omega arith

-- A number that fits in `w` bytes is read back from them.
pub from_be_bytes-to_be_bytes : (w n : ℕ) → n < 256 ^ w → from_be_bytes (to_be_bytes w n) ≡ n
unfolding to_be_bytes from_be_bytes
from_be_bytes-to_be_bytes zero n h = omega arith
from_be_bytes-to_be_bytes (suc w) n h =
    be_fold-append 0 (to_be_bytes w (n / 256)) (n % 256)
    ∙ omega (arith, from_be_bytes-to_be_bytes w (n / 256) (high_byte w n h))

pub split_at_checked-append :
    (xs ys : Bytes) (n : ℕ) → length xs ≡ n → split_at_checked n (xs ++ ys) ≡ some (xs, ys)
unfolding split_at_checked
split_at_checked-append xs ys n e = rw (
  ← e,
  le→leb (length xs) (length (xs ++ ys)) (omega (arith, length-append xs ys)),
  take-append xs ys,
  drop-append xs ys,
)

pub read_chunk_framed :
    (chunk rest : Bytes)
    → length chunk ≤ u32_max
    → read_chunk (to_be_bytes 4 (length chunk) ++ (chunk ++ rest)) ≡ ok (chunk, rest)
unfolding read_chunk
read_chunk_framed chunk rest h = rw (
  split_at_checked-append (to_be_bytes 4 (length chunk)) (chunk ++ rest) 4
      (length-to_be_bytes 4 (length chunk)),
  from_be_bytes-to_be_bytes 4 (length chunk) (omega arith),
  split_at_checked-append chunk rest (length chunk) refl,
)

-- A chunk behind its length.
abbrev pub framed : Bytes → Bytes
framed chunk = to_be_bytes 4 (length chunk) ++ chunk

pub write_chunk-framed :
    (out chunk : Bytes) → length chunk ≤ u32_max → write_chunk out chunk ≡ ok (out ++ framed chunk)
unfolding write_chunk
write_chunk-framed out chunk h = ground arith

pub read_chunk-framed :
    (chunk rest : Bytes)
    → length chunk ≤ u32_max
    → read_chunk (framed chunk ++ rest) ≡ ok (chunk, rest)
read_chunk-framed chunk rest h =
    rw (append_assoc (to_be_bytes 4 (length chunk)) chunk rest) (read_chunk_framed chunk rest h)

pub length-framed : (chunk : Bytes) → length (framed chunk) ≡ 4 + length chunk
length-framed chunk =
    omega (
      arith,
      length-append (to_be_bytes 4 (length chunk)) chunk,
      length-to_be_bytes 4 (length chunk),
    )

-- A chunk that was written is read back, with whatever follows it left over.
pub read_chunk-write_chunk :
    (out chunk rest : Bytes)
    → length chunk ≤ u32_max
    → (written : Bytes) × (write_chunk out chunk ≡ ok (out ++ written))
      × (read_chunk (written ++ rest) ≡ ok (chunk, rest))
unfolding write_chunk
read_chunk-write_chunk out chunk rest h = (
  to_be_bytes 4 (length chunk) ++ chunk,
  ground arith,
  rw (append_assoc (to_be_bytes 4 (length chunk)) chunk rest) (read_chunk_framed chunk rest h),
)

pub split_at_checked_takes :
    (n : ℕ) (bs xs ys : Bytes) → split_at_checked n bs ≡ some (xs, ys) → length ys + n ≡ length bs
unfolding split_at_checked
split_at_checked_takes n bs xs ys h = ground (arith, length-drop n bs)

-- Reading a chunk takes its four length bytes at least.
pub read_chunk_takes :
    (bs chunk rest : Bytes) → read_chunk bs ≡ ok (chunk, rest) → length rest + 4 ≤ length bs
unfolding read_chunk
read_chunk_takes bs chunk rest h =
    let ((len_bytes, tail), p, q) = >>=-eq-ok (ok_or (split_at_checked 4 bs) truncated) _ h in
    omega (
      arith,
      split_at_checked_takes 4 bs len_bytes tail (ok_or-eq-ok _ _ p),
      split_at_checked_takes (from_be_bytes len_bytes) tail chunk rest (ok_or-eq-ok _ _ q),
    )
