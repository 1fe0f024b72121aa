-- ===== src/Codec/Runs.antt =====
-- Chunks and texts at concrete inputs.
use entmoot.Common.{◌≡◌, refl, true, false, [], ◌∷◌, ok, err, codes}
use entmoot.Codec.{truncated, read_chunk, from_be_bytes, is_utf8}

chunks :
    (read_chunk (0 ∷ 0 ∷ 0 ∷ 2 ∷ codes "abc") ≡ ok (codes "ab", codes "c"))
    × (read_chunk (0 ∷ 0 ∷ 0 ∷ 5 ∷ codes "ab") ≡ err truncated)
    × (read_chunk (0 ∷ 0 ∷ []) ≡ err truncated)
unfolding read_chunk from_be_bytes
chunks = (refl, refl, refl)

-- A letter of two bytes, a bare continuation, a surrogate, an overlong slash.
texts :
    (is_utf8 (0xc3 ∷ 0xa9 ∷ []) ≡ true)
    × (is_utf8 (0xa9 ∷ []) ≡ false)
    × (is_utf8 (0xed ∷ 0xa0 ∷ 0x80 ∷ []) ≡ false)
    × (is_utf8 (0xc0 ∷ 0xaf ∷ []) ≡ false)
unfolding is_utf8
texts = (refl, refl, refl, refl)
