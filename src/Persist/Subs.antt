-- ===== src/Persist/Subs.antt =====
-- The file of the subscriptions.
use entmoot.Common.{
  ℕ, zero, suc, ◌≤◌, ◌<◌, ◌≡◌, refl, sym, ap, ◌∙◌, true, ok_or, ok_or-eq-ok, List, [], ◌∷◌, ◌++◌,
  append-nil, append_assoc, ok, >>=-eq-ok, Bytes, Str, length, length-append, All, arith,
  strip_prefix-append,
}
use entmoot.Mqtt.{QoS, QosCodec}
use entmoot.Codec.{truncated, split_at_checked, read_chunk, from_utf8, is_utf8, u32_max}
use entmoot.Codec.Chunks.{
  framed, write_chunk-framed, read_chunk-framed, read_chunk_takes, split_at_checked-append,
  split_at_checked_takes,
}
use entmoot.Persist.{
  subs_magic, encode_subs, encode_subs_from, decode_subs, read_subs, read_sub, read_qos,
}

-- A text that fits in a chunk.
pub record FitsChunk (s : Str) : Type 0 where
  pub fits : length s ≤ u32_max
  pub text : is_utf8 s ≡ true

module _ (codec : QosCodec) where
  sub_bytes : List (Str × QoS) → Bytes
  sub_bytes [] = []
  sub_bytes ((filter, qos) ∷ entries) = framed filter ++ (codec.to_byte qos ∷ sub_bytes entries)

  encode_subs_from_lem :
      (out : Bytes) (entries : List (Str × QoS))
      → All (λ e. FitsChunk e.0) entries
      → encode_subs_from codec out entries ≡ ok (out ++ sub_bytes entries)
  unfolding encode_subs_from sub_bytes
  encode_subs_from_lem out [] h = ap ok (sym (append-nil out))
  encode_subs_from_lem out ((f, q) ∷ entries) (s, h) =
      rw
        (
          write_chunk-framed out f s.fits,
          encode_subs_from_lem ((out ++ framed f) ++ (codec.to_byte q ∷ [])) entries h,
        )
        (ap ok (
          append_assoc (out ++ framed f) (codec.to_byte q ∷ []) (sub_bytes entries)
          ∙ append_assoc out (framed f) (codec.to_byte q ∷ sub_bytes entries)))

  read_sub_lem :
      (f : Str) (q : QoS) (rest : Bytes)
      → FitsChunk f
      → read_sub codec (framed f ++ (codec.to_byte q ∷ rest)) ≡ ok ((f, q), rest)
  unfolding read_sub read_qos from_utf8
  read_sub_lem f q rest s = rw (
    read_chunk-framed f (codec.to_byte q ∷ rest) s.fits,
    s.text,
    split_at_checked-append (codec.to_byte q ∷ []) rest 1 refl,
    codec.of_byte-to_byte q,
  )

  read_sub_takes :
      (bs : Bytes) (e : Str × QoS) (rest : Bytes)
      → read_sub codec bs ≡ ok (e, rest)
      → length rest < length bs
  unfolding read_sub
  read_sub_takes bs e rest h =
      let ((f, r₁), p₁, q₁) = >>=-eq-ok (read_chunk bs) _ h in
      let (text, p₂, q₂) = >>=-eq-ok (from_utf8 f) _ q₁ in
      let ((b, tail), p₃, q₃) = >>=-eq-ok (ok_or (split_at_checked 1 r₁) truncated) _ q₂ in
      let (qos, p₄, q₄) = >>=-eq-ok (read_qos codec b) _ q₃ in
      let same : tail ≡ rest = cc q₄ in
      omega (
        arith,
        read_chunk_takes bs f r₁ p₁,
        split_at_checked_takes 1 r₁ b tail (ok_or-eq-ok _ _ p₃),
        ap length same,
      )

  read_subs_step :
      (fuel : ℕ) (bs rest : Bytes) (e : Str × QoS) (entries : List (Str × QoS))
      → read_sub codec bs ≡ ok (e, rest)
      → length rest < length bs
      → read_subs codec (suc fuel) bs entries ≡ read_subs codec fuel rest (entries ++ (e ∷ []))
  unfolding read_subs
  read_subs_step fuel [] rest e entries p h = absurd (omega arith)
  read_subs_step fuel (b ∷ bs) rest e entries p h = rw (p, read_subs)

  read_subs_lem :
      (fuel : ℕ) (es entries : List (Str × QoS))
      → All (λ e. FitsChunk e.0) es
      → length (sub_bytes es) ≤ fuel
      → read_subs codec fuel (sub_bytes es) entries ≡ ok (entries ++ es)
  unfolding sub_bytes
  read_subs_lem fuel [] entries s f = unfold read_subs in rw (append-nil entries)
  read_subs_lem zero ((t, q) ∷ es) entries s f =
      absurd (omega (arith, length-append (framed t) (codec.to_byte q ∷ sub_bytes es)))
  read_subs_lem (suc fuel) ((t, q) ∷ es) entries s f =
      let back = read_sub_lem t q (sub_bytes es) s.0 in
      let shorter = read_sub_takes _ _ _ back in
      read_subs_step fuel _ (sub_bytes es) (t, q) entries back shorter
      ∙ read_subs_lem fuel es (entries ++ ((t, q) ∷ [])) s.1 (omega arith)
      ∙ ap ok (append_assoc entries ((t, q) ∷ []) es)

  -- A subscription file that was written gives back the client, its identity, and every filter with
  -- its QoS, in order.
  pub decode_subs-encode_subs :
      (client_id identity : Str) (entries : List (Str × QoS)) (bytes : Bytes)
      → FitsChunk client_id
      → FitsChunk identity
      → All (λ e. FitsChunk e.0) entries
      → encode_subs codec client_id identity entries ≡ ok bytes
      → decode_subs codec bytes ≡ ok (client_id, identity, entries)
  unfolding decode_subs encode_subs from_utf8
  decode_subs-encode_subs client_id identity entries bytes c i s e = rw (
    ← same,
    strip_prefix-append subs_magic _,
    read_chunk-framed client_id _ c.fits,
    c.text,
    read_chunk-framed identity _ i.fits,
    i.text,
    read_subs_lem (length (sub_bytes entries)) entries [] s (omega arith),
  )
    where
      written :
          encode_subs codec client_id identity entries
          ≡ ok (((subs_magic ++ framed client_id) ++ framed identity) ++ sub_bytes entries)
      written =
          rw
            (
              write_chunk-framed subs_magic client_id c.fits,
              write_chunk-framed (subs_magic ++ framed client_id) identity i.fits,
            )
            (encode_subs_from_lem _ entries s)

      same : subs_magic ++ (framed client_id ++ (framed identity ++ sub_bytes entries)) ≡ bytes
      same = cc (
        e,
        written,
        append_assoc (subs_magic ++ framed client_id) (framed identity) (sub_bytes entries),
        append_assoc subs_magic (framed client_id) (framed identity ++ sub_bytes entries),
      )
