-- ===== src/Persist/Queue/Limits.antt =====
-- How much of the file of the offline queue is loaded, and that loading ends.
use entmoot.Common.{
  ℕ, zero, suc, ◌≤◌, ◌<◌, ◌≡◌, ◌≢◌, false, Option, none, some, ok_or, List, [], ◌∷◌, ok, err, ◌>>=◌,
  >>=-eq-ok, Result-cases, Option-cases, inl, inr, Bytes, Str, length, arith, strip_prefix,
  Bool-cases, ◌==◌,
}
use entmoot.Common.Dict
use entmoot.Codec.{stuck, missing, read_chunk, from_utf8}
use entmoot.Persist.{
  Message, push_bounded, queue_magic, decode_queue, read_queue, read_message, Disk, read_file,
  load_queue,
}
use entmoot.Persist.Queue.{push_bounded-last, read_message_takes}

read_message-ne-stuck : (bs : Bytes) → read_message bs ≢ err stuck
unfolding read_message read_chunk from_utf8
read_message-ne-stuck bs h = ground arith

read_queue-ne-stuck :
    (fuel n : ℕ) (bs : Bytes) (queue : List Message)
    → length bs ≤ fuel
    → read_queue fuel n bs queue ≢ err stuck
unfolding read_queue
read_queue-ne-stuck fuel n [] queue h = λ e. cc
read_queue-ne-stuck zero n (b ∷ bs) queue h = absurd (omega arith)
read_queue-ne-stuck (suc fuel) n (b ∷ bs) queue h = elim (Result-cases (read_message (b ∷ bs))) [
  | inl ((m, rest), e) ↦
      rw (e, read_queue)
        (read_queue-ne-stuck fuel n rest (push_bounded n queue m)
          (omega (arith, read_message_takes (b ∷ bs) m rest e)))
  | inr (x, e) ↦ rw (e, read_queue) (λ q. read_message-ne-stuck (b ∷ bs) (cc (e, q)))
]

-- Loading a queue ends on any disk: the loop over the file never runs out of its fuel.
pub load_queue-ne-stuck : (disk : Disk) (path : Str) (n : ℕ) → load_queue disk path n ≢ err stuck
unfolding load_queue decode_queue read_file
load_queue-ne-stuck disk path n = elim (Bool-cases (n == 0)) [
  | inl z ↦ rw z (λ q. cc)
  | inr p ↦ rw p (loaded (Dict.get path disk.files))
]
  where
    decoded : (bytes : Bytes) → decode_queue n bytes ≢ err stuck
    decoded bytes = elim (Option-cases (strip_prefix queue_magic bytes)) [
      | inl e ↦ rw (e, decode_queue) (λ q. cc)
      | inr (body, e) ↦
          rw (e, decode_queue) (read_queue-ne-stuck (length body) n body [] (omega arith))
    ]

    loaded : (file : Option Bytes) → (ok_or file missing >>= decode_queue n) ≢ err stuck
    loaded none = λ q. cc
    loaded (some bytes) = decoded bytes

read_queue_bounded :
    (fuel n : ℕ) (bs : Bytes) (queue out : List Message)
    → 0 < n
    → length queue ≤ n
    → read_queue fuel n bs queue ≡ ok out
    → length out ≤ n
unfolding read_queue
read_queue_bounded fuel n [] queue out pos h e =
    let same : queue ≡ out = ground arith in rw (← same) h
read_queue_bounded zero n (b ∷ bs) queue out pos h e = cc
read_queue_bounded (suc fuel) n (b ∷ bs) queue out pos h e =
    elim (Result-cases (read_message (b ∷ bs))) [
      | inl ((m, rest), p) ↦
          read_queue_bounded fuel n rest (push_bounded n queue m) out pos
            (push_bounded-last n queue [] m pos h).0 (rw (p, read_queue) at e)
      | inr (x, p) ↦ let q = rw (p, read_queue) at e in cc q
    ]

-- However many messages a file holds, no more than the limit are loaded.
pub load_queue_bounded :
    (disk : Disk) (path : Str) (n : ℕ) (queue : List Message)
    → load_queue disk path n ≡ ok queue
    → length queue ≤ n
unfolding load_queue decode_queue
load_queue_bounded disk path zero queue h = ground arith
load_queue_bounded disk path (suc n) queue h =
    let positive : (suc n == 0) ≡ false = ground arith in
    let (bytes, p, q) = >>=-eq-ok (read_file disk path) (decode_queue (suc n)) (rw positive at h) in
    decoded bytes q
  where
    decoded : (bytes : Bytes) → decode_queue (suc n) bytes ≡ ok queue → length queue ≤ suc n
    decoded bytes q = elim (Option-cases (strip_prefix queue_magic bytes)) [
      | inl e ↦ let r = rw (e, decode_queue) at q in cc r
      | inr (body, e) ↦
          read_queue_bounded (length body) (suc n) body [] queue (omega arith) (omega arith)
            (rw (e, decode_queue) at q)
    ]
