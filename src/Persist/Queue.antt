-- ===== src/Persist/Queue.antt =====
-- The file of the offline queue.
pub mod Limits
use entmoot.Common.{
  ℕ, zero, suc, ◌-◌, ◌≤◌, ◌<◌, ◌≡◌, refl, sym, ap, ◌∙◌, true, false, some, List, [], ◌∷◌, ◌++◌,
  append-nil, append_assoc, ok, ◌>>=◌, >>=-eq-ok, inl, inr, Bytes, Str, length, length-append, drop,
  All, arith, strip_prefix, strip_prefix-append, leb, Bool-cases, leb→le, leb_false→lt, length-drop,
  ◌==◌,
}
use entmoot.Common.Dict
use entmoot.Codec.{read_chunk, from_utf8, is_utf8, u32_max}
use entmoot.Codec.Chunks.{
  framed, write_chunk-framed, read_chunk-framed, length-framed, read_chunk_takes,
}
use entmoot.Persist.{
  Message, push_bounded, queue_magic, encode_queue, encode_queue_from, decode_queue, read_queue,
  read_message, Disk, read_file, load_queue,
}

-- The last `n` messages of a list.
abbrev pub last {ℓ} : {A : Type ℓ} → ℕ → List A → List A
last n xs = drop (length xs - n) xs

drop-drop_one {ℓ} : {A : Type ℓ} (k : ℕ) (xs : List A) → drop k (drop 1 xs) ≡ drop (suc k) xs
drop-drop_one zero [] = refl
drop-drop_one (suc k) [] = refl
drop-drop_one k (x ∷ xs) = refl

drop_one-append {ℓ} :
    {A : Type ℓ} (xs ys : List A) → 0 < length xs → drop 1 xs ++ ys ≡ drop 1 (xs ++ ys)
drop_one-append [] ys h = absurd (omega arith)
drop_one-append (x ∷ xs) ys h = refl

last-drop_one {ℓ} :
    {A : Type ℓ} (n : ℕ) (xs : List A) → n < length xs → last n (drop 1 xs) ≡ last n xs
last-drop_one n xs h = drop-drop_one (length (drop 1 xs) - n) xs ∙ ap (λ (k : ℕ). drop k xs) same
  where
    same : suc (length (drop 1 xs) - n) ≡ length xs - n
    same = omega (arith, length-drop 1 xs)

-- A bounded push keeps the bound, and pushing on is the same as keeping the last of it all.
pub push_bounded-last :
    (n : ℕ) (queue rest : List Message) (m : Message)
    → 0 < n
    → length queue ≤ n
    → (length (push_bounded n queue m) ≤ n)
      × (last n (push_bounded n queue m ++ rest) ≡ last n (queue ++ (m ∷ rest)))
unfolding push_bounded
push_bounded-last n queue rest m pos h = elim (Bool-cases (leb n (length queue))) [
  | inl full ↦ rw full (
    omega (
      arith,
      length-append (drop 1 queue) (m ∷ []),
      length-drop 1 queue,
      leb→le n (length queue),
    ),
    rw
        (
          append_assoc (drop 1 queue) (m ∷ []) rest,
          drop_one-append queue (m ∷ rest) (omega (arith, leb→le n (length queue))),
        )
        (last-drop_one n (queue ++ (m ∷ rest))
          (omega (arith, length-append queue (m ∷ rest), leb→le n (length queue)))),
  )
  | inr room ↦ rw room (
    omega (arith, length-append queue (m ∷ []), leb_false→lt n (length queue)),
    rw (append_assoc queue (m ∷ []) rest),
  )
]

pub last_short {ℓ} : {A : Type ℓ} (n : ℕ) (xs : List A) → length xs ≤ n → last n xs ≡ xs
last_short n xs h = let e : length xs - n ≡ 0 = omega arith in rw e

pub record IsStorable (m : Message) : Type 0 where
  pub topic_fits : length m.0 ≤ u32_max
  pub topic_text : is_utf8 m.0 ≡ true
  pub payload_fits : length m.1 ≤ u32_max

queue_bytes : List Message → Bytes
queue_bytes [] = []
queue_bytes ((topic, payload) ∷ queue) = framed topic ++ (framed payload ++ queue_bytes queue)

encode_queue_from_lem :
    (out : Bytes) (queue : List Message)
    → All IsStorable queue
    → encode_queue_from out queue ≡ ok (out ++ queue_bytes queue)
unfolding encode_queue_from queue_bytes
encode_queue_from_lem out [] h = ap ok (sym (append-nil out))
encode_queue_from_lem out ((t, p) ∷ queue) (s, h) =
    rw
      (
        write_chunk-framed out t s.topic_fits,
        write_chunk-framed (out ++ framed t) p s.payload_fits,
        encode_queue_from_lem ((out ++ framed t) ++ framed p) queue h,
      )
      (ap ok (
        append_assoc (out ++ framed t) (framed p) (queue_bytes queue)
        ∙ append_assoc out (framed t) (framed p ++ queue_bytes queue)))

read_message_lem :
    (t p rest : Bytes)
    → IsStorable (t, p)
    → read_message (framed t ++ (framed p ++ rest)) ≡ ok ((t, p), rest)
unfolding read_message from_utf8
read_message_lem t p rest s = rw (
  read_chunk-framed t (framed p ++ rest) s.topic_fits,
  s.topic_text,
  read_chunk-framed p rest s.payload_fits,
)

read_message_takes :
    (bs : Bytes) (m : Message) (rest : Bytes)
    → read_message bs ≡ ok (m, rest)
    → length rest < length bs
unfolding read_message
read_message_takes bs m rest h =
    let ((t, r₁), p₁, q₁) = >>=-eq-ok (read_chunk bs) _ h in
    let (text, p₂, q₂) = >>=-eq-ok (from_utf8 t) _ q₁ in
    let ((p, r₂), p₃, q₃) = >>=-eq-ok (read_chunk r₁) _ q₂ in
    let same : r₂ ≡ rest = cc q₃ in
    omega (arith, read_chunk_takes bs t r₁ p₁, read_chunk_takes r₁ p r₂ p₃, ap length same)

read_queue_step :
    (fuel n : ℕ) (bs rest : Bytes) (m : Message) (queue : List Message)
    → read_message bs ≡ ok (m, rest)
    → length rest < length bs
    → read_queue (suc fuel) n bs queue ≡ read_queue fuel n rest (push_bounded n queue m)
unfolding read_queue
read_queue_step fuel n [] rest m queue e h = absurd (omega arith)
read_queue_step fuel n (b ∷ bs) rest m queue e h = rw (e, read_queue)

read_queue_lem :
    (fuel n : ℕ) (q queue : List Message)
    → 0 < n
    → All IsStorable q
    → length queue ≤ n
    → length (queue_bytes q) ≤ fuel
    → read_queue fuel n (queue_bytes q) queue ≡ ok (last n (queue ++ q))
unfolding queue_bytes
read_queue_lem fuel n [] queue pos s h f =
    unfold read_queue in rw (append-nil queue, last_short n queue h)
read_queue_lem zero n ((t, p) ∷ q) queue pos s h f =
    absurd (omega (arith, length-append (framed t) (framed p ++ queue_bytes q), length-framed t))
read_queue_lem (suc fuel) n ((t, p) ∷ q) queue pos s h f =
    let rest = queue_bytes q in
    let back = read_message_lem t p rest s.0 in
    let shorter = read_message_takes _ _ _ back in
    let (bound, kept) = push_bounded-last n queue q (t, p) pos h in
    read_queue_step fuel n _ rest (t, p) queue back shorter
    ∙ read_queue_lem fuel n q (push_bounded n queue (t, p)) pos s.1 bound (omega arith)
    ∙ ap ok kept

drop-length {ℓ} : {A : Type ℓ} (xs : List A) → drop (length xs) xs ≡ []
drop-length [] = refl
drop-length (x ∷ xs) = drop-length xs

drop_all {ℓ} : {A : Type ℓ} (xs : List A) → last 0 xs ≡ []
drop_all xs = let e : length xs - 0 ≡ length xs = omega arith in rw e (drop-length xs)

-- A queue that was saved is loaded again, cut to the last messages that the limit now admits, if
-- its topics are text and its messages fit in chunks.
pub load_queue-encode_queue :
    (disk : Disk) (path : Str) (n : ℕ) (queue : List Message) (bytes : Bytes)
    → All IsStorable queue
    → encode_queue queue ≡ ok bytes
    → read_file disk path ≡ ok bytes
    → load_queue disk path n ≡ ok (last n queue)
unfolding load_queue decode_queue encode_queue
load_queue-encode_queue disk path zero queue bytes s e f = ground (arith, drop_all queue)
load_queue-encode_queue disk path (suc n) queue bytes s e f =
    let body = queue_bytes queue in
    let same : queue_magic ++ body ≡ bytes = cc (e, encode_queue_from_lem queue_magic queue s) in
    let stripped : strip_prefix queue_magic bytes ≡ some body =
      rw (← same) (strip_prefix-append queue_magic body) in
    let positive : (suc n == 0) ≡ false = ground arith in
    rw (f, positive, stripped, decode_queue)
      (read_queue_lem (length body) (suc n) queue [] (omega arith) s (omega arith) (omega arith))
