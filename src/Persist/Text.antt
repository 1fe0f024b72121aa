-- ===== src/Persist/Text.antt =====
-- Whatever the state files hold, what is read from them as a string is one.
use entmoot.Common.{
  ℕ, zero, suc, ◌≡◌, ap, true, Option-cases, List, [], ◌∷◌, ◌++◌, ok, >>=-eq-ok, ok_or, Result,
  Result-cases, inl, inr, Bytes, Str, length, drop, All, All-append, arith, strip_prefix, leb,
  Bool-cases, ◌==◌,
}
use entmoot.Mqtt.{QoS, QosCodec}
use entmoot.Codec.{from_utf8, is_utf8, read_chunk, split_at_checked, truncated, bad_magic}
use entmoot.Persist.{
  Message, Disk, push_bounded, queue_magic, subs_magic, decode_queue, read_queue, read_message,
  read_file, load_queue, decode_subs, read_subs, read_sub, read_qos, load_subs,
}

abbrev pub IsText : Str → Type 0
IsText s = is_utf8 s ≡ true

-- The first of every pair is text: of a message its topic, of a subscription its filter.
abbrev pub Titled {ℓ} : {A : Type ℓ} → List (Str × A) → Type 0
Titled {A = A} xs = All (λ (e : Str × A). IsText e.0) xs

ok_injective {ℓ κ} : {A : Type ℓ} {E : Type κ} {a b : A} → Path (Result A E) (ok a) (ok b) → a ≡ b
ok_injective h = cc h

from_utf8-IsText : (bs : Bytes) (s : Str) → from_utf8 bs ≡ ok s → IsText s
unfolding from_utf8
from_utf8-IsText bs s h = ground arith

read_message-IsText :
    (bs : Bytes) (m : Message) (rest : Bytes) → read_message bs ≡ ok (m, rest) → IsText m.0
unfolding read_message
read_message-IsText bs m rest h =
    let ((t, r₁), p₁, q₁) = >>=-eq-ok (read_chunk bs) _ h in
    let (text, p₂, q₂) = >>=-eq-ok (from_utf8 t) _ q₁ in
    let ((p, r₂), p₃, q₃) = >>=-eq-ok (read_chunk r₁) _ q₂ in
    let same : text ≡ m.0 = ap (λ x. x.0.0) (ok_injective q₃) in
    rw (← same) (from_utf8-IsText t text p₂)

push_bounded-Titled :
    (n : ℕ) (queue : List Message) (m : Message)
    → Titled queue
    → IsText m.0
    → Titled (push_bounded n queue m)
unfolding push_bounded
push_bounded-Titled n queue m h t = elim (Bool-cases (leb n (length queue))) [
  | inl full ↦ rw full (All-append _ (drop 1 queue) (m ∷ []) (later queue h) (t, tt))
  | inr room ↦ rw room (All-append _ queue (m ∷ []) h (t, tt))
]
  where
    later : (q : List Message) → Titled q → Titled (drop 1 q)
    later [] k = tt
    later (x ∷ q) k = k.1

read_queue-Titled :
    (fuel n : ℕ) (bs : Bytes) (queue out : List Message)
    → Titled queue
    → read_queue fuel n bs queue ≡ ok out
    → Titled out
unfolding read_queue
read_queue-Titled fuel n [] queue out h e = let same : queue ≡ out = ground arith in rw (← same) h
read_queue-Titled zero n (b ∷ bs) queue out h e = cc
read_queue-Titled (suc fuel) n (b ∷ bs) queue out h e =
    elim (Result-cases (read_message (b ∷ bs))) [
      | inl ((m, rest), p) ↦
          read_queue-Titled fuel n rest (push_bounded n queue m) out
            (push_bounded-Titled n queue m h (read_message-IsText (b ∷ bs) m rest p))
            (rw (p, read_queue) at e)
      | inr (x, p) ↦ let q = rw (p, read_queue) at e in cc q
    ]

-- The topics of a queue that is loaded are text.
pub load_queue-Titled :
    (disk : Disk) (path : Str) (n : ℕ) (queue : List Message)
    → load_queue disk path n ≡ ok queue
    → Titled queue
unfolding load_queue decode_queue
load_queue-Titled disk path n queue h = elim (Bool-cases (n == 0)) [
  | inl z ↦ let same : [] ≡ queue = cc (rw z at h) in rw (← same) tt
  | inr p ↦
      let (bytes, p₁, q₁) = >>=-eq-ok (read_file disk path) (decode_queue n) (rw p at h) in
      decoded bytes q₁
]
  where
    decoded : (bytes : Bytes) → decode_queue n bytes ≡ ok queue → Titled queue
    decoded bytes q = elim (Option-cases (strip_prefix queue_magic bytes)) [
      | inl e ↦ let r = rw (e, decode_queue) at q in cc r
      | inr (body, e) ↦
          read_queue-Titled (length body) n body [] queue tt (rw (e, decode_queue) at q)
    ]

module _ (codec : QosCodec) where
  read_sub-IsText :
      (bs : Bytes) (e : Str × QoS) (rest : Bytes) → read_sub codec bs ≡ ok (e, rest) → IsText e.0
  unfolding read_sub
  read_sub-IsText bs e rest h =
      let ((f, r₁), p₁, q₁) = >>=-eq-ok (read_chunk bs) _ h in
      let (text, p₂, q₂) = >>=-eq-ok (from_utf8 f) _ q₁ in
      let ((b, tail), p₃, q₃) = >>=-eq-ok (ok_or (split_at_checked 1 r₁) truncated) _ q₂ in
      let (qos, p₄, q₄) = >>=-eq-ok (read_qos codec b) _ q₃ in
      let same : text ≡ e.0 = ap (λ x. x.0.0) (ok_injective q₄) in
      rw (← same) (from_utf8-IsText f text p₂)

  read_subs-Titled :
      (fuel : ℕ) (bs : Bytes) (entries out : List (Str × QoS))
      → Titled entries
      → read_subs codec fuel bs entries ≡ ok out
      → Titled out
  unfolding read_subs
  read_subs-Titled fuel [] entries out h e =
      let same : entries ≡ out = ground arith in rw (← same) h
  read_subs-Titled zero (b ∷ bs) entries out h e = cc
  read_subs-Titled (suc fuel) (b ∷ bs) entries out h e =
      elim (Result-cases (read_sub codec (b ∷ bs))) [
        | inl ((m, rest), p) ↦
            read_subs-Titled fuel rest (entries ++ (m ∷ [])) out
              (All-append _ entries (m ∷ []) h (read_sub-IsText (b ∷ bs) m rest p, tt))
              (rw (p, read_subs) at e)
        | inr (x, p) ↦ let q = rw (p, read_subs) at e in cc q
      ]

  -- The client id, the identity and the filters of a file that is loaded are text.
  pub load_subs-IsText :
      (disk : Disk) (path client_id identity : Str) (entries : List (Str × QoS))
      → load_subs codec disk path ≡ ok (client_id, identity, entries)
      → IsText client_id × IsText identity × Titled entries
  unfolding load_subs decode_subs
  load_subs-IsText disk path client_id identity entries h =
      let (bytes, p₀, q₀) = >>=-eq-ok (read_file disk path) (decode_subs codec) h in
      let (rest, p₁, q₁) = >>=-eq-ok (ok_or (strip_prefix subs_magic bytes) bad_magic) _ q₀ in
      let ((c, r₁), p₂, q₂) = >>=-eq-ok (read_chunk rest) _ q₁ in
      let (c', p₃, q₃) = >>=-eq-ok (from_utf8 c) _ q₂ in
      let ((i, r₂), p₄, q₄) = >>=-eq-ok (read_chunk r₁) _ q₃ in
      let (i', p₅, q₅) = >>=-eq-ok (from_utf8 i) _ q₄ in
      let (es, p₆, q₆) = >>=-eq-ok (read_subs codec (length r₂) r₂ []) _ q₅ in
      let same_c : c' ≡ client_id = ap (λ x. x.0) (ok_injective q₆) in
      let same_i : i' ≡ identity = ap (λ x. x.1) (ok_injective q₆) in
      let same_e : es ≡ entries = ap (λ x. x.2) (ok_injective q₆) in
      (
        rw (← same_c) (from_utf8-IsText c c' p₃),
        rw (← same_i) (from_utf8-IsText i i' p₅),
        rw (← same_e) (read_subs-Titled (length r₂) r₂ [] es tt p₆),
      )
