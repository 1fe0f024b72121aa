-- ===== src/Persist/Names.antt =====
-- The names of the state files: no two clients share one, and the two kinds of files are apart.
use entmoot.Common.{
  ℕ, ◌≡◌, ◌≢◌, ◌↔◌, refl, ap, some, [], ◌∷◌, ◌++◌, Str, codes, slash, All, length, length-append,
  arith,
}
use entmoot.Auth.Login.{IsByte, hex-injective}
use entmoot.Auth.{hex}
use entmoot.Persist.{hex_name, queue_path, subs_path}

append-cancel_left : (xs ys zs : Str) → xs ++ ys ≡ xs ++ zs → ys ≡ zs
append-cancel_left [] ys zs e = e
append-cancel_left (x ∷ xs) ys zs e = append-cancel_left xs ys zs (ground arith)

append-cancel_right : (xs ys s : Str) → xs ++ s ≡ ys ++ s → xs ≡ ys
append-cancel_right [] [] s e = refl
append-cancel_right [] (y ∷ ys) s e = absurd (omega (arith, ap length e, length-append ys s))
append-cancel_right (x ∷ xs) [] s e = absurd (omega (arith, ap length e, length-append xs s))
append-cancel_right (x ∷ xs) (y ∷ ys) s e = ground (arith, append-cancel_right xs ys s)

-- The last byte of a text, or `d`.
abbrev final : ℕ → Str → ℕ
final d [] = d
final d (x ∷ s) = final x s

final-append : (d c : ℕ) (xs s : Str) → final d (xs ++ (c ∷ s)) ≡ final c s
final-append d c [] s = refl
final-append d c (x ∷ xs) s = final-append x c xs s

name_eq : (dir x y : Str) → dir ++ (slash ∷ x) ≡ dir ++ (slash ∷ y) → x ≡ y
name_eq dir x y e =
    let q : slash ∷ x ≡ slash ∷ y = append-cancel_left dir (slash ∷ x) (slash ∷ y) e in ground arith

-- Under a data directory, two clients have the same queue file only if they are the same, and so
-- for their subscription files, and no queue file is a subscription file.
pub state_files_distinct :
    (dir a b : Str)
    → All IsByte a
    → All IsByte b
    → ((queue_path (some dir) a ≡ queue_path (some dir) b) ↔ (a ≡ b))
      × ((subs_path (some dir) a ≡ subs_path (some dir) b) ↔ (a ≡ b))
      × (queue_path (some dir) a ≢ subs_path (some dir) b)
unfolding queue_path subs_path hex_name
state_files_distinct dir a b p q = (
  (
    (λ e.
        hex-injective a b p q
          (append-cancel_right (hex a) (hex b) (codes ".queue") (name_eq dir _ _ (ground arith)))),
    (λ e. rw e),
  ),
  (
    (λ e.
        hex-injective a b p q
          (append-cancel_right (hex a) (hex b) (codes ".subs") (name_eq dir _ _ (ground arith)))),
    (λ e. rw e),
  ),
  (λ e.
      let same : hex a ++ codes ".queue" ≡ hex b ++ codes ".subs" =
        name_eq dir _ _ (ground arith) in
      ground (
        arith,
        ap (final 0) same,
        final-append 0 b'.' (hex a) (codes "queue"),
        final-append 0 b'.' (hex b) (codes "subs"),
      )),
)
