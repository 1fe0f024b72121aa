-- ===== src/Common/Text.antt =====
-- Rust strings as their UTF-8 bytes, and the operations of `str` that the sources call.
-- Every separator and prefix that they use is ASCII, so that bytes and characters agree.
use Prim.Native.Nat.{ℕ}
use Prim.Native.Char.{code}
use Prim.Native.String.{String}
use mathlib.Core.Path.{◌≡◌, refl, sym, ap, ◌∙◌}
use mathlib.Core.List.{append_assoc, append-nil}
use mathlib.Core.Logic.{◌≢◌, ◌↔◌, inl, inr}
use mathlib.Core.Bool.{Bool, true, false, not, ◌&&◌}
use mathlib.Core.List.{List, [], ◌∷◌, ◌++◌}
use mathlib.Core.Option.{Option, none, some}
use native.Mathlib.Omega.{arith}
use entmoot.Common.Tests.{◌==◌, ==_iff, if◌then◌else◌, Bool-cases}
use entmoot.Common.Lists.{any, all, All}

-- The bytes of an ASCII literal.
abbrev pub codes : String → List ℕ
codes String.[] = []
codes (String.◌∷◌ c s) = code c ∷ codes s

abbrev pub Bytes : Type 0
Bytes = List ℕ

abbrev pub Str : Type 0
Str = List ℕ

abbrev pub slash : ℕ
slash = b'/'

abbrev pub is_empty {ℓ} : {A : Type ℓ} → List A → Bool
is_empty [] = true
is_empty (x ∷ xs) = false

unfoldable pub str_eq : Str → Str → Bool
str_eq [] [] = true
str_eq [] (y ∷ t) = false
str_eq (x ∷ s) [] = false
str_eq (x ∷ s) (y ∷ t) = x == y && str_eq s t

pub str_eq_sound : (s t : Str) → str_eq s t ≡ true → s ≡ t
unfolding str_eq
str_eq_sound [] [] h = refl
str_eq_sound [] (y ∷ t) h = cc
str_eq_sound (x ∷ s) [] h = cc
str_eq_sound (x ∷ s) (y ∷ t) h = ground (arith, str_eq_sound s t)

pub str_eq_refl : (s : Str) → str_eq s s ≡ true
unfolding str_eq
str_eq_refl [] = refl
str_eq_refl (x ∷ s) = ground (arith, str_eq_refl s)

pub str_eq_iff : (s t : Str) → (str_eq s t ≡ true) ↔ (s ≡ t)
str_eq_iff s t = (str_eq_sound s t, λ e. rw e (str_eq_refl t))

-- `s.contains(c)`.
abbrev pub contains : ℕ → Str → Bool
contains c = any (λ x. x == c)

-- `s.strip_prefix(p)`.
unfoldable pub strip_prefix : Str → Str → Option Str
strip_prefix [] s = some s
strip_prefix (c ∷ p) [] = none
strip_prefix (c ∷ p) (x ∷ s) = if c == x then strip_prefix p s else none

pub strip_prefix-append : (p s : Str) → strip_prefix p (p ++ s) ≡ some s
unfolding strip_prefix
strip_prefix-append [] s = refl
strip_prefix-append (c ∷ p) s = ground (arith, strip_prefix-append p s)

pub strip_prefix-eq-some : (p s r : Str) → strip_prefix p s ≡ some r → s ≡ p ++ r
unfolding strip_prefix
strip_prefix-eq-some [] s r h = ground arith
strip_prefix-eq-some (c ∷ p) [] r h = cc
strip_prefix-eq-some (c ∷ p) (x ∷ s) r h = ground (arith, strip_prefix-eq-some p s r)

-- `s.split(c).collect()`: always one part at least.
abbrev grow : ℕ → List Str → List Str
grow x [] = (x ∷ []) ∷ []
grow x (l ∷ ls) = (x ∷ l) ∷ ls

unfoldable pub split : ℕ → Str → List Str
split c [] = [] ∷ []
split c (x ∷ s) = let rest = split c s in if x == c then [] ∷ rest else grow x rest

-- `parts.join("/")`, at the separator `c`.
unfoldable pub join : ℕ → List Str → Str
join c [] = []
join c (l ∷ []) = l
join c (l ∷ m ∷ ls) = l ++ (c ∷ join c (m ∷ ls))

-- `split` gives one part at least.
pub split-cases : (c : ℕ) (s : Str) → (l : Str) × (ls : List Str) × (split c s ≡ l ∷ ls)
unfolding split
split-cases c [] = ([], [], refl)
split-cases c (x ∷ s) = elim (Bool-cases (x == c)) [
  | inl e ↦ ([], split c s, rw e)
  | inr e ↦ let (l, ls, p) = split-cases c s in (x ∷ l, ls, rw (e, p))
]

-- A byte that is no separator opens the first part.
pub split-cons :
    (c x : ℕ) (s : Str)
    → (x == c) ≡ false
    → (l : Str) × (ls : List Str) × (split c (x ∷ s) ≡ (x ∷ l) ∷ ls)
unfolding split
split-cons c x s e = let (l, ls, p) = split-cases c s in (l, ls, rw (e, p))

-- A joined text begins with its first part.
pub join-cons : (c : ℕ) (l : Str) (ls : List Str) → (r : Str) × (join c (l ∷ ls) ≡ l ++ r)
unfolding join
join-cons c l [] = ([], sym (append-nil l))
join-cons c l (m ∷ ls) = (c ∷ join c (m ∷ ls), refl)

join-grow : (c x : ℕ) (ls : List Str) → ls ≢ [] → join c (grow x ls) ≡ x ∷ join c ls
unfolding join
join-grow c x [] h = absurd (h refl)
join-grow c x (l ∷ []) h = refl
join-grow c x (l ∷ m ∷ ls) h = refl

join-nil : (c : ℕ) (ls : List Str) → ls ≢ [] → join c ([] ∷ ls) ≡ c ∷ join c ls
unfolding join
join-nil c [] h = absurd (h refl)
join-nil c (l ∷ ls) h = refl

pub split-ne-nil : (c : ℕ) (s : Str) → split c s ≢ []
split-ne-nil c s q = let (l, ls, p) = split-cases c s in cc (p, q)

-- Joining what `split` gave restores the text.
pub join-split : (c : ℕ) (s : Str) → join c (split c s) ≡ s
unfolding split
join-split c [] = unfold join in refl
join-split c (x ∷ s) = elim (Bool-cases (x == c)) [
  | inl e ↦ rw e (join-nil c (split c s) (split-ne-nil c s) ∙ cc ((==_iff x c).0 e, join-split c s))
  | inr e ↦ rw e (join-grow c x (split c s) (split-ne-nil c s) ∙ ap (◌∷◌ x) (join-split c s))
]

grow-append : (x : ℕ) (ls ms : List Str) → ls ≢ [] → grow x (ls ++ ms) ≡ grow x ls ++ ms
grow-append x [] ms h = absurd (h refl)
grow-append x (l ∷ ls) ms h = refl

-- A separator between two texts splits there.
pub split-append : (c : ℕ) (s t : Str) → split c (s ++ (c ∷ t)) ≡ split c s ++ split c t
unfolding split
split-append c [] t = ground arith
split-append c (x ∷ s) t =
    ground (arith, split-append c s t, grow-append x (split c s) (split c t), split-ne-nil c s)

abbrev pub Lacks : ℕ → Str → Type 0
Lacks c = All (λ x. (x == c) ≡ false)

-- For a literal text.
pub Lacks-of_all : (c : ℕ) (s : Str) → all (λ x. not (x == c)) s ≡ true → Lacks c s
Lacks-of_all c [] h = tt
Lacks-of_all c (x ∷ s) h = (ground arith, Lacks-of_all c s (ground arith))

-- The parts of a split hold no separator.
pub split-Lacks : (c : ℕ) (s : Str) → All (Lacks c) (split c s)
unfolding split
split-Lacks c [] = (tt, tt)
split-Lacks c (x ∷ s) = elim (Bool-cases (x == c)) [
  | inl e ↦ rw e (tt, split-Lacks c s)
  | inr e ↦ rw e (grow-Lacks e (split c s) (split-Lacks c s))
]
  where
    grow-Lacks : (x == c) ≡ false → (ls : List Str) → All (Lacks c) ls → All (Lacks c) (grow x ls)
    grow-Lacks e [] h = ((e, tt), tt)
    grow-Lacks e (l ∷ ls) h = ((e, h.0), h.1)

pub split_of_Lacks : (c : ℕ) (s : Str) → Lacks c s → split c s ≡ s ∷ []
unfolding split
split_of_Lacks c [] h = refl
split_of_Lacks c (x ∷ s) h = ground (arith, split_of_Lacks c s h.1)

-- Splitting what `join` made of parts without the separator restores the parts.
pub split-join : (c : ℕ) (ls : List Str) → ls ≢ [] → All (Lacks c) ls → split c (join c ls) ≡ ls
unfolding join
split-join c [] ne h = absurd (ne refl)
split-join c (l ∷ []) ne h = split_of_Lacks c l h.0
split-join c (l ∷ m ∷ ls) ne h =
    split-append c l (join c (m ∷ ls))
    ∙ rw (split_of_Lacks c l h.0, split-join c (m ∷ ls) (λ e. cc) h.1)

pub join-append :
    (c : ℕ) (ls ms : List Str)
    → ls ≢ []
    → ms ≢ []
    → join c (ls ++ ms) ≡ join c ls ++ (c ∷ join c ms)
unfolding join
join-append c [] ms h k = absurd (h refl)
join-append c (l ∷ []) [] h k = absurd (k refl)
join-append c (l ∷ []) (m ∷ ms) h k = refl
join-append c (l ∷ n ∷ ls) ms h k = rw (join-append c (n ∷ ls) ms (λ e. cc) k, append_assoc)
