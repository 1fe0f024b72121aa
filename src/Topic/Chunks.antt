-- ===== src/Topic/Chunks.antt =====
-- The chunks that `filter_to_keyexpr` of crates/entmoot-core/src/topic.rs makes of the levels of a
-- filter.
use entmoot.Common.{
  ℕ, suc, ◌+◌, ◌-◌, ◌≡◌, refl, sym, ◌∙◌, ◌≢◌, false, ◌&&◌, ◌||◌, List, [], ◌∷◌, ◌++◌, Str, ok,
  >>=-eq-ok, codes, slash, split, join, split-append, split-join, split-Lacks, Lacks-of_all,
  split-ne-nil, Lacks, split-cases, split_of_Lacks, is_empty, str_eq, str_eq_iff, any, length, All,
  ◌==◌, Bool-cases, inl, inr, arith,
}
use entmoot.Topic.{
  filter_to_keyexpr, filter_chunk, filter_chunks, scoped, starts_with_at, check_chars,
  check_level_chars, plus_level, hash_level, sys_prefix, sys_chunk, meta_prefix, meta_chunk, levels,
  under,
}
use entmoot.Topic.Levels.{IsName, IsAllowed, levels-eq-ok}

-- A chunk without the syntax of the bus: it stands for itself.
pub record IsLiteral (c : Str) : Type 0 where
  pub nonempty : c ≢ []
  pub plain : All (λ b. (b ≢ b'*') × (b ≢ b'$')) c

abbrev pub star : Str
star = codes "*"

abbrev pub stars : Str
stars = codes "**"

-- A chunk of a key that wildcards reach.
pub record IsVisible (x : Str) : Type 0 where
  pub literal : IsLiteral x
  pub visible : starts_with_at x ≡ false

allowed-plain : (x : Str) → All IsAllowed x → All (λ b. (b ≢ b'*') × (b ≢ b'$')) x
allowed-plain [] h = tt
allowed-plain (b ∷ x) h = ((h.0.2, h.0.3), allowed-plain x h.1)

pub IsName-IsVisible : (x : Str) → IsName x → IsVisible x
IsName-IsVisible [] n = absurd (n.nonempty refl)
IsName-IsVisible (b ∷ x) n =
    let v = n.visible in
    record {
      literal = record { nonempty = n.nonempty; plain = allowed-plain (b ∷ x) n.allowed };
      visible = ground arith;
    }

pub names-IsVisible : (xs : List Str) → All IsName xs → All IsVisible xs
names-IsVisible [] h = tt
names-IsVisible (x ∷ xs) h = (IsName-IsVisible x h.0, names-IsVisible xs h.1)

-- What a level of a filter becomes.
pub data Chunk (i last : ℕ) : Str → Str → Type 0 where
  sys : {l c : Str} → i ≡ 0 → l ≡ sys_prefix → c ≡ sys_chunk → Chunk i last l c
  meta : {l c : Str} → i ≡ 0 → l ≡ meta_prefix → c ≡ meta_chunk → Chunk i last l c
  any_one : {l c : Str} → l ≡ plus_level → c ≡ star → Chunk i last l c
  any_rest : {l c : Str} → l ≡ hash_level → c ≡ stars → i ≡ last → Chunk i last l c
  itself :
      {l c : Str}
      → c ≡ l
      → IsVisible l
      → str_eq l plus_level ≡ false
      → str_eq l hash_level ≡ false
      → Chunk i last l c

check_chars-plain : (l : Str) → check_chars l ≡ ok tt → All (λ b. (b ≢ b'*') × (b ≢ b'$')) l
unfolding check_chars
check_chars-plain [] h = tt
check_chars-plain (b ∷ l) h = ground (arith, check_chars-plain l)

check_level_chars-IsVisible :
    (l : Str) → is_empty l ≡ false → check_level_chars l ≡ ok tt → IsVisible l
unfolding check_level_chars
check_level_chars-IsVisible [] n h = cc
check_level_chars-IsVisible (b ∷ l) n h = record {
  literal = record { nonempty = λ e. cc; plain = check_chars-plain (b ∷ l) (ground arith) };
  visible = ground arith;
}

pub filter_chunk-Chunk :
    (i last : ℕ) (l c : Str) → is_empty l ≡ false → filter_chunk i last l ≡ ok c → Chunk i last l c
unfolding filter_chunk
filter_chunk-Chunk i last l c n h = elim (Bool-cases (i == 0 && str_eq l sys_prefix)) [
  | inl e ↦ sys (ground arith) ((str_eq_iff l sys_prefix).0 (ground arith)) (ground arith)
  | inr e ↦ elim (Bool-cases (i == 0 && str_eq l meta_prefix)) [
    | inl m ↦ meta (ground arith) ((str_eq_iff l meta_prefix).0 (ground arith)) (ground arith)
    | inr m ↦ elim (Bool-cases (str_eq l plus_level)) [
      | inl p ↦ any_one ((str_eq_iff l plus_level).0 p) (ground arith)
      | inr p ↦ elim (Bool-cases (str_eq l hash_level)) [
        | inl q ↦ any_rest ((str_eq_iff l hash_level).0 q) (ground arith) (ground arith)
        | inr q ↦ itself (ground arith) (check_level_chars-IsVisible l n (ground arith)) p q
      ]
    ]
  ]
]

pub filter_chunks-eq-ok :
    (i last : ℕ) (l : Str) (ls out : List Str)
    → filter_chunks i last (l ∷ ls) ≡ ok out
    → (c : Str) × (f : List Str) × (filter_chunk i last l ≡ ok c)
      × (filter_chunks (suc i) last ls ≡ ok f)
      × (out ≡ c ∷ f)
unfolding filter_chunks
filter_chunks-eq-ok i last l ls out h =
    let (c, p, q) = >>=-eq-ok (filter_chunk i last l) _ h in
    let (f, r, s) = >>=-eq-ok (filter_chunks (suc i) last ls) _ q in (c, f, p, r, cc s)

-- The last level of a filter has no chunk behind it.
pub none_behind :
    (i last n : ℕ) (ls out : List Str)
    → n + length ls ≡ last
    → filter_chunks i last ls ≡ ok out
    → n ≡ last
    → out ≡ []
unfolding filter_chunks
none_behind i last n [] out m h e = cc
none_behind i last n (l ∷ ls) out m h e = absurd (omega arith)

-- The chunks of the scope: none, if there is no scope.
abbrev pub scope_chunks : Str → List Str
scope_chunks [] = []
scope_chunks (x ∷ s) = split slash (x ∷ s)

pub split-scoped :
    (scope ke : Str) → split slash (scoped scope ke) ≡ scope_chunks scope ++ split slash ke
unfolding scoped
split-scoped [] ke = refl
split-scoped (x ∷ s) ke = split-append slash (x ∷ s) ke

Chunk-Lacks : (i last : ℕ) (l c : Str) → Chunk i last l c → Lacks slash l → Lacks slash c
Chunk-Lacks i last l c (sys z e d) h = rw d (Lacks-of_all slash sys_chunk refl)
Chunk-Lacks i last l c (meta z e d) h = rw d (Lacks-of_all slash meta_chunk refl)
Chunk-Lacks i last l c (any_one e d) h = rw d (Lacks-of_all slash star refl)
Chunk-Lacks i last l c (any_rest e d z) h = rw d (Lacks-of_all slash stars refl)
Chunk-Lacks i last l c (itself e v p q) h = rw e h

filter_chunks-Lacks :
    (i last : ℕ) (ls out : List Str)
    → any is_empty ls ≡ false
    → filter_chunks i last ls ≡ ok out
    → All (Lacks slash) ls
    → All (Lacks slash) out
unfolding filter_chunks
filter_chunks-Lacks i last [] out n h a = let e : out ≡ [] = cc in rw e tt
filter_chunks-Lacks i last (l ∷ ls) out n h a =
    let (c, f, p, q, e) = filter_chunks-eq-ok i last l ls out h in
    rw e (
      Chunk-Lacks i last l c (filter_chunk-Chunk i last l c (ground arith) p) a.0,
      filter_chunks-Lacks (suc i) last ls f (ground arith) q a.1,
    )

filter_chunks-ne-nil :
    (i last : ℕ) (ls out : List Str) → ls ≢ [] → filter_chunks i last ls ≡ ok out → out ≢ []
filter_chunks-ne-nil i last [] out n h = absurd (n refl)
filter_chunks-ne-nil i last (l ∷ ls) out n h =
    let (c, f, p, q, e) = filter_chunks-eq-ok i last l ls out h in λ z. cc

-- The chunks of an accepted filter: those of the scope, and one for each level.
pub filter_to_keyexpr-chunks :
    (filter scope ke : Str)
    → filter_to_keyexpr filter scope ≡ ok ke
    → let ls = split slash filter in
      (out : List Str) × (split slash ke ≡ scope_chunks scope ++ out)
      × (filter_chunks 0 (length ls - 1) ls ≡ ok out)
      × (any is_empty ls ≡ false)
unfolding filter_to_keyexpr
filter_to_keyexpr-chunks filter scope ke h =
    let (ls, p, q) = >>=-eq-ok (levels filter) _ h in
    let (out, r, s) = >>=-eq-ok (filter_chunks 0 (length ls - 1) ls) _ q in
    let (e, n) = levels-eq-ok filter ls p in
    let ne : ls ≢ [] = λ z. split-ne-nil slash filter (sym e ∙ z) in
    let lacks = filter_chunks-Lacks 0 _ ls out n r (rw e (split-Lacks slash filter)) in
    let same : ke ≡ scoped scope (join slash out) = cc s in
    (
      out,
      rw (
        same,
        split-scoped scope (join slash out),
        split-join slash out (filter_chunks-ne-nil 0 _ ls out ne r) lacks,
      ),
      rw (← e) r,
      rw (← e) n,
    )

pub split-under :
    (chunk s : Str) → Lacks slash chunk → split slash (under chunk s) ≡ chunk ∷ split slash s
split-under chunk s h = rw (split-append slash chunk s, split_of_Lacks slash chunk h)

pub whole : (s : Str) → 0 + length (split slash s) ≡ suc (length (split slash s) - 1)
whole s = let (l, ls, p) = split-cases slash s in rw p (omega arith)

plain_of_any :
    (c : Str) → any (λ b. b == b'*' || b == b'$') c ≡ false → All (λ b. (b ≢ b'*') × (b ≢ b'$')) c
plain_of_any [] h = tt
plain_of_any (b ∷ c) h = ground (arith, plain_of_any c)

pub IsLiteral-of_any :
    (c : Str) → is_empty c ≡ false → any (λ b. b == b'*' || b == b'$') c ≡ false → IsLiteral c
IsLiteral-of_any [] n h = cc
IsLiteral-of_any (b ∷ c) n h = record { nonempty = λ e. cc; plain = plain_of_any (b ∷ c) h }
