-- ===== src/Metrics/Lines.antt =====
-- What a scraper reads off the metrics page.
use Prim.Native.String.{String}
use entmoot.Common.{
  ◌≡◌, refl, ap, ◌∙◌, Bool, true, false, List, [], ◌∷◌, ◌++◌, Str, codes, contains, digits,
  digits-Lacks, Lacks, any, str_eq, Lacks-append, split, split-line, All, arith, if◌then◌else◌,
}
use entmoot.Metrics.Page.{
  Sample, Series, newline, lines_of, write_lines, series, write_series, render,
}

-- The lines of these series.
pub all_lines : Str → List Series → List Str
all_lines id [] = []
all_lines id (s ∷ rest) = lines_of id s ++ all_lines id rest

record IsPlain (s : Series) : Type 0 where
  plain_name : Lacks newline s.name
  plain_kind : Lacks newline s.kind
  plain_help : Lacks newline s.help

of_contains : (s : Str) → contains newline s ≡ false → Lacks newline s
of_contains [] h = tt
of_contains (x ∷ s) h = ground (arith, of_contains s)

split-write_lines :
    (ls : List Str) (rest : Str)
    → All (Lacks newline) ls
    → split newline (write_lines ls rest) ≡ ls ++ split newline rest
unfolding write_lines
split-write_lines [] rest h = refl
split-write_lines (l ∷ ls) rest h =
    split-line newline l (write_lines ls rest) h.0 ∙ ap (λ m. l ∷ m) (split-write_lines ls rest h.1)

text : (s : String) → contains newline (codes s) ≡ false → Lacks newline (codes s)
text s h = of_contains (codes s) h

lines_of-Lacks :
    (id : Str) (s : Series) → Lacks newline id → IsPlain s → All (Lacks newline) (lines_of id s)
unfolding lines_of
lines_of-Lacks id s i p =
    let both = Lacks-append newline in
    (
      both (codes "# HELP entmoot_") _ (text "# HELP entmoot_" refl)
          (both s.name _ p.plain_name (both (codes " ") s.help (text " " refl) p.plain_help)),
      (
        both (codes "# TYPE entmoot_") _ (text "# TYPE entmoot_" refl)
            (both s.name _ p.plain_name (both (codes " ") s.kind (text " " refl) p.plain_kind)),
        (
          both (codes "entmoot_") _ (text "entmoot_" refl) (
              both s.name _ p.plain_name (
                both (codes "{node=\"") _ (text "{node=\"" refl) (
                  both id _ i (
                    both (codes "\"} ") (digits 20 s.value) (text "\"} " refl)
                      (digits-Lacks newline 20 s.value (omega arith)))))),
          tt,
        ),
      ),
    )

split-write_series :
    (id : Str) (ss : List Series)
    → Lacks newline id
    → All IsPlain ss
    → split newline (write_series id ss) ≡ all_lines id ss ++ ([] ∷ [])
unfolding write_series all_lines split
split-write_series id [] i p = refl
split-write_series id (s ∷ ss) i p =
    split-write_lines (lines_of id s) (write_series id ss) (lines_of-Lacks id s i p.0)
    ∙ ap (λ m. lines_of id s ++ m) (split-write_series id ss i p.1)

-- A test for it, which the series of the page pass.
are_plain : List Series → Bool
are_plain [] = true
are_plain (s ∷ ss) =
    if contains newline s.name
    then false
    else if contains newline s.kind
    then false
    else if contains newline s.help
    then false
    else are_plain ss

are_plain-IsPlain : (ss : List Series) → are_plain ss ≡ true → All IsPlain ss
unfolding are_plain
are_plain-IsPlain [] h = tt
are_plain-IsPlain (s ∷ ss) h = (
  record {
    plain_name = of_contains s.name (ground arith);
    plain_kind = of_contains s.kind (ground arith);
    plain_help = of_contains s.help (ground arith);
  },
  are_plain-IsPlain ss (ground arith),
)

pub are_distinct : List Series → Bool
are_distinct [] = true
are_distinct (s ∷ ss) = if any (λ t. str_eq t.name s.name) ss then false else are_distinct ss

-- The page is made of three lines for each series and of nothing else, if the node's id is one line;
-- no two of its series have the same name.
pub render_lines :
    (b : Sample)
    → Lacks newline b.id
    → (split newline (render b) ≡ all_lines b.id (series b) ++ ([] ∷ []))
      × (are_distinct (series b) ≡ true)
unfolding render series are_plain are_distinct str_eq
render_lines b i = (split-write_series b.id (series b) i (are_plain-IsPlain (series b) refl), refl)
