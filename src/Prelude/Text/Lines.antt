-- ===== src/Prelude/Text/Lines.antt =====
-- A text that is written line by line is read back line by line.
use Prim.Native.Char.{code}
use Prim.Native.String
use Prim.Native.String.{String}
use text.Mathlib.TextLemmas.{cons-append, nil-append, append-nil, append_assoc}
use mathlib.Core.Path.{◌≡◌, refl, sym, ap, ◌∙◌}
use mathlib.Core.Bool.{false}
use mathlib.Core.List.{◌∷◌}
use fps_anticheat_data_platf.Prelude.Tests.{◌==◌}
use fps_anticheat_data_platf.Prelude.Text.{lines, rev_onto, drop_cr, lines_from}

-- neither a line feed nor a carriage return
abbrev pub IsOneLine : String → Type 0
IsOneLine String.[] = Unit
IsOneLine (String.◌∷◌ c s) = ((code c == 10) ≡ false) × ((code c == 13) ≡ false) × IsOneLine s

rev_onto-IsOneLine : (s t : String) → IsOneLine s → IsOneLine t → IsOneLine (rev_onto s t)
rev_onto-IsOneLine String.[] t h k = k
rev_onto-IsOneLine (String.◌∷◌ c s) t h k = rev_onto-IsOneLine s (String.◌∷◌ c t) h.2 (h.0, h.1, k)

drop_cr-IsOneLine : (s : String) → IsOneLine s → drop_cr s ≡ s
drop_cr-IsOneLine String.[] h = refl
drop_cr-IsOneLine (String.◌∷◌ c s) h = rw h.1 refl

rev_onto-rev_onto : (s t u : String) → rev_onto (rev_onto s t) u ≡ rev_onto t (String.◌++◌ s u)
rev_onto-rev_onto String.[] t u = ap (rev_onto t) (sym (nil-append u))
rev_onto-rev_onto (String.◌∷◌ c s) t u =
    rev_onto-rev_onto s (String.◌∷◌ c t) u ∙ ap (rev_onto t) (sym (cons-append c s u))

lines_from-line :
    (word s rest : String)
    → IsOneLine s
    → lines_from word (String.◌++◌ s (String.◌∷◌ "\n" rest))
      ≡ rev_onto (drop_cr (rev_onto s word)) "" ∷ lines_from "" rest
unfolding lines_from
lines_from-line word String.[] rest h = rw nil-append refl
lines_from-line word (String.◌∷◌ c s) rest h =
    rw (cons-append, h.0, lines_from) (lines_from-line (String.◌∷◌ c word) s rest h.2)

break-append : (t : String) → String.◌++◌ "\n" t ≡ String.◌∷◌ "\n" t
break-append t = cons-append "\n" "" t ∙ ap (String.◌∷◌ "\n") (nil-append t)

first_line : (s : String) → IsOneLine s → rev_onto (drop_cr (rev_onto s "")) "" ≡ s
first_line s h =
    ap (λ t. rev_onto t "") (drop_cr-IsOneLine (rev_onto s "") (rev_onto-IsOneLine s "" h tt))
    ∙ rev_onto-rev_onto s "" ""
    ∙ append-nil s

-- A line that was written before the rest of a text is its first line.
pub lines-line :
    (s rest : String) → IsOneLine s → lines (String.◌++◌ (String.◌++◌ s "\n") rest) ≡ s ∷ lines rest
unfolding lines
lines-line s rest h =
    ap (lines_from "") (append_assoc s "\n" rest ∙ ap (String.◌++◌ s) (break-append rest))
    ∙ lines_from-line "" s rest h
    ∙ ap (λ t. t ∷ lines_from "" rest) (first_line s h)
