-- ===== src/Prelude/Text.antt =====
-- What the program takes from Rust's `str`: trimming, words and lines, decimal numbers both ways.
pub mod Decimal
pub mod Lines
use Prim.Native.Char.{Char, code}
use Prim.Native.Nat.{ℕ, zero, suc, ◌+◌, ◌-◌, ◌*◌, ◌/◌, ◌%◌, ◌^◌}
use Prim.Native.String
use Prim.Native.String.{String}
use mathlib.Core.Path.{◌≡◌, refl}
use mathlib.Core.Bool.{Bool, true, false, not, ◌&&◌, ◌||◌}
use text.Mathlib.Text.{◌==◌ as str_eq}
use mathlib.Core.Option.{Option, none, some}
use mathlib.Core.List.{List, [], ◌∷◌}
use fps_anticheat_data_platf.Prelude.Tests.{ltb, leb, ◌==◌, if◌then◌else◌}
use fps_anticheat_data_platf.Prelude.Int.{ℤ, pos, negsuc}

abbrev pub is_blank : String → Bool
is_blank String.[] = true
is_blank (String.◌∷◌ c s) = false

-- the text of a `format!`, part by part
abbrev pub concat : List String → String
concat [] = ""
concat (s ∷ r) = String.◌++◌ s (concat r)

-- Unicode's White_Space, as `char::is_whitespace` has it
pub is_whitespace : ℕ → Bool
is_whitespace c =
    (leb 9 c && leb c 13)
    || c == 32
    || c == 0x85
    || c == 0xa0
    || c == 0x1680
    || (leb 0x2000 c && leb c 0x200a)
    || c == 0x2028
    || c == 0x2029
    || c == 0x202f
    || c == 0x205f
    || c == 0x3000

pub trim_start : String → String
unfolding is_whitespace
trim_start String.[] = ""
trim_start (String.◌∷◌ c s) =
    let rest = trim_start s in if is_whitespace (code c) then rest else String.◌∷◌ c s

abbrev keep_end : Bool → Char → String → String
keep_end true c String.[] = ""
keep_end _ c s = String.◌∷◌ c s

pub trim_end : String → String
unfolding is_whitespace
trim_end String.[] = ""
trim_end (String.◌∷◌ c s) = keep_end (is_whitespace (code c)) c (trim_end s)

-- `str::trim`
unfoldable pub trim : String → String
unfolding trim_start trim_end
trim s = trim_end (trim_start s)

pub is_ascii_hexdigit : ℕ → Bool
is_ascii_hexdigit c =
    (leb b'0' c && leb c b'9') || (leb b'a' c && leb c b'f') || (leb b'A' c && leb c b'F')

-- `chars().all(|c| c.is_ascii_hexdigit())`
unfoldable pub all_hex : String → Bool
unfolding is_ascii_hexdigit
all_hex String.[] = true
all_hex (String.◌∷◌ c s) = is_ascii_hexdigit (code c) && all_hex s

-- `split_whitespace`: `word` is the word read so far, last character first
abbrev rev_onto : String → String → String
rev_onto String.[] t = t
rev_onto (String.◌∷◌ c s) t = rev_onto s (String.◌∷◌ c t)

abbrev close_word : String → List String → List String
close_word String.[] rest = rest
close_word w rest = rev_onto w "" ∷ rest

words_from : String → String → List String
unfolding is_whitespace
words_from word String.[] = close_word word []
words_from word (String.◌∷◌ c s) = elim (is_whitespace (code c)) [
  | true ↦ close_word word (words_from "" s)
  | false ↦ words_from (String.◌∷◌ c word) s
]

unfoldable pub split_whitespace : String → List String
unfolding words_from
split_whitespace s = words_from "" s

-- `lines`: split at `\n`, a `\r` before it dropped, and no empty last line
abbrev drop_cr : String → String
drop_cr String.[] = ""
drop_cr (String.◌∷◌ c s) = if code c == 13 then s else String.◌∷◌ c s

lines_from : String → String → List String
lines_from line String.[] = close_word line []
lines_from line (String.◌∷◌ c s) = elim (code c == 10) [
  | true ↦ rev_onto (drop_cr line) "" ∷ lines_from "" s
  | false ↦ lines_from (String.◌∷◌ c line) s
]

unfoldable pub lines : String → List String
unfolding lines_from
lines s = lines_from "" s

-- `parse::<u64>()`: an optional `+`, then at least one digit and no overflow
digits_from : ℕ → String → Option ℕ
digits_from n String.[] = if ltb n (2 ^ 64) then some n else none
digits_from n (String.◌∷◌ c s) =
    let d = code c - b'0' in
    let rest = digits_from (n * 10 + d) s in
    if leb b'0' (code c) && leb (code c) b'9' then rest else none

abbrev digits_of : String → Option ℕ
unfolding digits_from
digits_of String.[] = none
digits_of s = digits_from 0 s

unfoldable pub parse_u64 : String → Option ℕ
unfolding digits_of digits_from
parse_u64 String.[] = none
parse_u64 (String.◌∷◌ c s) = if code c == b'+' then digits_of s else digits_from 0 (String.◌∷◌ c s)

abbrev digit_text : ℕ → String
digit_text zero = "0"
digit_text (suc zero) = "1"
digit_text (suc (suc zero)) = "2"
digit_text (suc (suc (suc zero))) = "3"
digit_text (suc (suc (suc (suc zero)))) = "4"
digit_text (suc (suc (suc (suc (suc zero))))) = "5"
digit_text (suc (suc (suc (suc (suc (suc zero)))))) = "6"
digit_text (suc (suc (suc (suc (suc (suc (suc zero))))))) = "7"
digit_text (suc (suc (suc (suc (suc (suc (suc (suc zero)))))))) = "8"
digit_text _ = "9"

-- the decimal digits before `tail`, with fuel; the number and one more is enough of it
unfoldable pub show_from : ℕ → ℕ → String → String
show_from zero n tail = tail
show_from (suc f) n tail =
    let out = String.◌++◌ (digit_text (n % 10)) tail in
    elim (ltb n 10) [ true ↦ out | false ↦ show_from f (n / 10) out ]

unfoldable pub show_ℕ : ℕ → String
unfolding show_from
show_ℕ n = show_from (suc n) n ""

unfoldable pub show_ℤ : ℤ → String
unfolding show_ℕ
show_ℤ (pos n) = show_ℕ n
show_ℤ (negsuc n) = String.◌++◌ "-" (show_ℕ (suc n))

show_numbers : show_ℤ (negsuc 1204) ≡ "-1205"
unfolding show_ℤ
show_numbers = refl

trim_both : trim " \t a b\n" ≡ "a b"
unfolding trim
trim_both = refl

words_of_line : split_whitespace "cpu  10 20\t3" ≡ "cpu" ∷ "10" ∷ "20" ∷ "3" ∷ []
unfolding split_whitespace
words_of_line = refl

lines_of_text : lines "ab\r\n\ncd\n" ≡ "ab" ∷ "" ∷ "cd" ∷ []
unfolding lines
lines_of_text = refl

parse_numbers : (parse_u64 "+12" ≡ some 12) × (parse_u64 "1x" ≡ none) × (parse_u64 "" ≡ none)
unfolding parse_u64
parse_numbers = (refl, refl, refl)

-- `split('/')`
segments_from : String → String → List String
segments_from word String.[] = rev_onto word "" ∷ []
segments_from word (String.◌∷◌ c s) = elim (code c == b'/') [
  | true ↦ rev_onto word "" ∷ segments_from "" s
  | false ↦ segments_from (String.◌∷◌ c word) s
]

unfoldable pub split_slash : String → List String
unfolding segments_from
split_slash s = segments_from "" s

abbrev last_or : String → List String → String
last_or d [] = d
last_or d (x ∷ xs) = last_or x xs

-- `split('/').last().unwrap_or(d)`
unfoldable pub last_segment : String → String → String
unfolding split_slash
last_segment d s = last_or d (split_slash s)

-- the text before the last dot
unfoldable pub before_last_dot : String → Option String
before_last_dot String.[] = none
before_last_dot (String.◌∷◌ c s) = elim (before_last_dot s) [
  | some b ↦ some (String.◌∷◌ c b)
  | none ↦ if code c == b'.' then some "" else none
]

-- a component of a path that is not dropped
abbrev is_normal : String → Bool
is_normal String.[] = false
is_normal s = not (str_eq s ".")

abbrev last_normal : Option String → List String → Option String
last_normal o [] = o
last_normal o (x ∷ xs) = last_normal (if is_normal x then some x else o) xs

abbrev stem_of : String → Option String → String
stem_of name none = name
stem_of name (some before) = if is_blank before then name else before

-- `Path::file_stem` on Unix
abbrev stem_of_name : Option String → Option String
unfolding before_last_dot
stem_of_name none = none
stem_of_name (some name) =
    if str_eq name ".." then none else some (stem_of name (before_last_dot name))

unfoldable pub file_stem : String → Option String
unfolding split_slash before_last_dot
file_stem path = stem_of_name (last_normal none (split_slash path))
