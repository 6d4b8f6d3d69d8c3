-- ===== src/Shard/Text.antt =====
-- The text functions of src/shard.cpp: lines, fields and decimal numbers, over bytes.
pub mod Decimal
pub mod Splitting
pub mod Tabs
use mathlib.Core.Option
use forge_dsio.Prelude.{
  ℕ, zero, suc, ◌+◌, ◌-◌, ◌*◌, ◌/◌, ◌%◌, ◌<◌, ◌==◌, ◌&&◌, leb, ltb, if◌then◌else◌, Bool, true,
  false, Option, none, some, List, [], ◌∷◌, ◌++◌, take, drop, ◌>>=◌,
}
use forge_dsio.Prelude.Words.{u64_mod}
use forge_dsio.Error.{Text}

abbrev pub tab : ℕ
tab = 9

abbrev pub newline : ℕ
newline = 10

abbrev pub carriage_return : ℕ
carriage_return = 13

abbrev pub hash : ℕ
hash = b'#'

abbrev pub is_digit : ℕ → Bool
is_digit c = leb b'0' c && leb c b'9'

-- `std::from_chars` for base 10: the digits in front, and what follows them.
unfoldable pub scan_digits : Text → ℕ → ℕ × Text
scan_digits [] n = (n, [])
scan_digits (c ∷ s) n = if is_digit c then scan_digits s (n * 10 + (c - b'0')) else (n, c ∷ s)

-- `invalid_argument` where no digit stands in front, `result_out_of_range` where the number does not
-- fit 64 bits; both are errors. `some` is the number and what `ptr` points to.
unfoldable pub from_chars : Text → Option (ℕ × Text)
from_chars [] = none
from_chars (c ∷ s) =
    let (n, rest) = scan_digits (c ∷ s) 0 in
    if is_digit c && ltb n u64_mod then some (n, rest) else none

abbrev pub is_empty : Text → Bool
is_empty [] = true
is_empty (_ ∷ _) = false

unfoldable pub parse_u64 : Text → Option ℕ
parse_u64 text = do r ← from_chars text; if is_empty r.1 then some r.0 else none

-- `find(c)`, and `find(c, from)`.
unfoldable pub find : ℕ → Text → Option ℕ
find c [] = none
find c (x ∷ s) = if x == c then some 0 else Option.map suc (find c s)

unfoldable pub find_from : ℕ → ℕ → Text → Option ℕ
unfolding find
find_from c from s = Option.map (λ i. from + i) (find c (drop from s))

pub record Fields : Type 0 where
  pub path : Text
  pub offset : Text
  pub length : Text

-- The first and the second tab are found, and no third.
unfoldable pub split_line : Text → Option Fields
split_line line = do
  first ← find tab line
  second ← find_from tab (first + 1) line
  elim (find_from tab (second + 1) line) [
    | some _ ↦ none
    | none ↦ some (record {
      path = take first line;
      offset = take (second - first - 1) (drop (first + 1) line);
      length = drop (second + 1) line;
    })
  ]

-- What `std::getline` reads one after the other. A last line needs no newline, and is not empty; when
-- a read failed (`bad`), what came before it on its line is not returned.
unfoldable pub last_line : Bool → Text → List Text
last_line true line = []
last_line false [] = []
last_line false (c ∷ s) = (c ∷ s) ∷ []

unfoldable pub lines_from : Bool → Text → Text → List Text
unfolding last_line
lines_from bad line [] = last_line bad line
lines_from bad line (c ∷ s) = elim (c == newline) [
  | true ↦ line ∷ lines_from bad [] s
  | false ↦ lines_from bad (line ++ (c ∷ [])) s
]

unfoldable pub lines : Bool → Text → List Text
unfolding lines_from
lines bad s = lines_from bad [] s

-- `out << n` for a 64-bit number: at most twenty digits.
unfoldable pub show_digits : ℕ → ℕ → Text → Text
show_digits zero n out = out
show_digits (suc rounds) n out =
    let more = show_digits rounds (n / 10) ((b'0' + n % 10) ∷ out) in
    if ltb n 10 then (b'0' + n) ∷ out else more

unfoldable pub show : ℕ → Text
unfolding show_digits
show n = show_digits 20 n []
