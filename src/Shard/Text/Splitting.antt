-- ===== src/Shard/Text/Splitting.antt =====
-- Fields and lines: `split_line` and `std::getline` undo the writing of a manifest line.
use forge_dsio.Prelude.{
  ℕ, suc, Bool, ◌+◌, ◌-◌, ◌==◌, ◌≡◌, ◌≢◌, refl, sym, ap, ◌∙◌, Option, none, some, [], ◌∷◌, ◌++◌,
  length, take, drop, take-append, drop-drop, append_assoc, append-nil, arith, Bool-cases, inl, inr,
}
use forge_dsio.Error.{Text}
use forge_dsio.Shard.Text.{tab, newline, find, find_from, Fields, split_line, lines_from, lines}

-- No byte of the text is `b`.
abbrev pub Lacks : ℕ → Text → Type 0
Lacks b [] = Unit {0}
Lacks b (c ∷ s) = (c ≢ b) × Lacks b s

pub find-Lacks : (b : ℕ) (s : Text) → Lacks b s → find b s ≡ none
unfolding find
find-Lacks b [] h = refl
find-Lacks b (c ∷ s) h = ground (arith, find-Lacks b s h.1)

pub Lacks-find : (c : ℕ) (s : Text) → find c s ≡ none → Lacks c s
unfolding find
Lacks-find c [] e = tt
Lacks-find c (x ∷ s) e = (λ same. ground arith, Lacks-find c s (ground arith))

find-append : (b : ℕ) (s rest : Text) → Lacks b s → find b (s ++ b ∷ rest) ≡ some (length s)
unfolding find
find-append b [] rest h = ground arith
find-append b (c ∷ s) rest h = ground (arith, find-append b s rest h.1)

-- `path<TAB>offset<TAB>length`.
abbrev pub manifest_line : Text → Text → Text → Text
manifest_line path offset size = path ++ (tab ∷ (offset ++ (tab ∷ size)))

drop-field : (b : ℕ) (s rest : Text) → drop (length s + 1) (s ++ b ∷ rest) ≡ rest
drop-field b [] rest = refl
drop-field b (c ∷ s) rest =
    ap (λ (k : ℕ). drop k (c ∷ s ++ b ∷ rest))
      (let e : suc (length s) + 1 ≡ suc (length s + 1) = omega arith in e)
    ∙ drop-field b s rest

pub split_line-manifest_line :
    (path offset size : Text)
    → Lacks tab path
    → Lacks tab offset
    → Lacks tab size
    → split_line (manifest_line path offset size)
      ≡ some (record { path = path; offset = offset; length = size })
unfolding split_line find_from
split_line-manifest_line path offset size hp ho hs =
    rw
      (
        find-append tab path (offset ++ tab ∷ size) hp,
        drop-field tab path (offset ++ tab ∷ size),
        find-append tab offset size ho,
      )
      rest_of_line
  where
    line : Text
    line = manifest_line path offset size

    second : ℕ
    second = length path + 1 + length offset

    width : second - length path - 1 ≡ length offset
    width = omega arith

    last_field : drop (second + 1) line ≡ size
    last_field =
        ap (λ (k : ℕ). drop k line)
          (let e : second + 1 ≡ (length path + 1) + (length offset + 1) = omega arith in e)
        ∙ sym (drop-drop (length path + 1) (length offset + 1) line)
        ∙ ap (drop (length offset + 1)) (drop-field tab path (offset ++ tab ∷ size))
        ∙ drop-field tab offset size

    rest_of_line :
        (elim (find_from tab (second + 1) line) as (λ _. Option Fields) [
          | some _ ↦ none
          | none ↦ some (record {
            path = take (length path) line;
            offset = take (second - length path - 1) (drop (length path + 1) line);
            length = drop (second + 1) line;
          })
        ])
        ≡ some (record { path = path; offset = offset; length = size })
    rest_of_line =
        rw
          (
            last_field,
            find-Lacks tab size hs,
            take-append (length path) path (tab ∷ offset ++ tab ∷ size) refl,
            width,
            drop-field tab path (offset ++ tab ∷ size),
            take-append (length offset) offset (tab ∷ size) refl,
            last_field,
          )
          refl

lines_from-append :
    (bad : Bool) (line s rest : Text)
    → Lacks newline s
    → lines_from bad line (s ++ newline ∷ rest) ≡ (line ++ s) ∷ lines_from bad [] rest
unfolding lines_from
lines_from-append bad line [] rest h = rw append-nil
lines_from-append bad line (c ∷ s) rest h = elim (Bool-cases (c == newline)) [
  | inl hit ↦ absurd (ground arith)
  | inr miss ↦
      rw (miss, lines_from)
        (lines_from-append bad (line ++ (c ∷ [])) s rest h.1
          ∙ ap (λ (l : Text). l ∷ lines_from bad [] rest) (append_assoc line (c ∷ []) s))
]

-- A line and its newline are read as that line, and then the rest.
pub lines-append :
    (bad : Bool) (s rest : Text)
    → Lacks newline s
    → lines bad (s ++ newline ∷ rest) ≡ s ∷ lines bad rest
unfolding lines
lines-append bad s rest h = lines_from-append bad [] s rest h
