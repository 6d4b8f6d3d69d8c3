-- ===== src/Shard/Text/Decimal.antt =====
-- Decimal numbers: what `parse_u64` accepts, and that it reads back what is printed.
use mathlib.Core.List.{cons-ne-nil}
use native.Mathlib.Nat.{pow-succ'}
use forge_dsio.Prelude.{
  ℕ, zero, suc, ◌+◌, ◌-◌, ◌*◌, ◌/◌, ◌%◌, ◌^◌, ◌≤◌, ◌<◌, ◌≡◌, ◌≢◌, ◌↔◌, refl, ap, ◌∙◌, inl, inr,
  Bool-cases, ltb, ltb→lt, true, false, sym, some, [], ◌∷◌, arith,
}
use forge_dsio.Prelude.Words.{u64_mod}
use forge_dsio.Error.{Text}
use forge_dsio.Shard.Text.{scan_digits, from_chars, parse_u64, show_digits, show, is_empty}

abbrev pub IsDigit : ℕ → Type 0
IsDigit c = (b'0' ≤ c) × (c ≤ b'9')

abbrev pub AllDigits : Text → Type 0
AllDigits [] = Unit {0}
AllDigits (c ∷ s) = IsDigit c × AllDigits s

-- The number that digits spell behind `n`, without a bound.
unfoldable pub value : ℕ → Text → ℕ
value n [] = n
value n (c ∷ s) = value (n * 10 + (c - b'0')) s

scan_digits-AllDigits : (s : Text) (n : ℕ) → AllDigits s → scan_digits s n ≡ (value n s, [])
unfolding scan_digits value
scan_digits-AllDigits [] n d = refl
scan_digits-AllDigits (c ∷ s) n d =
    ground (arith, scan_digits-AllDigits s (n * 10 + (c - b'0')) d.1)

scan_digits_sound :
    (s : Text) (n : ℕ) → (scan_digits s n).1 ≡ [] → AllDigits s × ((scan_digits s n).0 ≡ value n s)
unfolding scan_digits value
scan_digits_sound [] n e = (tt, refl)
scan_digits_sound (c ∷ s) n e = ground (arith, scan_digits_sound s (n * 10 + (c - b'0')))

is_empty-nil : (s : Text) → is_empty s ≡ true → s ≡ []
is_empty-nil [] e = refl
is_empty-nil (c ∷ s) e = cc

-- `parse_u64` accepts exactly the texts of one or more digits whose number fits 64 bits, and returns
-- that number.
pub parse_u64_iff :
    (s : Text) (n : ℕ)
    → (parse_u64 s ≡ some n) ↔ ((s ≢ []) × AllDigits s × (n ≡ value 0 s) × (n < u64_mod))
unfolding parse_u64 from_chars
parse_u64_iff [] n = (λ e. cc, λ h. absurd (h.0 refl))
parse_u64_iff (c ∷ s) n = (
  λ e.
      let whole : (scan_digits (c ∷ s) 0).1 ≡ [] =
        ground (arith, is_empty-nil (scan_digits (c ∷ s) 0).1) in
      let (digits, spelled) = scan_digits_sound (c ∷ s) 0 whole in
      (cons-ne-nil c s, digits, ground (arith, spelled), ground (arith, spelled)),
  λ h. rw (scan_digits-AllDigits (c ∷ s) 0 h.1) (ground arith),
)

-- Digits in front of `out` are read up to `out`.
scan_digits-show_digits :
    (rounds n : ℕ) (out : Text)
    → n < 10 ^ rounds
    → scan_digits (show_digits rounds n out) 0 ≡ scan_digits out n
unfolding scan_digits show_digits
scan_digits-show_digits zero n out fits = ap (scan_digits out) (omega arith)
scan_digits-show_digits (suc rounds) n out fits = elim (Bool-cases (ltb n 10)) [
  | inl single ↦ rw single (ground (arith, ltb→lt n 10 single))
  | inr more ↦ rw more (
      scan_digits-show_digits rounds (n / 10) ((b'0' + n % 10) ∷ out)
        (omega (arith, pow-succ' 10 rounds))
      ∙ last_digit)
]
  where
    last_digit : scan_digits ((b'0' + n % 10) ∷ out) (n / 10) ≡ scan_digits out n
    last_digit = ground arith

show_digits-AllDigits :
    (rounds n : ℕ) (out : Text) → AllDigits out → AllDigits (show_digits rounds n out)
unfolding show_digits
show_digits-AllDigits zero n out h = h
show_digits-AllDigits (suc rounds) n out h = elim (Bool-cases (ltb n 10)) [
  | inl single ↦ rw single ((omega arith, omega (arith, ltb→lt n 10 single)), h)
  | inr more ↦ rw more (
      show_digits-AllDigits rounds (n / 10) ((b'0' + n % 10) ∷ out) ((omega arith, omega arith), h))
]

show_digits_nonempty :
    (rounds n c : ℕ) (out : Text) → is_empty (show_digits rounds n (c ∷ out)) ≡ false
unfolding show_digits
show_digits_nonempty zero n c out = refl
show_digits_nonempty (suc rounds) n c out = elim (Bool-cases (ltb n 10)) [
  | inl single ↦ rw single refl
  | inr more ↦ rw more (show_digits_nonempty rounds (n / 10) (b'0' + n % 10) (c ∷ out))
]

pub show-AllDigits : (n : ℕ) → AllDigits (show n)
unfolding show
show-AllDigits n = show_digits-AllDigits 20 n [] tt

pub show_nonempty : (n : ℕ) → is_empty (show n) ≡ false
unfolding show show_digits
show_nonempty n = elim (Bool-cases (ltb n 10)) [
  | inl single ↦ rw single refl
  | inr more ↦ rw more (show_digits_nonempty 19 (n / 10) (b'0' + n % 10) [])
]

-- `parse_u64` reads back every 64-bit number that `<<` prints.
pub parse_u64-show : (n : ℕ) → n < u64_mod → parse_u64 (show n) ≡ some n
unfolding show scan_digits
parse_u64-show n fits = (parse_u64_iff (show n) n).1 (
  λ e. let nonempty : is_empty (show n) ≡ false = show_nonempty n in cc,
  show-AllDigits n,
  ap (λ (r : ℕ × Text). r.0) spelled,
  fits,
)
  where
    spelled : ◌≡◌ {A = ℕ × Text} (n, []) (value 0 (show n), [])
    spelled =
        sym (scan_digits-show_digits 20 n [] (omega arith))
        ∙ scan_digits-AllDigits (show n) 0 (show-AllDigits n)
