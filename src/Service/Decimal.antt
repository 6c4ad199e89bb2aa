-- ===== src/Service/Decimal.antt =====
-- Numbers in the messages of HierarchicalServiceManagementSystem/service.c: `intTostr` writes them by
-- `snprintf` with "%d", `atoi` reads them. They are counts of processes and secrets, none of them
-- negative.
use system_design.Base.{
  ℕ, zero, suc, ◌+◌, ◌-◌, ◌*◌, ◌/◌, ◌%◌, ◌^◌, ◌<◌, ◌≡◌, ◌∙◌, Bool-cases, inl, inr, ◌&&◌, true, [],
  ◌∷◌, Option, some, none, if◌then◌else◌, ◌==◌, ltb, leb, Text, arith,
}

-- One more than the largest `int`.
abbrev pub int_limit : ℕ
int_limit = 2 ^ 31

-- The decimal digits of `n`, at most `k`, before what is there.
unfoldable pub digits : ℕ → ℕ → Text → Text
digits zero n out = out
digits (suc k) n out =
    let out' = (b'0' + n % 10) ∷ out in
    let more = digits k (n / 10) out' in if n / 10 == 0 then out' else more

-- `intTostr(n)`: an `int` has at most ten digits.
unfoldable pub int_to_str : ℕ → Text
int_to_str n = digits 10 n []

-- The loop of `atoi` up to the first byte that is no digit; beyond an `int` its result is undefined:
-- `none`.
unfoldable pub scan : Text → ℕ → Option ℕ
scan [] n = some n
scan (c ∷ s) n =
    let more = scan s (n * 10 + (c - b'0')) in
    if leb b'0' c && leb c b'9'
    then (if ltb (n * 10 + (c - b'0')) int_limit then more else none)
    else some n

unfoldable pub atoi : Text → Option ℕ
atoi s = scan s 0

abbrev power : ℕ → ℕ
power zero = 1
power (suc k) = 10 * power k

scan_last :
    (n : ℕ) (out : Text) → n < int_limit → scan ((b'0' + n % 10) ∷ out) (n / 10) ≡ scan out n
unfolding scan
scan_last n out h = ground arith

scan_single : (n : ℕ) (out : Text) → n < 10 → scan ((b'0' + n % 10) ∷ out) 0 ≡ scan out n
unfolding scan
scan_single n out h = ground arith

scan-digits :
    (k n : ℕ) (out : Text)
    → n < power (suc k)
    → n < int_limit
    → scan (digits (suc k) n out) 0 ≡ scan out n
unfolding digits
scan-digits zero n out h fits =
    let last : (n / 10 == 0) ≡ true = ground arith in rw last (scan_single n out (omega arith))
scan-digits (suc k) n out h fits = elim (Bool-cases (n / 10 == 0)) [
  | inl last ↦ rw last (scan_single n out (ground arith))
  | inr more ↦ rw more (
      scan-digits k (n / 10) ((b'0' + n % 10) ∷ out) (omega arith) (omega arith)
      ∙ scan_last n out fits)
]

-- A number that is an `int` is read back from its print.
pub atoi-int_to_str : (n : ℕ) → n < int_limit → atoi (int_to_str n) ≡ some n
unfolding atoi int_to_str scan
atoi-int_to_str n h = scan-digits 9 n [] (omega arith) h
