-- ===== src/Prelude/Decimal.antt =====
-- `fmt.Sprintf("%d", n)` and the integer that `fmt.Sscanf(..., "%d", &n)` reads.
use Prim.Native.Char.{Char, code}
use redis_foxtrot_autoscaler.Prelude.Int.{ℤ, pos, neg_ℕ}
use redis_foxtrot_autoscaler.Prelude.Int32.{Int32, half, modulus}
use redis_foxtrot_autoscaler.Prelude.Tests.{
  ltb, leb, if◌then◌else◌, lt→ltb, ltb→lt, ◌==◌, Bool-cases,
}
use redis_foxtrot_autoscaler.Prelude.Lists.{All}
use Prim.Native.Nat.{ℕ, zero, suc, ◌+◌, ◌-◌, ◌*◌, ◌/◌, ◌%◌, ◌^◌, ◌<◌}
use Prim.Native.String.{String}
use mathlib.Core.Path.{◌≡◌, refl, ap}
use mathlib.Core.Logic.{◌≢◌, inl, inr}
use native.Mathlib.Nat.{pow-suc}
use mathlib.Core.Bool.{false, ◌&&◌}
use mathlib.Core.Option.{Option, none, some}
use mathlib.Core.List.{List, [], ◌∷◌, ◌++◌}
use native.Mathlib.Omega.{arith}

-- Most significant digit first. Ten digits hold every `int32`.
unfoldable pub digits : ℕ → ℕ → List ℕ
digits zero n = []
digits (suc f) n = let rest = digits f (n / 10) in if ltb n 10 then n ∷ [] else rest ++ n % 10 ∷ []

unfoldable pub digit_char : ℕ → Char
digit_char zero = "0"
digit_char (suc zero) = "1"
digit_char (suc (suc zero)) = "2"
digit_char (suc (suc (suc zero))) = "3"
digit_char (suc (suc (suc (suc zero)))) = "4"
digit_char (suc (suc (suc (suc (suc zero))))) = "5"
digit_char (suc (suc (suc (suc (suc (suc zero)))))) = "6"
digit_char (suc (suc (suc (suc (suc (suc (suc zero))))))) = "7"
digit_char (suc (suc (suc (suc (suc (suc (suc (suc zero)))))))) = "8"
digit_char (suc (suc (suc (suc (suc (suc (suc (suc (suc n))))))))) = "9"

unfoldable pub render : List ℕ → String
render [] = ""
render (d ∷ ds) = String.◌∷◌ (digit_char d) (render ds)

-- `%d` of an `int32`.
unfoldable pub format : Int32 → String
format n =
    if ltb n half then render (digits 10 n) else String.◌∷◌ "-" (render (digits 10 (modulus - n)))

unfoldable pub digit_value : Char → Option ℕ
digit_value c = if leb 48 (code c) && leb (code c) 57 then some (code c - 48) else none

-- The run of digits that a text begins with.
unfoldable pub leading_digits : String → List ℕ
leading_digits String.[] = []
leading_digits (String.◌∷◌ c s) = elim (digit_value c) [ none ↦ [] | some d ↦ d ∷ leading_digits s ]

unfoldable pub value : ℕ → List ℕ → ℕ
value acc [] = acc
value acc (d ∷ ds) = value (acc * 10 + d) ds

-- No digits at all is an error.
unfoldable pub number : List ℕ → Option ℕ
number [] = none
number (d ∷ ds) = some (value 0 (d ∷ ds))

-- The value has to fit an `int`, which has 64 bits.
abbrev int_limit : ℕ
int_limit = 9223372036854775808

unfoldable pub positive : Option ℕ → Option ℤ
positive none = none
positive (some n) = if ltb n int_limit then some (pos n) else none

unfoldable pub negative : Option ℕ → Option ℤ
negative none = none
negative (some n) = if leb n int_limit then some (neg_ℕ n) else none

-- A sign is optional; what follows the digits is left unread.
unfoldable pub scan_int : String → Option ℤ
scan_int String.[] = none
scan_int (String.◌∷◌ c s) =
    if code c == 45
    then negative (number (leading_digits s))
    else if code c == 43
    then positive (number (leading_digits s))
    else positive (number (leading_digits (String.◌∷◌ c s)))

-- Each digit is read back as it was written, and is no sign.
digit_value-digit_char : (d : ℕ) → d < 10 → digit_value (digit_char d) ≡ some d
unfolding digit_value digit_char
digit_value-digit_char zero h = refl
digit_value-digit_char (suc zero) h = refl
digit_value-digit_char (suc (suc zero)) h = refl
digit_value-digit_char (suc (suc (suc zero))) h = refl
digit_value-digit_char (suc (suc (suc (suc zero)))) h = refl
digit_value-digit_char (suc (suc (suc (suc (suc zero))))) h = refl
digit_value-digit_char (suc (suc (suc (suc (suc (suc zero)))))) h = refl
digit_value-digit_char (suc (suc (suc (suc (suc (suc (suc zero))))))) h = refl
digit_value-digit_char (suc (suc (suc (suc (suc (suc (suc (suc zero)))))))) h = refl
digit_value-digit_char (suc (suc (suc (suc (suc (suc (suc (suc (suc zero))))))))) h = refl
digit_value-digit_char (suc (suc (suc (suc (suc (suc (suc (suc (suc (suc n)))))))))) h =
    absurd (omega arith)

not_sign : (c : Char) (d k : ℕ) → digit_value c ≡ some d → k < 48 → (code c == k) ≡ false
unfolding digit_value
not_sign c d k h lt = ground arith

leading_digits-render : (ds : List ℕ) → All (λ d. d < 10) ds → leading_digits (render ds) ≡ ds
unfolding leading_digits render
leading_digits-render [] h = refl
leading_digits-render (d ∷ ds) h =
    rw (digit_value-digit_char d h.0, leading_digits)
      (ap (λ l. d ∷ l) (leading_digits-render ds h.1))

All-snoc : (ds : List ℕ) (d : ℕ) → All (λ e. e < 10) ds → d < 10 → All (λ e. e < 10) (ds ++ d ∷ [])
All-snoc [] d h k = (k, tt)
All-snoc (e ∷ ds) d h k = (h.0, All-snoc ds d h.1 k)

digits-All : (f n : ℕ) → All (λ d. d < 10) (digits f n)
unfolding digits
digits-All zero n = tt
digits-All (suc f) n = elim (Bool-cases (ltb n 10)) [
  | inl small ↦ rw small (ltb→lt n 10 small, tt)
  | inr large ↦
      rw large (All-snoc (digits f (n / 10)) (n % 10) (digits-All f (n / 10)) (omega arith))
]

value-snoc : (acc : ℕ) (ds : List ℕ) (d : ℕ) → value acc (ds ++ d ∷ []) ≡ value acc ds * 10 + d
unfolding value
value-snoc acc [] d = refl
value-snoc acc (e ∷ ds) d = value-snoc (acc * 10 + e) ds d

tenth_lt : (f n : ℕ) → n < 10 ^ suc f → n / 10 < 10 ^ f
tenth_lt f n h = omega (arith, pow-suc 10 f)

value-digits : (f n : ℕ) → n < 10 ^ f → value 0 (digits f n) ≡ n
unfolding digits value
value-digits zero n h = omega arith
value-digits (suc f) n h = elim (Bool-cases (ltb n 10)) [
  | inl small ↦ rw small (omega arith)
  | inr large ↦
      rw (large, value-snoc 0 (digits f (n / 10)) (n % 10))
        (omega (arith, value-digits f (n / 10) (tenth_lt f n h)))
]

-- Digits that spell a number, and at least one of them.
number-digits : (ds : List ℕ) (n : ℕ) → ds ≢ [] → value 0 ds ≡ n → number ds ≡ some n
unfolding number
number-digits [] n h e = absurd (h refl)
number-digits (d ∷ ds) n h e = ap some e

snoc-ne-nil : (ds : List ℕ) (d : ℕ) → ds ++ d ∷ [] ≢ []
snoc-ne-nil [] d e = cc
snoc-ne-nil (x ∷ ds) d e = cc

digits-ne-nil : (f n : ℕ) → digits (suc f) n ≢ []
unfolding digits
digits-ne-nil f n = elim (Bool-cases (ltb n 10)) [
  | inl small ↦ rw small (λ e. cc)
  | inr large ↦ rw large (snoc-ne-nil (digits f (n / 10)) (n % 10))
]

scan_int-render :
    (ds : List ℕ) (n : ℕ)
    → All (λ d. d < 10) ds
    → number ds ≡ some n
    → n < int_limit
    → scan_int (render ds) ≡ some (pos n)
unfolding scan_int render positive
scan_int-render [] n h e lt = unfold number in cc
scan_int-render (d ∷ ds) n h e lt = rw (
  not_sign (digit_char d) d 45 (digit_value-digit_char d h.0) (omega arith),
  not_sign (digit_char d) d 43 (digit_value-digit_char d h.0) (omega arith),
  leading_digits-render (d ∷ ds) h,
  e,
  lt→ltb n int_limit lt,
)

-- Reading back what `%d` wrote of a count that is not negative.
pub scan_int-format : (n : Int32) → n < half → scan_int (format n) ≡ some (pos n)
unfolding format
scan_int-format n h = rw (lt→ltb n half h) (
    scan_int-render (digits 10 n) n (digits-All 10 n)
      (number-digits (digits 10 n) n (digits-ne-nil 9 n) (value-digits 10 n (omega arith)))
      (omega arith))

-- So two counts that are written alike are equal.
pub format-injective : (m n : Int32) → m < half → n < half → format m ≡ format n → m ≡ n
format-injective m n hm hn e =
    ground (arith, scan_int-format m hm, scan_int-format n hn, ap scan_int e)
