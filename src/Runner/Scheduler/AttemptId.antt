-- ===== src/Runner/Scheduler/AttemptId.antt =====
-- repogauge/runner/scheduler.py: attempt ids, and the index that is read back from one.
use repogauge.Prelude.{
  ℕ, zero, suc, ◌+◌, ◌-◌, ◌*◌, ◌/◌, ◌%◌, ◌<◌, ◌≡◌, refl, ap, ◌∙◌, ◌≢◌, inl, inr, Bool, true, false,
  ◌&&◌, ◌||◌, Option, none, some, [], ◌∷◌, ◌++◌, arith, ltb, leb, nat_eq, if◌then◌else◌, ltb→lt,
  Bool-cases, All,
}
use repogauge.Prelude.Decimal.{decimal_onto, decimal}
use repogauge.Prelude.Int.{ℤ, pos, sub_ℕ}
use repogauge.Prelude.Split.{strip, lstrip, rstrip}
use repogauge.Prelude.Text.{is_space, Text, codes, strip_prefix, strip_prefix-append}

is_digit : ℕ → Bool
is_digit c = leb b'0' c && leb c b'9'

-- The digits of an integer: one at least, with single underscores between them.
int_from : Bool → ℕ → Text → Option ℕ
int_from after_digit n [] = if after_digit then some n else none
int_from after_digit n (c ∷ cs) =
    let rest = int_from (is_digit c) (if is_digit c then n * 10 + (c - b'0') else n) cs in
    if is_digit c || after_digit && nat_eq c b'_' then rest else none

abbrev positive : Option ℕ → Option ℤ
positive none = none
positive (some n) = some (pos n)

abbrev negative : Option ℕ → Option ℤ
negative none = none
negative (some n) = some (sub_ℕ 0 n)

signed : Text → Option ℤ
signed [] = none
signed (c ∷ cs) =
    if nat_eq c b'-'
    then negative (int_from false 0 cs)
    else if nat_eq c b'+'
    then positive (int_from false 0 cs)
    else positive (int_from false 0 (c ∷ cs))

-- int(s), which raises ValueError where there is none; of the decimal digits of Unicode, for ASCII's.
unfoldable pub int : Text → Option ℤ
unfolding signed int_from is_digit lstrip rstrip is_space
int s = signed (strip s)

abbrev pub separator : Text
separator = codes ":attempt-"

-- f"{job_id}:attempt-{index}"
abbrev pub attempt_id : Text → ℕ → Text
attempt_id job_id index = job_id ++ (separator ++ decimal index)

-- s.rsplit(":attempt-", 1)[1]: what stands behind the last separator.
after_last : Text → Option Text
after_last [] = none
after_last (c ∷ cs) = elim (after_last cs) [
  | some tail ↦ some tail
  | none ↦ strip_prefix separator (c ∷ cs)
]

index_of : Option Text → ℤ
index_of none = pos 1
index_of (some tail) = elim (int tail) [ none ↦ pos 1 | some n ↦ n ]

-- _coerce_attempt_index: 1 where there is no separator or no number behind it
unfoldable pub coerce_attempt_index : Text → ℤ
unfolding after_last index_of int
coerce_attempt_index s = index_of (after_last s)

digit_below : (n : ℕ) → n < 10 → is_digit (b'0' + n) ≡ true
unfolding is_digit
digit_below n h = ground arith

digit : (n : ℕ) → is_digit (b'0' + n % 10) ≡ true
unfolding is_digit
digit n = ground arith

int_from-last :
    (b : Bool) (n : ℕ) (rest : Text)
    → int_from b (n / 10) ((b'0' + n % 10) ∷ rest) ≡ int_from true n rest
unfolding int_from
int_from-last b n rest =
    let whole : n / 10 * 10 + (b'0' + n % 10 - b'0') ≡ n = omega arith in rw (digit n) (rw whole)

int_from-decimal_onto :
    (fuel n : ℕ) (rest : Text)
    → n < fuel
    → int_from false 0 (decimal_onto fuel n rest) ≡ int_from true n rest
unfolding decimal_onto int_from
int_from-decimal_onto zero n rest h = elim h [ ]
int_from-decimal_onto (suc fuel) n rest h = elim (Bool-cases (ltb n 10)) [
  | inl small ↦ rw small (
      let whole : 0 * 10 + (b'0' + n - b'0') ≡ n = omega arith in
      rw (digit_below n (ltb→lt n 10 small)) (rw whole refl))
  | inr large ↦ rw large (
      int_from-decimal_onto fuel (n / 10) ((b'0' + n % 10) ∷ rest) (ground arith)
      ∙ int_from-last true n rest)
]

IsPlain : ℕ → Type 0
IsPlain c = nat_eq b':' c ≡ false

IsDigit : ℕ → Type 0
IsDigit c = is_digit c ≡ true

decimal_onto-IsDigit :
    (fuel n : ℕ) (rest : Text) → All IsDigit rest → All IsDigit (decimal_onto fuel n rest)
unfolding decimal_onto IsDigit
decimal_onto-IsDigit zero n rest h = h
decimal_onto-IsDigit (suc fuel) n rest h = elim (Bool-cases (ltb n 10)) [
  | inl small ↦ rw small (digit_below n (ltb→lt n 10 small), h)
  | inr large ↦ rw large (decimal_onto-IsDigit fuel (n / 10) _ (digit n, h))
]

decimal-IsDigit : (n : ℕ) → All IsDigit (decimal n)
unfolding decimal
decimal-IsDigit n = decimal_onto-IsDigit (suc n) n [] tt

digit-IsPlain : (c : ℕ) → IsDigit c → IsPlain c
unfolding IsDigit IsPlain is_digit
digit-IsPlain c h = ground arith

digits-IsPlain : (s : Text) → All IsDigit s → All IsPlain s
digits-IsPlain [] h = tt
digits-IsPlain (c ∷ cs) h = (digit-IsPlain c h.0, digits-IsPlain cs h.1)

digit-is_space : (c : ℕ) → IsDigit c → is_space c ≡ false
unfolding IsDigit is_digit is_space
digit-is_space c h = ground arith

-- Digits have no white space around them, and no sign before them.
rstrip-digits : (s : Text) → All IsDigit s → rstrip s ≡ s
unfolding rstrip
rstrip-digits [] h = refl
rstrip-digits (c ∷ cs) h = rw (digit-is_space c h.0) (ap (λ l. c ∷ l) (rstrip-digits cs h.1))

lstrip-digits : (s : Text) → All IsDigit s → lstrip s ≡ s
unfolding lstrip
lstrip-digits [] h = refl
lstrip-digits (c ∷ cs) h = rw (digit-is_space c h.0) refl

signed-digits : (s : Text) → All IsDigit s → s ≢ [] → signed s ≡ positive (int_from false 0 s)
unfolding signed IsDigit is_digit
signed-digits [] h ne = absurd (ne refl)
signed-digits (c ∷ cs) h ne = ground (arith, h.0)

after_last-plain : (s : Text) → All IsPlain s → after_last s ≡ none
unfolding after_last IsPlain strip_prefix
after_last-plain [] h = refl
after_last-plain (c ∷ cs) h = ground (arith, after_last-plain cs h.1)

after_last-append : (s t tail : Text) → after_last t ≡ some tail → after_last (s ++ t) ≡ some tail
unfolding after_last
after_last-append [] t tail h = h
after_last-append (c ∷ s) t tail h = ground (arith, after_last-append s t tail h)

cons_onto : (fuel n c : ℕ) (rest : Text) → decimal_onto fuel n (c ∷ rest) ≢ []
unfolding decimal_onto
cons_onto zero n c rest e = cc
cons_onto (suc fuel) n c rest e = elim (Bool-cases (ltb n 10)) [
  | inl small ↦ cc (rw small at e)
  | inr large ↦ cons_onto fuel (n / 10) (b'0' + n % 10) (c ∷ rest) (rw large at e)
]

decimal_onto-ne-nil : (fuel n : ℕ) (rest : Text) → decimal_onto (suc fuel) n rest ≢ []
unfolding decimal_onto
decimal_onto-ne-nil fuel n rest e = elim (Bool-cases (ltb n 10)) [
  | inl small ↦ cc (rw small at e)
  | inr large ↦ cons_onto fuel (n / 10) (b'0' + n % 10) rest (rw large at e)
]

decimal-ne-nil : (n : ℕ) → decimal n ≢ []
unfolding decimal
decimal-ne-nil n = decimal_onto-ne-nil n n []

int_from-decimal : (n : ℕ) → int_from false 0 (decimal n) ≡ some n
unfolding decimal int_from
int_from-decimal n = int_from-decimal_onto (suc n) n [] (omega arith)

-- The decimal digits of a number read back as the number.
int-decimal : (n : ℕ) → int (decimal n) ≡ some (pos n)
unfolding int
int-decimal n =
    let digits = decimal-IsDigit n in
    ap signed (ap lstrip (rstrip-digits (decimal n) digits) ∙ lstrip-digits (decimal n) digits)
    ∙ signed-digits (decimal n) digits (decimal-ne-nil n)
    ∙ ap positive (int_from-decimal n)

after_last-separator : (tail : Text) → All IsPlain tail → after_last (separator ++ tail) ≡ some tail
unfolding after_last IsPlain
after_last-separator tail h =
    let quiet : after_last (codes "attempt-" ++ tail) ≡ none =
      after_last-plain (codes "attempt-" ++ tail)
        (refl, (refl, (refl, (refl, (refl, (refl, (refl, (refl, h)))))))) in
    let front : strip_prefix separator (separator ++ tail) ≡ some tail =
      strip_prefix-append separator tail in
    rw (quiet, after_last) front

-- The index that `_coerce_attempt_index` reads from an attempt id is the index that it was built with,
-- whatever the job id holds.
pub coerce_attempt_index-attempt_id :
    (job_id : Text) (index : ℕ) → coerce_attempt_index (attempt_id job_id index) ≡ pos index
unfolding coerce_attempt_index
coerce_attempt_index-attempt_id job_id index =
    let found : after_last (attempt_id job_id index) ≡ some (decimal index) =
      after_last-append job_id _ _ (
        after_last-separator (decimal index)
          (digits-IsPlain (decimal index) (decimal-IsDigit index))) in
    rw (found, index_of, int-decimal index)
