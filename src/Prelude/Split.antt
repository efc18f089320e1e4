-- ===== src/Prelude/Split.antt =====
-- The methods of Python's str that take texts apart, on lists of code points.
use Prim.Native.Nat.{ℕ, ◌+◌}
use mathlib.Core.Path.{◌≡◌, refl, ap, ◌∙◌}
use mathlib.Core.Bool.{Bool, true, false, ◌&&◌, ◌||◌}
use mathlib.Core.Option.{Option, none}
use mathlib.Core.List.{List, [], ◌∷◌, ◌++◌}
use native.Mathlib.Omega.{arith}
use repogauge.Prelude.Tests.{is_some, nat_eq, if◌then◌else◌, leb, Bool-cases}
use mathlib.Core.Logic.{inl, inr}
use repogauge.Prelude.Lists.{is_empty}
use repogauge.Prelude.Text.{Text, text_eq, strip_prefix, is_space, starts_with, contains}

-- `s.lstrip()`, `s.rstrip()` and `s.strip()`
unfoldable pub lstrip : Text → Text
lstrip [] = []
lstrip (c ∷ cs) = let rest = lstrip cs in if is_space c then rest else c ∷ cs

unfoldable pub rstrip : Text → Text
rstrip [] = []
rstrip (c ∷ cs) = let rest = rstrip cs in if is_space c && is_empty rest then [] else c ∷ rest

abbrev pub strip : Text → Text
strip s = lstrip (rstrip s)

-- `s.endswith(suffix)`
unfoldable pub ends_with : Text → Text → Bool
ends_with suffix [] = is_empty suffix
ends_with suffix (c ∷ cs) = text_eq suffix (c ∷ cs) || ends_with suffix cs

-- `s.split(separator, 1)[0]`
unfoldable pub before : Text → Text → Text
before separator [] = []
before separator (c ∷ cs) =
    let rest = before separator cs in if starts_with separator (c ∷ cs) then [] else c ∷ rest

-- Where `s.splitlines()` breaks.
abbrev pub is_break : ℕ → Bool
is_break c =
    leb 10 c && leb c 13 || leb 28 c && leb c 30 || nat_eq c 133 || nat_eq c 8232 || nat_eq c 8233

abbrev pub onto_first : ℕ → List Text → List Text
onto_first c [] = (c ∷ []) ∷ []
onto_first c (l ∷ ls) = (c ∷ l) ∷ ls

-- `s.splitlines()`: CR and LF together are one break.
unfoldable pub splitlines : Text → List Text
splitlines [] = []
splitlines (c ∷ cs) =
    let rest = splitlines cs in
    if nat_eq c 13 && starts_with (10 ∷ []) cs
    then rest
    else if is_break c
    then [] ∷ rest
    else onto_first c rest

-- `c.lower()`, for the texts that the program looks for, which are ASCII: beside A to Z, the Kelvin sign
-- and the dotted I have ASCII letters in their lower forms.
abbrev pub lower_char : ℕ → Text
lower_char c =
    if leb 65 c && leb c 90
    then (c + 32) ∷ []
    else if nat_eq c 8490
    then 107 ∷ []
    else if nat_eq c 304
    then 105 ∷ 775 ∷ []
    else c ∷ []

unfoldable pub lower : Text → Text
lower [] = []
lower (c ∷ cs) = lower_char c ++ lower cs

strip_prefix-cons :
    (p c : ℕ) (ps cs : Text)
    → strip_prefix (p ∷ ps) (c ∷ cs) ≡ (if nat_eq p c then strip_prefix ps cs else none)
unfolding strip_prefix
strip_prefix-cons p c ps cs = refl

is_some-if : (b : Bool) (o : Option Text) → is_some (if b then o else none) ≡ (b && is_some o)
is_some-if true o = refl
is_some-if false o = refl

starts_with-cons :
    (p c : ℕ) (ps cs : Text) → starts_with (p ∷ ps) (c ∷ cs) ≡ (nat_eq p c && starts_with ps cs)
starts_with-cons p c ps cs =
    ap is_some (strip_prefix-cons p c ps cs) ∙ is_some-if (nat_eq p c) (strip_prefix ps cs)

before-cons :
    (q s : Text) (c : ℕ) → before q (c ∷ s) ≡ (if starts_with q (c ∷ s) then [] else c ∷ before q s)
unfolding before
before-cons q s c = refl

starts_with_nil : (s : Text) → starts_with [] s ≡ true
unfolding strip_prefix
starts_with_nil s = refl

starts_with-empty : (p : ℕ) (ps : Text) → starts_with (p ∷ ps) [] ≡ false
unfolding strip_prefix
starts_with-empty p ps = refl

before_nil : (q : Text) → before q [] ≡ []
unfolding before
before_nil q = refl

contains_nil : (p : ℕ) (ps : Text) → contains (p ∷ ps) [] ≡ false
unfolding contains strip_prefix
contains_nil p ps = refl

contains-cons :
    (n : Text) (c : ℕ) (s : Text) → contains n (c ∷ s) ≡ (starts_with n (c ∷ s) || contains n s)
unfolding contains
contains-cons n c s = refl

-- What begins a text that was cut begins the text.
starts_with-before : (p q s : Text) → starts_with p (before q s) ≡ true → starts_with p s ≡ true
starts_with-before [] q s h = starts_with_nil s
starts_with-before (p ∷ ps) q [] h = rw before_nil at h
starts_with-before (p ∷ ps) q (c ∷ cs) h = elim (Bool-cases (starts_with q (c ∷ cs))) [
  | inl cut ↦ cc (starts_with-empty p ps, (rw (before-cons q cs c, cut) at h))
  | inr kept ↦
      let g = (rw (before-cons q cs c, kept, starts_with-cons) at h) in
      rw starts_with-cons (ground (arith, starts_with-before ps q cs))
]

-- A text cut before a separator that is not empty does not hold it.
pub contains-before : (p : ℕ) (ps s : Text) → contains (p ∷ ps) (before (p ∷ ps) s) ≡ false
contains-before p ps [] = rw before_nil (contains_nil p ps)
contains-before p ps (c ∷ cs) = elim (Bool-cases (starts_with (p ∷ ps) (c ∷ cs))) [
  | inl cut ↦ rw (before-cons, cut) (contains_nil p ps)
  | inr kept ↦
      let quiet : starts_with (p ∷ ps) (c ∷ before (p ∷ ps) cs) ≡ false = ground (
        arith,
        starts_with-cons p c ps cs,
        starts_with-cons p c ps (before (p ∷ ps) cs),
        starts_with-before ps (p ∷ ps) cs,
      ) in
      rw (before-cons, kept, contains-cons, quiet, contains-before p ps cs) refl
]
