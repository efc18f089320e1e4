-- ===== src/Mining/Pattern.antt =====
-- Regular expressions as repogauge/mining/score.py uses them with re.search: a matcher that lists the
-- ends of all matches from a place in a text.
use repogauge.Prelude.{
  ℕ, zero, suc, ◌+◌, Bool, true, false, not, ◌&&◌, ◌||◌, Option, none, some, List, [], ◌∷◌, ◌++◌,
  leb, nat_eq, if◌then◌else◌, length, is_empty,
}
use repogauge.Prelude.Text.{Text}

-- A place in a text: the character before it, if any, and the rest.
pub record Place : Type 0 where
  pub behind : Option ℕ
  pub ahead : Text

pub data Pattern : Type 0 where
  char : (ℕ → Bool) → Pattern
  boundary : Pattern
  empty : Pattern
  followed : Pattern → Pattern → Pattern
  either : Pattern → Pattern → Pattern
  star : Pattern → Pattern

-- \w, \d and the case folding of re.IGNORECASE, for ASCII patterns on texts whose letters and digits
-- are ASCII; the four characters that fold to an ASCII letter are there too.
abbrev pub is_digit_char : ℕ → Bool
is_digit_char c = leb 48 c && leb c 57

abbrev pub is_word_char : ℕ → Bool
is_word_char c = is_digit_char c || leb 65 c && leb c 90 || leb 97 c && leb c 122 || nat_eq c 95

abbrev pub fold : ℕ → ℕ
fold c =
    if leb 65 c && leb c 90
    then c + 32
    else if nat_eq c 383
    then 115
    else if nat_eq c 8490
    then 107
    else if nat_eq c 304 || nat_eq c 305
    then 105
    else c

abbrev pub is_word : Option ℕ → Bool
is_word none = false
is_word (some c) = is_word_char c

abbrev pub first : Text → Option ℕ
first [] = none
first (c ∷ cs) = some c

abbrev differ : Bool → Bool → Bool
differ true b = not b
differ false b = b

abbrev flat : (Place → List Place) → List Place → List Place
flat f [] = []
flat f (p ∷ ps) = f p ++ flat f ps

abbrev step : (ℕ → Bool) → Text → List Place
step test [] = []
step test (c ∷ cs) = if test c then (record { behind = some c; ahead = cs }) ∷ [] else []

-- Repeats of a matcher, at most as many as the fuel.
unfoldable pub repeats : (Place → List Place) → ℕ → Place → List Place
repeats f zero p = p ∷ []
repeats f (suc fuel) p = p ∷ flat (repeats f fuel) (f p)

-- The ends of the matches; a star repeats at most once for each character left.
unfoldable pub ends : Pattern → Place → List Place
unfolding repeats
ends (char test) p = step test p.ahead
ends boundary p = if differ (is_word p.behind) (is_word (first p.ahead)) then p ∷ [] else []
ends empty p = p ∷ []
ends (followed a b) p = flat (ends b) (ends a p)
ends (either a b) p = ends a p ++ ends b p
ends (star a) p = repeats (ends a) (length p.ahead) p

-- `pattern.search(text)`: a match from some place on
unfoldable pub search_from : Pattern → Option ℕ → Text → Bool
unfolding ends
search_from pattern behind [] =
    not (is_empty (ends pattern (record { behind = behind; ahead = [] })))
search_from pattern behind (c ∷ cs) =
    not (is_empty (ends pattern (record { behind = behind; ahead = c ∷ cs })))
    || search_from pattern (some c) cs

abbrev pub search : Pattern → Text → Bool
search pattern text = search_from pattern none text

-- `^` without re.MULTILINE: a match from the start
unfoldable pub search_start : Pattern → Text → Bool
unfolding ends
search_start pattern text = not (is_empty (ends pattern (record { behind = none; ahead = text })))

abbrev pub plus : Pattern → Pattern
plus a = followed a (star a)

abbrev pub option : Pattern → Pattern
option a = either a empty

abbrev pub is_char : ℕ → ℕ → Bool
is_char c d = nat_eq c d

abbrev pub is_char_folded : ℕ → ℕ → Bool
is_char_folded c d = nat_eq (fold c) (fold d)

-- A literal text, exactly or with case folded.
abbrev pub exactly : Text → Pattern
exactly [] = empty
exactly (c ∷ cs) = followed (char (is_char c)) (exactly cs)

abbrev pub folded : Text → Pattern
folded [] = empty
folded (c ∷ cs) = followed (char (is_char_folded c)) (folded cs)
