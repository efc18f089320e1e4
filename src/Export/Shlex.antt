-- ===== src/Export/Shlex.antt =====
-- shlex.split of Python's library, which repogauge/export/split_patch.py reads diff headers with: the
-- POSIX lexer without comments.
use repogauge.Prelude.{
  ℕ, Bool, true, false, not, ◌&&◌, ◌||◌, Option, none, some, List, [], ◌∷◌, ◌++◌, nat_eq,
  if◌then◌else◌, is_empty,
}
use repogauge.Prelude.Text.{Text}

-- Where the lexer is: between words, in a word, in quotes, or behind a backslash.
pub data LexState : Type 0 where
  between in_word in_single in_double escaped_word escaped_double : LexState

pub record Lexer : Type 0 where
  pub state : LexState
  pub quoted : Bool
  pub token : Text

abbrev pub fresh : Lexer
fresh = record { state = between; quoted = false; token = [] }

abbrev is_blank_char : ℕ → Bool
is_blank_char c = nat_eq c 32 || nat_eq c 9 || nat_eq c 13 || nat_eq c 10

abbrev goto : LexState → Lexer → Lexer
goto state l = record l { state = state }

abbrev onto : LexState → Lexer → Text → Lexer
onto state l cs = record l { state = state; token = l.token ++ cs }

abbrev opened : LexState → Lexer → Lexer
opened state l = record l { state = state; quoted = true }

-- A character that begins or goes on with a word: quotes and a backslash change the state.
abbrev in_text : Lexer → ℕ → Lexer
in_text l c =
    if nat_eq c 92
    then goto escaped_word l
    else if nat_eq c 39
    then opened in_single l
    else if nat_eq c 34
    then opened in_double l
    else onto in_word l (c ∷ [])

-- A word that ended, if there is one.
abbrev word : Lexer → Option Text
word l = if is_empty l.token && not l.quoted then none else some l.token

-- One character: the lexer behind it, and the word that ends with it.
unfoldable pub lex_step : LexState → Lexer → ℕ → Lexer × Option Text
lex_step between l c = if is_blank_char c then (l, none) else (in_text l c, none)
lex_step in_word l c = if is_blank_char c then (fresh, word l) else (in_text l c, none)
lex_step in_single l c =
    if nat_eq c 39 then (goto in_word l, none) else (onto in_single l (c ∷ []), none)
lex_step in_double l c =
    if nat_eq c 34
    then (goto in_word l, none)
    else if nat_eq c 92
    then (goto escaped_double l, none)
    else (onto in_double l (c ∷ []), none)
lex_step escaped_word l c = (onto in_word l (c ∷ []), none)
lex_step escaped_double l c =
    if nat_eq c 92 || nat_eq c 34
    then (onto in_double l (c ∷ []), none)
    else (onto in_double l (92 ∷ c ∷ []), none)

abbrev with_word : Option Text → Option (List Text) → Option (List Text)
with_word (some w) (some ws) = some (w ∷ ws)
with_word none ws = ws
with_word (some w) none = none

-- At the end of the text: ValueError in quotes and behind a backslash.
abbrev lex_end : LexState → Lexer → Option (List Text)
lex_end between l = some []
lex_end in_word l = with_word (word l) (some [])
lex_end _ l = none

unfoldable pub lex : Lexer → Text → Option (List Text)
unfolding lex_step
lex l [] = lex_end l.state l
lex l (c ∷ cs) = let (l', w) = lex_step l.state l c in with_word w (lex l' cs)

-- `shlex.split(s)`; none stands for ValueError.
unfoldable pub shlex_split : Text → Option (List Text)
unfolding lex
shlex_split s = lex fresh s
