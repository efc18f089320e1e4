-- ===== src/Mining/Signals.antt =====
-- repogauge/mining/score.py: what the score looks for in the message and in the diff.
use repogauge.Prelude.{
  ℕ, ◌≡◌, refl, sym, ap, ◌≢◌, inl, inr, Bool, false, not, ◌||◌, some, List, [], ◌∷◌, nat_eq,
  nat_eq→eq, Bool-cases,
}
use repogauge.Prelude.Text.{Text, codes, is_space}
use repogauge.Mining.Pattern.{
  Pattern, char, boundary, followed, either, star, plus, option, exactly, folded, search,
  search_start, is_digit_char, first, ends,
}

-- _BUGFIX_KEYWORDS
abbrev pub bugfix_keywords : List Text
bugfix_keywords =
    codes "fix"
    ∷ codes "bug"
    ∷ codes "regression"
    ∷ codes "error"
    ∷ codes "handle"
    ∷ codes "crash"
    ∷ codes "fails"
    ∷ codes "incorrect"
    ∷ []

abbrev other_than : ℕ → Pattern
other_than c = char (λ d. not (nat_eq c d))

abbrev digits : Pattern
digits = plus (char is_digit_char)

-- _ISSUE_REFERENCE_RE
abbrev keyword : Pattern
keyword = either (folded (codes "fix")) (
    either (folded (codes "close")) (
      either (followed (folded (codes "close")) (option (folded (codes "s")))) (
        either (folded (codes "resolve")) (
          either (followed (folded (codes "resolve")) (option (folded (codes "s"))))
            (folded (codes "refs"))))))

abbrev keyword_reference : Pattern
keyword_reference = followed boundary (
    followed keyword
      (followed boundary (followed (star (other_than 10)) (followed (exactly (codes "#")) digits))))

abbrev url_reference : Pattern
url_reference = followed boundary (
    followed (folded (codes "http")) (
      followed (option (folded (codes "s"))) (
        followed (folded (codes "://github.com/")) (
          followed (plus (other_than 47)) (
            followed (exactly (codes "/")) (
              followed (plus (other_than 47)) (
                followed (exactly (codes "/")) (
                  followed (either (folded (codes "issues")) (folded (codes "pull")))
                    (followed (exactly (codes "/")) digits)))))))))

abbrev pr_reference : Pattern
pr_reference = followed boundary (
    followed (folded (codes "pr")) (
      followed (star (char is_space))
        (followed (option (exactly (codes "#"))) (followed digits boundary))))

unfoldable pub has_issue_reference : Text → Bool
has_issue_reference message =
    search (either keyword_reference (either url_reference pr_reference)) message

-- _TEST_FUNCTION_RE and _ASSERTION_RE as they are written: in these raw strings `\\` is a backslash in
-- the text, and `s+` behind it is a run of the letter s.
abbrev backslashes : Pattern
backslashes = plus (exactly (codes "\\"))

abbrev test_function : Pattern
test_function = followed backslashes (
    followed
      (star (either (exactly (codes " ")) (either (exactly (codes "\\")) (folded (codes "t")))))
      (followed (option (followed (folded (codes "async\\")) (plus (folded (codes "s"))))) (
        followed (folded (codes "def\\"))
          (followed (plus (folded (codes "s"))) (folded (codes "test_"))))))

abbrev assertion : Pattern
assertion = followed backslashes (
    followed
      (star (either (exactly (codes " ")) (either (exactly (codes "\\")) (exactly (codes "t")))))
      (followed (exactly (codes "assert\\")) (plus (exactly (codes "s")))))

unfoldable pub has_new_tests : Text → Bool
has_new_tests diff = search_start test_function diff || search_start assertion diff

-- What starts with backslashes is found only at the start of a text that starts with one.
backslashes-first :
    (rest : Pattern) (c : ℕ) (cs : Text)
    → nat_eq b'\\' c ≡ false
    → search_start (followed backslashes rest) (c ∷ cs) ≡ false
unfolding search_start ends
backslashes-first rest c cs h = rw h refl

backslashes-empty : (rest : Pattern) → search_start (followed backslashes rest) [] ≡ false
unfolding search_start ends
backslashes-empty rest = refl

-- A diff that does not start with a backslash shows no new tests.
pub has_new_tests-never : (diff : Text) → first diff ≢ some b'\\' → has_new_tests diff ≡ false
unfolding has_new_tests
has_new_tests-never [] h = rw (backslashes-empty, backslashes-empty) refl
has_new_tests-never (c ∷ cs) h = elim (Bool-cases (nat_eq b'\\' c)) [
  | inl same ↦ absurd (h (ap some (sym (nat_eq→eq b'\\' c same))))
  | inr other ↦ rw (backslashes-first _ c cs other, backslashes-first _ c cs other) refl
]
