-- ===== src/Validation/Inputs.antt =====
-- repogauge/validation/validate.py: the inputs of a test command, and when pytest is retried with files.
use repogauge.Prelude.{
  ℕ, ◌≡◌, refl, inl, inr, Bool, false, not, ◌&&◌, ◌||◌, List, [], ◌∷◌, ◌++◌, arith, nat_eq,
  if◌then◌else◌, Bool-cases, any, is_empty, All, All-append,
}
use repogauge.Prelude.Text.{Text, codes, text_eq, starts_with, contains}
use repogauge.Prelude.Int.{ℤ, pos, negsuc}
use repogauge.Prelude.Split.{strip, before, splitlines, lower, contains-before}

abbrev colons : Text
colons = codes "::"

-- `if value not in values: values.append(value)`
unfoldable pub append_new : Text → List Text → List Text
append_new value values = if any (text_eq value) values then values else values ++ value ∷ []

-- _pytest_file_inputs
abbrev file_part : Text → Text
file_part candidate = if contains colons candidate then before colons candidate else candidate

unfoldable pub file_inputs_onto : List Text → List Text → List Text
unfolding append_new
file_inputs_onto file_inputs [] = file_inputs
file_inputs_onto file_inputs (value ∷ values) =
    file_inputs_onto
      (if is_empty (strip value)
        then file_inputs
        else append_new (file_part (strip value)) file_inputs)
      values

unfoldable pub pytest_file_inputs : List Text → List Text
unfolding file_inputs_onto
pytest_file_inputs test_inputs = file_inputs_onto [] test_inputs

-- _pytest_file_fallback_inputs
abbrev new_fallback : Text → List Text → List Text
new_fallback file_path inputs = if is_empty file_path then inputs else append_new file_path inputs

abbrev with_fallback : Text → List Text → List Text
with_fallback value inputs =
    if is_empty (strip value) then inputs else new_fallback (before colons (strip value)) inputs

unfoldable pub fallback_onto : List Text → List Text → List Text
fallback_onto inputs [] = inputs
fallback_onto inputs (value ∷ values) = fallback_onto (with_fallback value inputs) values

unfoldable pub pytest_file_fallback_inputs : List Text → List Text
unfolding fallback_onto
pytest_file_fallback_inputs test_inputs = fallback_onto [] test_inputs

-- _parse_pytest_collected_nodes
abbrev is_node : Text → Bool
is_node candidate =
    not (is_empty candidate)
    && not (
        starts_with (codes "=") candidate
        || starts_with (codes "ERROR:") candidate
        || starts_with (codes "no tests collected") candidate)
    && contains colons candidate

unfoldable pub nodes_onto : List Text → List Text → List Text
unfolding append_new
nodes_onto nodes [] = nodes
nodes_onto nodes (line ∷ lines) =
    nodes_onto (if is_node (strip line) then append_new (strip line) nodes else nodes) lines

unfoldable pub parse_pytest_collected_nodes : Text → List Text
unfolding nodes_onto
parse_pytest_collected_nodes output = nodes_onto [] (splitlines output)

-- `returncode == n`
abbrev pub is_code : ℕ → ℤ → Bool
is_code n (pos m) = nat_eq m n
is_code n (negsuc m) = false

-- _should_retry_pytest_with_file_inputs
unfoldable pub should_retry_pytest_with_file_inputs : Bool → List Text → ℤ → Text → Bool
should_retry_pytest_with_file_inputs is_python test_inputs returncode stderr =
    let stderr_lower = lower stderr in
    is_python
    && not (is_empty test_inputs)
    && any (contains colons) test_inputs
    && is_code 4 returncode
    && (contains (codes "found no collectors for") stderr_lower
        || contains (codes "not found:") stderr_lower
        || contains (codes "no match in any of") stderr_lower)

-- An input that names a file.
abbrev IsFile : Text → Type 0
IsFile value = contains colons value ≡ false

append_new-IsFile :
    (value : Text) (values : List Text)
    → IsFile value
    → All IsFile values
    → All IsFile (append_new value values)
unfolding append_new
append_new-IsFile value values h hs = elim (Bool-cases (any (text_eq value) values)) [
  | inl known ↦ rw known hs
  | inr new ↦ rw new (All-append IsFile values (value ∷ []) hs (h, tt))
]

new_fallback-IsFile :
    (s : Text) (inputs : List Text)
    → All IsFile inputs
    → All IsFile (new_fallback (before colons s) inputs)
new_fallback-IsFile s inputs h = elim (Bool-cases (is_empty (before colons s))) [
  | inl none_left ↦ rw none_left h
  | inr some_left ↦
      rw some_left (append_new-IsFile (before colons s) inputs (contains-before _ _ s) h)
]

with_fallback-IsFile :
    (value : Text) (inputs : List Text)
    → All IsFile inputs
    → All IsFile (with_fallback value inputs)
with_fallback-IsFile value inputs h = elim (Bool-cases (is_empty (strip value))) [
  | inl blank ↦ rw blank h
  | inr full ↦ rw full (new_fallback-IsFile (strip value) inputs h)
]

fallback_onto-IsFile :
    (inputs values : List Text) → All IsFile inputs → All IsFile (fallback_onto inputs values)
unfolding fallback_onto
fallback_onto-IsFile inputs [] h = h
fallback_onto-IsFile inputs (value ∷ values) h =
    fallback_onto-IsFile (with_fallback value inputs) values (with_fallback-IsFile value inputs h)

any-IsFile : (values : List Text) → All IsFile values → any (contains colons) values ≡ false
any-IsFile [] h = refl
any-IsFile (value ∷ values) (h, hs) = rw (h, any-IsFile values hs) refl

-- Inputs that name files only are never run again.
pub fallback-final :
    (is_python : Bool) (inputs : List Text) (returncode : ℤ) (stderr : Text)
    → should_retry_pytest_with_file_inputs is_python
        (pytest_file_fallback_inputs inputs)
        returncode
        stderr
      ≡ false
unfolding should_retry_pytest_with_file_inputs pytest_file_fallback_inputs
fallback-final is_python inputs returncode stderr =
    rw (any-IsFile (fallback_onto [] inputs) (fallback_onto-IsFile [] inputs tt)) (ground arith)
