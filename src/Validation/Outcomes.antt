-- ===== src/Validation/Outcomes.antt =====
-- repogauge/validation: test outcomes by test id, and the sets of ids that Python's set and sorted give.
use repogauge.Prelude.{
  String, ◌≡◌, refl, Bool, true, false, ◌||◌, Option, none, some, List, [], ◌∷◌, ◌++◌, arith, ◌==◌,
  eq_iff, if◌then◌else◌, is_some, all, member, Dict, get, keys, str_lt,
}

-- junit_parser.py: OUTCOME_PASS and the others
pub data TestOutcome : Type 0 where
  pass fail error skip : TestOutcome

abbrev pub outcome_eq : TestOutcome → TestOutcome → Bool
outcome_eq pass pass = true
outcome_eq fail fail = true
outcome_eq error error = true
outcome_eq skip skip = true
outcome_eq _ _ = false

abbrev pub Outcomes : Type 0
Outcomes = Dict TestOutcome

-- `run.get(tid) == OUTCOME_PASS`
abbrev pub is_pass : Option TestOutcome → Bool
is_pass (some pass) = true
is_pass _ = false

pub is_pass→eq : (o : Option TestOutcome) → is_pass o ≡ true → o ≡ some pass
is_pass→eq o h = ground arith

-- `run.get(tid) in {"fail", "error", None}`
abbrev pub is_failing : Option TestOutcome → Bool
is_failing none = true
is_failing (some fail) = true
is_failing (some error) = true
is_failing _ = false

abbrev pub same_outcome : Option TestOutcome → Option TestOutcome → Bool
same_outcome none none = true
same_outcome (some a) (some b) = outcome_eq a b
same_outcome _ _ = false

pub same_outcome→eq : (a b : Option TestOutcome) → same_outcome a b ≡ true → a ≡ b
same_outcome→eq a b h = ground arith

pub same_outcome_refl : (a : Option TestOutcome) → same_outcome a a ≡ true
same_outcome_refl a = ground arith

-- `run_b == run_b_rerun`, on dictionaries: the order of the entries does not matter.
unfoldable pub same_outcomes : Outcomes → Outcomes → Bool
same_outcomes r s = all (λ k. same_outcome (get r k) (get s k)) (keys r ++ keys s)

-- `sorted(set(ids))`
unfoldable pub insert_sorted : String → List String → List String
insert_sorted x [] = x ∷ []
insert_sorted x (y ∷ ys) =
    if x == y then y ∷ ys else if str_lt x y then x ∷ y ∷ ys else y ∷ insert_sorted x ys

unfoldable pub sorted_set : List String → List String
unfolding insert_sorted
sorted_set [] = []
sorted_set (x ∷ xs) = insert_sorted x (sorted_set xs)

member-insert_sorted :
    (k x : String) (ys : List String) → member k (insert_sorted x ys) ≡ (x == k || member k ys)
unfolding insert_sorted
member-insert_sorted k x [] = refl
member-insert_sorted k x (y ∷ ys) =
    ground (arith, member-insert_sorted k x ys, eq_iff x y, eq_iff x k, eq_iff y k)

pub member-sorted_set : (k : String) (xs : List String) → member k (sorted_set xs) ≡ member k xs
unfolding sorted_set
member-sorted_set k [] = refl
member-sorted_set k (x ∷ xs) =
    ground (arith, member-insert_sorted k x (sorted_set xs), member-sorted_set k xs)

pub member-append :
    (k : String) (xs ys : List String) → member k (xs ++ ys) ≡ (member k xs || member k ys)
member-append k [] ys = refl
member-append k (x ∷ xs) ys = ground (arith, member-append k xs ys)

-- A key that a dictionary has an entry for is one of its keys.
pub member-keys :
    {V : Type 0} (d : Dict V) (k : String) → is_some (get d k) ≡ true → member k (keys d) ≡ true
member-keys [] k h = cc
member-keys ((j, v) ∷ d) k h = ground (arith, member-keys d k)

pub get-not-member :
    {V : Type 0} (d : Dict V) (k : String) → member k (keys d) ≡ false → get d k ≡ none
get-not-member [] k h = refl
get-not-member ((j, v) ∷ d) k h = ground (arith, get-not-member d k)
