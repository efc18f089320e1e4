-- ===== src/Runner/Analysis/Resolution/Sets.antt =====
-- repogauge/runner/analyze.py: the sets of instances that a summary counts.
use repogauge.Prelude.{
  ◌≤◌, ◌<◌, String, ◌≡◌, refl, inl, inr, Bool, true, false, not, ◌||◌, List, [], ◌∷◌, arith, ◌==◌,
  eq_iff, eq_refl, Bool-cases, length, keep, All, member, branches_hold, taken_holds, member-keep,
  IsDistinct,
}
use repogauge.Runner.Analysis.Metrics.{add_to_set}

-- Every text of one list is in another.
abbrev pub Within : List String → List String → Type 0
Within xs ys = All (λ x. member x ys ≡ true) xs

member-add_to_set :
    (y x : String) (xs : List String) → member y (add_to_set x xs) ≡ (x == y || member y xs)
member-add_to_set y x xs = elim (Bool-cases (member x xs)) [
  | inl e ↦ rw e (ground (arith, eq_iff x y, e))
  | inr e ↦ rw e refl
]

pub add_to_set-IsDistinct :
    (x : String) (xs : List String) → IsDistinct xs → IsDistinct (add_to_set x xs)
add_to_set-IsDistinct x xs h =
    taken_holds IsDistinct (member x xs) xs (x ∷ xs) (λ e. h) (λ e. (e, h))

-- A larger set still holds what the smaller one did.
pub Within-add_to_set :
    (x : String) (xs ys : List String) → Within xs ys → Within xs (add_to_set x ys)
Within-add_to_set x [] ys h = tt
Within-add_to_set x (z ∷ xs) ys h =
    (rw (member-add_to_set z x ys, h.0) (ground arith), Within-add_to_set x xs ys h.1)

pub add_to_set-Within :
    (x : String) (xs ys : List String) → Within xs ys → Within (add_to_set x xs) (add_to_set x ys)
add_to_set-Within x xs ys h =
    let kept = Within-add_to_set x xs ys h in
    branches_hold (λ l. Within l (add_to_set x ys)) (member x xs) xs (x ∷ xs) kept
      (rw (member-add_to_set x x ys, eq_refl x) refl, kept)

length-keep-le : (p : String → Bool) (xs : List String) → length (keep p xs) ≤ length xs
length-keep-le p [] = omega arith
length-keep-le p (x ∷ xs) = ground (arith, length-keep-le p xs)

abbrev without : String → List String → List String
without x ys = keep (λ y. not (y == x)) ys

length-without :
    (x : String) (ys : List String) → member x ys ≡ true → length (without x ys) < length ys
length-without x [] h = absurd (cc h)
length-without x (y ∷ ys) h = elim (Bool-cases (y == x)) [
  | inl e ↦ rw e (omega (arith, length-keep-le (λ y. not (y == x)) ys))
  | inr e ↦
      rw e (let rest : member x ys ≡ true = ground arith in omega (arith, length-without x ys rest))
]

Within-without :
    (x : String) (xs ys : List String)
    → member x xs ≡ false
    → Within xs ys
    → Within xs (without x ys)
Within-without x [] ys e h = tt
Within-without x (z ∷ xs) ys e h =
    let other : (z == x) ≡ false = ground arith in
    (
      rw (member-keep z (λ y. not (y == x)) ys, h.0, other) refl,
      Within-without x xs ys (ground arith) h.1,
    )

-- Distinct texts of another list are no more than that list.
pub length-Within : (xs ys : List String) → IsDistinct xs → Within xs ys → length xs ≤ length ys
length-Within [] ys d h = omega arith
length-Within (x ∷ xs) ys d h = omega (
  arith,
  length-without x ys h.0,
  length-Within xs (without x ys) d.1 (Within-without x xs ys d.0 h.1),
)
