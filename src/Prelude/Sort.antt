-- ===== src/Prelude/Sort.antt =====
-- The stable sort of a list by a Boolean order, and what cutting and sorting keep.
use Prim.Native.Nat.{ℕ, zero, suc, ◌+◌, ◌-◌, ◌≤◌}
use mathlib.Core.Path.{◌≡◌, refl, subst}
use mathlib.Core.Logic.{inl, inr}
use mathlib.Core.Bool.{Bool, true, false}
use mathlib.Core.List.{List, [], ◌∷◌, ◌++◌}
use native.Mathlib.Omega.{arith}
use repogauge.Prelude.Tests.{if◌then◌else◌, branches_hold, taken_holds}
use repogauge.Prelude.Lists.{total, In, length, count, take, drop, All, keep}

module _ {ℓ} {A : Type ℓ} where
  -- Python's `sorted` with a key: equal elements stay in their order.
  unfoldable pub insert_by : (A → A → Bool) → A → List A → List A
  insert_by lt x [] = x ∷ []
  insert_by lt x (y ∷ ys) = if lt y x then y ∷ insert_by lt x ys else x ∷ y ∷ ys

  unfoldable pub sort_by : (A → A → Bool) → List A → List A
  unfolding insert_by
  sort_by lt [] = []
  sort_by lt (x ∷ xs) = insert_by lt x (sort_by lt xs)

  pub count-insert_by :
      (p : A → Bool) (lt : A → A → Bool) (x : A) (xs : List A)
      → count p (insert_by lt x xs) ≡ (if p x then 1 else 0) + count p xs
  unfolding insert_by
  count-insert_by p lt x [] = refl
  count-insert_by p lt x (y ∷ ys) = ground (arith, count-insert_by p lt x ys)

  pub count-sort_by :
      (p : A → Bool) (lt : A → A → Bool) (xs : List A) → count p (sort_by lt xs) ≡ count p xs
  unfolding sort_by
  count-sort_by p lt [] = refl
  count-sort_by p lt (x ∷ xs) =
      omega (arith, count-insert_by p lt x (sort_by lt xs), count-sort_by p lt xs)

  pub count-true : (xs : List A) → count (λ _. true) xs ≡ length xs
  count-true [] = refl
  count-true (x ∷ xs) = omega (arith, count-true xs)

  total-insert_by :
      (f : A → ℕ) (lt : A → A → Bool) (x : A) (xs : List A)
      → total f (insert_by lt x xs) ≡ f x + total f xs
  unfolding insert_by
  total-insert_by f lt x [] = refl
  total-insert_by f lt x (y ∷ ys) = ground (arith, total-insert_by f lt x ys)

  pub total-sort_by :
      (f : A → ℕ) (lt : A → A → Bool) (xs : List A) → total f (sort_by lt xs) ≡ total f xs
  unfolding sort_by
  total-sort_by f lt [] = refl
  total-sort_by f lt (x ∷ xs) =
      omega (arith, total-insert_by f lt x (sort_by lt xs), total-sort_by f lt xs)

  pub length-sort_by : (lt : A → A → Bool) (xs : List A) → length (sort_by lt xs) ≡ length xs
  length-sort_by lt xs =
      omega (arith, count-true (sort_by lt xs), count-true xs, count-sort_by (λ _. true) lt xs)

  pub count-append : (p : A → Bool) (xs ys : List A) → count p (xs ++ ys) ≡ count p xs + count p ys
  count-append p [] ys = omega arith
  count-append p (x ∷ xs) ys = omega (arith, count-append p xs ys)

  pub count-take-drop :
      (p : A → Bool) (n : ℕ) (xs : List A) → count p (take n xs) + count p (drop n xs) ≡ count p xs
  count-take-drop p zero xs = omega arith
  count-take-drop p (suc n) [] = refl
  count-take-drop p (suc n) (x ∷ xs) = omega (arith, count-take-drop p n xs)

  pub length-take : (n : ℕ) (xs : List A) → n ≤ length xs → length (take n xs) ≡ n
  length-take zero xs h = refl
  length-take (suc n) [] h = omega arith
  length-take (suc n) (x ∷ xs) h = omega (arith, length-take n xs)

  pub length-drop : (n : ℕ) (xs : List A) → length (drop n xs) ≡ length xs - n
  length-drop zero xs = omega arith
  length-drop (suc n) [] = omega arith
  length-drop (suc n) (x ∷ xs) = omega (arith, length-drop n xs)

  pub All-insert_by {κ} :
      (P : A → Type κ) (lt : A → A → Bool) (x : A) (xs : List A)
      → P x
      → All P xs
      → All P (insert_by lt x xs)
  unfolding insert_by
  All-insert_by P lt x [] h hs = (h, tt)
  All-insert_by P lt x (y ∷ ys) h hs =
      branches_hold (All P) (lt y x) (y ∷ insert_by lt x ys) (x ∷ y ∷ ys)
        (hs.0, All-insert_by P lt x ys h hs.1) (h, hs)

  pub All-sort_by {κ} :
      (P : A → Type κ) (lt : A → A → Bool) (xs : List A) → All P xs → All P (sort_by lt xs)
  unfolding sort_by
  All-sort_by P lt [] hs = tt
  All-sort_by P lt (x ∷ xs) hs =
      All-insert_by P lt x (sort_by lt xs) hs.0 (All-sort_by P lt xs hs.1)

  pub All-take {κ} : (P : A → Type κ) (n : ℕ) (xs : List A) → All P xs → All P (take n xs)
  All-take P zero xs hs = tt
  All-take P (suc n) [] hs = tt
  All-take P (suc n) (x ∷ xs) hs = (hs.0, All-take P n xs hs.1)

  pub All-drop {κ} : (P : A → Type κ) (n : ℕ) (xs : List A) → All P xs → All P (drop n xs)
  All-drop P zero xs hs = hs
  All-drop P (suc n) [] hs = tt
  All-drop P (suc n) (x ∷ xs) hs = All-drop P n xs hs.1

  -- What is kept passes the test.
  pub All-keep : (p : A → Bool) (xs : List A) → All (λ x. p x ≡ true) (keep p xs)
  All-keep p [] = tt
  All-keep p (x ∷ xs) =
      taken_holds (All (λ x. p x ≡ true)) (p x) (x ∷ keep p xs) (keep p xs)
        (λ h. (h, All-keep p xs)) (λ _. All-keep p xs)

  pub count-All : (p : A → Bool) (xs : List A) → All (λ x. p x ≡ true) xs → count p xs ≡ length xs
  count-All p [] hs = refl
  count-All p (x ∷ xs) hs = rw hs.0 (omega (arith, count-All p xs hs.1))

  uninsert_cases {κ} :
      (P : A → Type κ) (x y : A) (ys more : List A) (b : Bool)
      → (All P more → P x × All P ys)
      → All P (if b then y ∷ more else x ∷ y ∷ ys)
      → P x × (P y × All P ys)
  uninsert_cases P x y ys more true h hs = ((h hs.1).0, (hs.0, (h hs.1).1))
  uninsert_cases P x y ys more false h hs = hs

  -- What holds of the elements of a sorted list held before.
  uninsert_by {κ} :
      (P : A → Type κ) (lt : A → A → Bool) (x : A) (xs : List A)
      → All P (insert_by lt x xs)
      → P x × All P xs
  unfolding insert_by
  uninsert_by P lt x [] hs = hs
  uninsert_by P lt x (y ∷ ys) hs =
      uninsert_cases P x y ys (insert_by lt x ys) (lt y x) (uninsert_by P lt x ys) hs

  pub unsort_by {κ} :
      (P : A → Type κ) (lt : A → A → Bool) (xs : List A) → All P (sort_by lt xs) → All P xs
  unfolding sort_by
  unsort_by P lt [] hs = tt
  unsort_by P lt (x ∷ xs) hs =
      let both = uninsert_by P lt x (sort_by lt xs) hs in (both.0, unsort_by P lt xs both.1)

  -- Each element is related to all later ones.
  abbrev pub Ascending : (A → A → Type 0) → List A → Type 0
  Ascending R [] = Unit
  Ascending R (x ∷ xs) = All (R x) xs × Ascending R xs

  pub All-weaken {κ μ} :
      {P : A → Type κ} {Q : A → Type μ} (f : (x : A) → P x → Q x) (xs : List A)
      → All P xs
      → All Q xs
  All-weaken f [] hs = tt
  All-weaken f (x ∷ xs) hs = (f x hs.0, All-weaken f xs hs.1)

  -- A sort by an order that a transitive relation follows.
  module _ (R : A → A → Type 0) (lt : A → A → Bool) (trans : (x y z : A) → R x y → R y z → R x z)
      (less : (x y : A) → lt x y ≡ true → R x y) (more : (x y : A) → lt x y ≡ false → R y x) where
    insert_by-Ascending : (x : A) (xs : List A) → Ascending R xs → Ascending R (insert_by lt x xs)
    unfolding insert_by
    insert_by-Ascending x [] hs = (tt, tt)
    insert_by-Ascending x (y ∷ ys) hs =
        taken_holds (Ascending R) (lt y x) (y ∷ insert_by lt x ys) (x ∷ y ∷ ys)
          (λ e. (All-insert_by (R y) lt x ys (less y x e) hs.0, insert_by-Ascending x ys hs.1))
          (λ e. ((more y x e, All-weaken (λ z h. trans x y z (more y x e) h) ys hs.0), hs))

    pub sort_by-Ascending : (xs : List A) → Ascending R (sort_by lt xs)
    unfolding sort_by
    sort_by-Ascending [] = tt
    sort_by-Ascending (x ∷ xs) = insert_by-Ascending x (sort_by lt xs) (sort_by-Ascending xs)

module _ {A : Type 0} where
  pub In-All {κ} : (P : A → Type κ) (x : A) (xs : List A) → In x xs → All P xs → P x
  In-All P x [] h hs = absurd h
  In-All P x (y ∷ xs) (inl e) hs = subst P e hs.0
  In-All P x (y ∷ xs) (inr h) hs = In-All P x xs h hs.1

  pub All-In : (xs : List A) → All (λ x. In x xs) xs
  All-In [] = tt
  All-In (x ∷ xs) = (inl refl, All-weaken (λ y h. inr h) xs (All-In xs))

  -- A sorted list has the elements that it had.
  pub In-unsort_by : (lt : A → A → Bool) (x : A) (xs : List A) → In x (sort_by lt xs) → In x xs
  In-unsort_by lt x xs h =
      In-All (λ y. In y xs) x (sort_by lt xs) h (All-sort_by (λ y. In y xs) lt xs (All-In xs))

  pub In-sort_by : (lt : A → A → Bool) (x : A) (xs : List A) → In x xs → In x (sort_by lt xs)
  In-sort_by lt x xs h =
      In-All (λ y. In y (sort_by lt xs)) x xs h
        (unsort_by (λ y. In y (sort_by lt xs)) lt xs (All-In (sort_by lt xs)))
