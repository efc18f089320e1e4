-- ===== src/Prelude/Keys.antt =====
-- Sets and dictionaries with string keys, as lists that Python's `in`, `get` and `d[k] = v` read
-- and write.
use Prim.Native.String.{String, compare}
use Prim.Native.Nat.{Ordering}
use mathlib.Core.Path.{◌≡◌, refl}
use mathlib.Core.Logic.{◌≢◌, inl, inr}
use mathlib.Core.Bool.{Bool, true, false, ◌||◌, ◌&&◌}
use mathlib.Core.Option.{Option, none, some}
use mathlib.Core.List.{List, [], ◌∷◌, map}
use native.Mathlib.Omega.{arith}
use text.Mathlib.Text.{◌==◌}
use text.Mathlib.TextEquality.{eq_iff}
use repogauge.Prelude.Tests.{if◌then◌else◌, Bool-cases}
use text.Mathlib.TextPositions.{eq_refl}
use repogauge.Prelude.Lists.{In, keep}

-- Texts that differ as they are written.
pub differ→≢ : (a b : String) → (a == b) ≡ false → a ≢ b
differ→≢ a b h e = ground (arith, eq_iff a b)

-- By code points, as Python compares texts.
abbrev pub str_lt : String → String → Bool
str_lt a b = elim (compare a b) [ Ordering.lt ↦ true | _ ↦ false ]

-- `k in ks`
abbrev pub member : String → List String → Bool
member k [] = false
member k (j ∷ ks) = j == k || member k ks

pub member→In : (k : String) (ks : List String) → member k ks ≡ true → In k ks
member→In k [] h = cc
member→In k (j ∷ ks) h = ground (arith, eq_iff j k, member→In k ks)

pub In→member : (k : String) (ks : List String) → In k ks → member k ks ≡ true
In→member k [] h = absurd h
In→member k (j ∷ ks) h = ground (arith, eq_iff j k, In→member k ks)

pub member-keep :
    (k : String) (p : String → Bool) (xs : List String)
    → member k (keep p xs) ≡ (member k xs && p k)
member-keep k p [] = refl
member-keep k p (x ∷ xs) = elim (Bool-cases (x == k)) [
  | inl same ↦ rw ((eq_iff x k).0 same, eq_refl) (ground (arith, member-keep k p xs, eq_refl k))
  | inr other ↦ ground (arith, member-keep k p xs, other)
]

-- No text stands twice.
abbrev pub IsDistinct : List String → Type 0
IsDistinct [] = Unit {0}
IsDistinct (k ∷ ks) = (member k ks ≡ false) × IsDistinct ks

abbrev pub Dict {ℓ} : Type ℓ → Type ℓ
Dict V = List (String × V)

module _ {ℓ} {V : Type ℓ} where
  -- `d.get(k)`
  abbrev pub get : Dict V → String → Option V
  get [] k = none
  get ((j, v) ∷ d) k = if j == k then some v else get d k

  -- `d[k] = v`
  abbrev pub put : Dict V → String → V → Dict V
  put [] k v = (k, v) ∷ []
  put ((j, w) ∷ d) k v = if j == k then (k, v) ∷ d else (j, w) ∷ put d k v

  pub get-put :
      (d : Dict V) (k j : String) (v : V) → get (put d k v) j ≡ (if k == j then some v else get d j)
  get-put [] k j v = refl
  get-put ((i, w) ∷ d) k j v = ground (arith, eq_iff k j, eq_iff i k, eq_iff i j, get-put d k j v)

  -- `list(d)`
  abbrev pub keys : Dict V → List String
  keys d = map (λ e. e.0) d
