-- ===== src/Runner/Pricing/Caching.antt =====
-- repogauge/runner/pricing.py: the bounds of an estimate.
use repogauge.Prelude.{
  ℕ, ◌+◌, ◌-◌, ◌*◌, ◌≤◌, String, ◌≡◌, ap, subst, inl, inr, some, [], ◌∷◌, arith, ◌==◌, Bool-cases,
  All, Dict, get, some_of_else,
}
use native.Mathlib.Nat.{mul-le-mul_left}
use repogauge.Runner.Pricing.{
  Pricing, cached_pricing, write_pricing, model_token_pricing, Usage, input_tokens, output_tokens,
  cached_input_tokens, cached_cost, write_cost, short_writes, larger, estimate_public_api_cost,
  int_from_candidates, coerce_non_negative_int, mapping,
}

-- Cached input is not dearer than other input, nor a short cache write than a long one.
abbrev IsFair : Pricing → Type 0
IsFair (cached_pricing input cached output) = cached ≤ input
IsFair (write_pricing input read write_5m write_1h output) = write_5m ≤ write_1h

table-IsFair : All (λ e. IsFair e.1) model_token_pricing
unfolding model_token_pricing
table-IsFair = (
  omega arith,
  (
    omega arith,
    (
      omega arith,
      (
        omega arith,
        (
          omega arith,
          (
            omega arith,
            (
              omega arith,
              (
                omega arith,
                (
                  omega arith,
                  (
                    omega arith,
                    (omega arith, (omega arith, (omega arith, (omega arith, (omega arith, tt))))),
                  ),
                ),
              ),
            ),
          ),
        ),
      ),
    ),
  ),
)

some_injective : {V : Type 0} (w v : V) → some w ≡ some v → w ≡ v
some_injective w v e = cc e

get-All :
    {V : Type 0} (P : V → Type 0) (d : Dict V) (k : String) (v : V)
    → All (λ e. P e.1) d
    → get d k ≡ some v
    → P v
get-All P [] k v h e = cc e
get-All P ((j, w) ∷ d) k v (h, hs) e = elim (Bool-cases (j == k)) [
  | inl same ↦ subst P (some_injective w v (rw same at e)) h
  | inr other ↦ get-All P d k v hs (rw other at e)
]

part_mul : (a b i : ℕ) → b ≤ a → (a - b) * i + b * i ≡ a * i
part_mul a b i h = let whole : (a - b) + b ≡ a = omega arith in omega (arith, ap (λ t. t * i) whole)

cached_cost-bounds :
    (input cached output input_count cached_count output_count n : ℕ)
    → cached ≤ input
    → cached_count ≤ input_count
    → cached_cost input cached output input_count cached_count output_count ≡ some n
    → (input_count * cached + output_count * output ≤ n)
      × (n ≤ input_count * input + output_count * output)
unfolding cached_cost
cached_cost-bounds i c o ic cc oc n fair less e =
    let cost = some_of_else _ ((ic - cc) * i + cc * c + oc * o) n e in
    (
      omega (arith, cost, part_mul ic cc c less, mul-le-mul_left (ic - cc) fair),
      omega (arith, cost, part_mul ic cc i less, mul-le-mul_left cc fair),
    )

write_cost-bounds :
    (input read write_5m write_1h output : ℕ)
    → write_5m ≤ write_1h
    → (input_count read_count creation short long output_count n : ℕ)
    → write_cost input read write_5m write_1h output input_count read_count creation short long
        output_count
      ≡ some n
    → (input_count * input
          + read_count * read
          + larger creation (short + long) * write_5m
          + output_count * output
        ≤ n)
      × (n
          ≤ input_count * input
            + read_count * read
            + larger creation (short + long) * write_1h
            + output_count * output)
unfolding write_cost
write_cost-bounds i r w5 w1 o fair ic rc creation short long oc n e =
    let cost =
      some_of_else _ (ic * i + rc * r + short_writes creation short long * w5 + long * w1 + oc * o)
        n e in
    let all_writes : short_writes creation short long + long ≡ larger creation (short + long) =
      ground arith in
    (
      omega (arith, cost, ap (λ t. t * w5) all_writes, mul-le-mul_left long fair),
      omega (
        arith,
        cost,
        ap (λ t. t * w1) all_writes,
        mul-le-mul_left (short_writes creation short long) fair,
      ),
    )

abbrev pub cache_reads : Usage → ℕ
cache_reads usage = int_from_candidates usage ("cache_read_input_tokens" ∷ [])

-- The tokens written to the cache, by the larger of the two reports.
abbrev pub cache_writes : Usage → ℕ
cache_writes usage =
    let creation = mapping (get usage "cache_creation") in
    larger (int_from_candidates usage ("cache_creation_input_tokens" ∷ [])) (
      coerce_non_negative_int (get creation "ephemeral_5m_input_tokens")
      + coerce_non_negative_int (get creation "ephemeral_1h_input_tokens"))

module _ (model : String) (usage : Usage) (n : ℕ) where
  -- For every model of the table with a price for cached input, and a usage whose cached input is part
  -- of its input: an estimate lies between the cost with all input cached and the cost with none.
  pub estimate_public_api_cost-cached :
      (input cached output : ℕ)
      → get model_token_pricing model ≡ some (cached_pricing input cached output)
      → cached_input_tokens usage ≤ input_tokens usage
      → estimate_public_api_cost model usage ≡ some n
      → (input_tokens usage * cached + output_tokens usage * output ≤ n)
        × (n ≤ input_tokens usage * input + output_tokens usage * output)
  unfolding estimate_public_api_cost
  estimate_public_api_cost-cached input cached output known less e =
      cached_cost-bounds input cached output _ _ _ n
        (get-All IsFair model_token_pricing model _ table-IsFair known) less (rw known at e)

  -- For every model of the table with prices for cache writes: an estimate lies between the costs with
  -- all written tokens in the short tier and in the long tier. The written tokens are the aggregate or
  -- the sum of the two tiers, whichever is larger, so none is left out and none is counted twice.
  pub estimate_public_api_cost-writes :
      (input read write_5m write_1h output : ℕ)
      → get model_token_pricing model ≡ some (write_pricing input read write_5m write_1h output)
      → estimate_public_api_cost model usage ≡ some n
      → (input_tokens usage * input
            + cache_reads usage * read
            + cache_writes usage * write_5m
            + output_tokens usage * output
          ≤ n)
        × (n
            ≤ input_tokens usage * input
              + cache_reads usage * read
              + cache_writes usage * write_1h
              + output_tokens usage * output)
  unfolding estimate_public_api_cost
  estimate_public_api_cost-writes input read write_5m write_1h output known e =
      write_cost-bounds input read write_5m write_1h output
        (get-All IsFair model_token_pricing model _ table-IsFair known) _ _ _ _ _ _ n
        (rw known at e)
