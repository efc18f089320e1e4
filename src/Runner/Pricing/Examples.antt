-- ===== src/Runner/Pricing/Examples.antt =====
-- repogauge/runner/pricing.py at small usages.
use repogauge.Prelude.{◌+◌, ◌*◌, ◌≤◌, refl, [], ◌∷◌, arith}
use repogauge.Prelude.Int.{pos}
use repogauge.Runner.Pricing.{
  Usage, count, tokens, details, estimate_public_api_cost, input_tokens, output_tokens,
  cached_input_tokens, model_token_pricing, int_from_candidates, cached_cost, write_cost,
}
use repogauge.Runner.Pricing.Caching.{
  cache_reads, cache_writes, estimate_public_api_cost-cached, estimate_public_api_cost-writes,
}

abbrev cached_usage : Usage
cached_usage =
    ("input_tokens", count (tokens (pos 100)))
    ∷ ("output_tokens", count (tokens (pos 10)))
    ∷ ("cached_input_tokens", count (tokens (pos 40)))
    ∷ []

estimated : Unit {0}
unfolding estimate_public_api_cost model_token_pricing input_tokens output_tokens
    cached_input_tokens cached_cost write_cost int_from_candidates
estimated = tt

estimate_public_api_cost-cached_example :
    (input_tokens cached_usage * 125 + output_tokens cached_usage * 10000 ≤ 180000)
    × (180000 ≤ input_tokens cached_usage * 1250 + output_tokens cached_usage * 10000)
unfolding estimated
estimate_public_api_cost-cached_example =
    estimate_public_api_cost-cached "gpt-5" cached_usage 180000 1250 125 10000 refl (omega arith)
      refl

abbrev written_usage : Usage
written_usage =
    ("input_tokens", count (tokens (pos 100)))
    ∷ ("cache_creation_input_tokens", count (tokens (pos 50)))
    ∷ ("cache_creation", details (("ephemeral_1h_input_tokens", tokens (pos 20)) ∷ []))
    ∷ []

estimate_public_api_cost-writes_example :
    (input_tokens written_usage * 3000
        + cache_reads written_usage * 300
        + cache_writes written_usage * 3750
        + output_tokens written_usage * 15000
      ≤ 532500)
    × (532500
        ≤ input_tokens written_usage * 3000
          + cache_reads written_usage * 300
          + cache_writes written_usage * 6000
          + output_tokens written_usage * 15000)
unfolding estimated
estimate_public_api_cost-writes_example =
    estimate_public_api_cost-writes "claude-sonnet-4" written_usage 532500 3000 300 3750 6000 15000
      refl refl
