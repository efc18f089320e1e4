-- ===== src/Runner/Pricing.antt =====
-- repogauge/runner/pricing.py: estimate_public_api_cost_usd. Prices are whole numbers of nanodollars
-- for one token, which the table's prices in dollars for a million tokens all are; costs are
-- nanodollars, where the source has floats.
pub mod Caching
mod Examples
use repogauge.Prelude.Text.{
  Text, codes, text_eq, text_eq_sound, text_eq_refl, strip_prefix, strip_prefix-append, starts_with,
  contains,
}
use repogauge.Prelude.{
  ℕ, zero, suc, ◌+◌, ◌-◌, ◌*◌, ◌/◌, ◌%◌, ◌≤◌, ◌<◌, String, ◌≡◌, refl, sym, ap, ◌∙◌, subst, ◌≢◌, ◌↔◌,
  ◌⊎◌, inl, inr, Bool, true, false, not, ◌&&◌, ◌||◌, Option, none, some, List, [], ◌∷◌, ◌++◌, map,
  arith, ◌==◌, eq_iff, eq_refl, ltb, leb, nat_eq, if◌then◌else◌, ltb→lt, lt→ltb, ltb→le, leb→le,
  le→leb, nat_eq→eq, nat_eq_refl, tests, Bool-cases, Option-cases, is_some, length, any, all, keep,
  is_empty, All, length-append, All-append, In, member, member→In, In→member, Dict, get, put,
  get-put, keys, branches_hold, taken_holds, member-keep, differ→≢,
}
use repogauge.Prelude.Int.{ℤ, pos, negsuc, pos_part}

-- The two forms of a row of MODEL_TOKEN_PRICING_USD_PER_MILLION.
pub data Pricing : Type 0 where
  cached_pricing : ℕ → ℕ → ℕ → Pricing
  write_pricing : ℕ → ℕ → ℕ → ℕ → ℕ → Pricing

abbrev opus : Pricing
opus = write_pricing 5000 500 6250 10000 25000

abbrev sonnet : Pricing
sonnet = write_pricing 3000 300 3750 6000 15000

-- MODEL_TOKEN_PRICING_USD_PER_MILLION
unfoldable pub model_token_pricing : Dict Pricing
model_token_pricing =
    ("gpt-5.4", cached_pricing 2500 250 15000)
    ∷ ("gpt-5.4-mini", cached_pricing 750 75 4500)
    ∷ ("gpt-5.4-nano", cached_pricing 200 20 1250)
    ∷ ("gpt-5", cached_pricing 1250 125 10000)
    ∷ ("gpt-5-mini", cached_pricing 250 25 2000)
    ∷ ("gpt-5-nano", cached_pricing 50 5 400)
    ∷ ("claude-opus-4.7", opus)
    ∷ ("claude-opus-4.6", opus)
    ∷ ("claude-opus-4.5", opus)
    ∷ ("claude-sonnet-4.6", sonnet)
    ∷ ("claude-sonnet-4.5", sonnet)
    ∷ ("claude-sonnet-4", sonnet)
    ∷ ("claude-haiku-4.5", write_pricing 1000 100 1250 2000 5000)
    ∷ ("kimi-k2p5", cached_pricing 600 100 3000)
    ∷ ("kimi-k2p5-turbo", cached_pricing 990 160 4940)
    ∷ []

-- The values of a usage payload: what `int` reads, what it does not read, and mappings of such.
pub data Count : Type 0 where
  tokens : ℤ → Count
  unread : Count

pub data UsageValue : Type 0 where
  count : Count → UsageValue
  details : Dict Count → UsageValue

abbrev pub Usage : Type 0
Usage = Dict UsageValue

-- _coerce_non_negative_int
abbrev pub coerce_non_negative_int : Option Count → ℕ
coerce_non_negative_int (some (tokens n)) = pos_part n
coerce_non_negative_int _ = 0

abbrev count_of : Option UsageValue → Option Count
count_of (some (count c)) = some c
count_of _ = none

-- _int_from_candidates
unfoldable pub int_from_candidates : Usage → List String → ℕ
int_from_candidates usage [] = 0
int_from_candidates usage (key ∷ keys) =
    let later = int_from_candidates usage keys in
    if is_some (get usage key) then coerce_non_negative_int (count_of (get usage key)) else later

-- _mapping
abbrev pub mapping : Option UsageValue → Dict Count
mapping (some (details d)) = d
mapping _ = []

abbrev is_truthy : Option UsageValue → Bool
is_truthy none = false
is_truthy (some (count (tokens (pos n)))) = ltb 0 n
is_truthy (some (count (tokens (negsuc n)))) = true
is_truthy (some (count unread)) = true
is_truthy (some (details d)) = not (is_empty d)

unfoldable pub input_tokens : Usage → ℕ
unfolding int_from_candidates
input_tokens usage =
    int_from_candidates usage
      ("input_tokens" ∷ "prompt_tokens" ∷ "input_token_count" ∷ "prompt_token_count" ∷ [])

unfoldable pub output_tokens : Usage → ℕ
unfolding int_from_candidates
output_tokens usage =
    int_from_candidates usage
      ("output_tokens" ∷ "completion_tokens" ∷ "output_token_count" ∷ "completion_token_count" ∷ [])

-- `max(a, b)`
abbrev pub larger : ℕ → ℕ → ℕ
larger a b = if ltb a b then b else a

unfoldable pub cached_input_tokens : Usage → ℕ
unfolding int_from_candidates
cached_input_tokens usage =
    let first = get usage "input_tokens_details" in
    let chosen = if is_truthy first then first else get usage "prompt_tokens_details" in
    larger
      (int_from_candidates usage
        ("cached_input_tokens" ∷ "input_cached_tokens" ∷ "cached_prompt_tokens" ∷ []))
      (coerce_non_negative_int (get (mapping chosen) "cached_tokens"))

-- The branch of the models with one price for cached input.
unfoldable pub cached_cost : ℕ → ℕ → ℕ → ℕ → ℕ → ℕ → Option ℕ
cached_cost input cached output input_count cached_count output_count =
    if leb input_count 0 && leb output_count 0
    then none
    else some ((input_count - cached_count) * input + cached_count * cached + output_count * output)

-- The tokens of the two tiers of cache writes: what the aggregate has beyond them counts as the first.
abbrev pub short_writes : ℕ → ℕ → ℕ → ℕ
short_writes creation short long = short + (creation - (short + long))

unfoldable pub write_cost : ℕ → ℕ → ℕ → ℕ → ℕ → ℕ → ℕ → ℕ → ℕ → ℕ → ℕ → Option ℕ
write_cost input read write_5m write_1h output input_count read_count creation short long
      output_count =
    if leb input_count 0 && leb output_count 0 && leb read_count 0 && leb creation 0
    then none
    else some (
        input_count * input
        + read_count * read
        + short_writes creation short long * write_5m
        + long * write_1h
        + output_count * output)

abbrev pub priced : Usage → Pricing → Option ℕ
priced usage (cached_pricing input cached output) =
    cached_cost input cached output (input_tokens usage) (cached_input_tokens usage)
      (output_tokens usage)
priced usage (write_pricing input read write_5m write_1h output) =
    let creation = mapping (get usage "cache_creation") in
    write_cost input read write_5m write_1h output (input_tokens usage)
      (int_from_candidates usage ("cache_read_input_tokens" ∷ []))
      (int_from_candidates usage ("cache_creation_input_tokens" ∷ []))
      (coerce_non_negative_int (get creation "ephemeral_5m_input_tokens"))
      (coerce_non_negative_int (get creation "ephemeral_1h_input_tokens")) (output_tokens usage)

abbrev pub priced_by : Usage → Option Pricing → Option ℕ
priced_by usage none = none
priced_by usage (some p) = priced usage p

-- estimate_public_api_cost_usd, for a model name that normalize_model_name has normalized
unfoldable pub estimate_public_api_cost : String → Usage → Option ℕ
estimate_public_api_cost normalized_model usage =
    priced_by usage (get model_token_pricing normalized_model)
