-- ===== src/Runner/Analysis/Pareto.antt =====
-- repogauge/runner/analyze.py: _build_pareto_frontier, the solvers that no other solver dominates.
pub mod Covered
use repogauge.Prelude.Text.{
  text_lt_irrefl, text_lt, text_lt_trans, Text, codes, text_eq, text_eq_sound, text_eq_refl,
  strip_prefix, strip_prefix-append, starts_with, contains,
}
use repogauge.Prelude.{
  ℕ, zero, suc, ◌+◌, ◌-◌, ◌*◌, ◌/◌, ◌%◌, ◌≤◌, ◌<◌, String, ◌≡◌, refl, sym, ap, ◌∙◌, subst, ◌≢◌, ◌↔◌,
  ◌⊎◌, inl, inr, Bool, true, false, not, ◌&&◌, ◌||◌, Option, none, some, List, [], ◌∷◌, ◌++◌, map,
  arith, ◌==◌, eq_iff, eq_refl, ltb, leb, nat_eq, if◌then◌else◌, ltb→lt, lt→ltb, ltb→le, leb→le,
  le→leb, nat_eq→eq, nat_eq_refl, tests, Bool-cases, Option-cases, is_some, length, any, all, keep,
  is_empty, All, length-append, All-append, In, member, member→In, In→member, Dict, get, put,
  get-put, keys, branches_hold, taken_holds, some_of_else, member-keep, differ→≢, str_lt, count,
  take, drop, then_lt, then_lt_trans,
}
use repogauge.Prelude.Sort.{sort_by}
use repogauge.Runner.Analysis.Summary.{SummaryRow, metric_lt, metric_le, costs_before}

-- _dominates
unfoldable pub dominates : SummaryRow → SummaryRow → Bool
dominates candidate other =
    leb other.raw_resolution_rate candidate.raw_resolution_rate
    && metric_le candidate.cost_per_resolved_issue other.cost_per_resolved_issue
    && metric_le candidate.latency_ms_per_resolved_issue other.latency_ms_per_resolved_issue
    && (ltb other.raw_resolution_rate candidate.raw_resolution_rate
        || metric_lt candidate.cost_per_resolved_issue other.cost_per_resolved_issue
        || metric_lt candidate.latency_ms_per_resolved_issue other.latency_ms_per_resolved_issue)

-- the outer loop: the others of a row are the rows before it and the rows after it
unfoldable pub pareto_loop : List SummaryRow → List SummaryRow → List SummaryRow
unfolding dominates
pareto_loop before [] = []
pareto_loop before (row ∷ after) =
    let rest = pareto_loop (before ++ row ∷ []) after in
    if any (λ other. dominates other row) (before ++ after) then rest else row ∷ rest

-- _build_pareto_frontier
unfoldable pub build_pareto_frontier : List SummaryRow → List SummaryRow
unfolding pareto_loop costs_before sort_by
build_pareto_frontier rows = sort_by costs_before (pareto_loop [] rows)
