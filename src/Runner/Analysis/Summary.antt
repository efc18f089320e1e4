-- ===== src/Runner/Analysis/Summary.antt =====
-- repogauge/runner/analyze.py: a summary row of a solver, and the orders of the report. A float that is
-- only compared is counted in units of which every float is a multiple, so it is a natural number.
use repogauge.Prelude.Text.{text_lt_irrefl, text_lt, text_lt_trans, Text}
use repogauge.Prelude.{
  ℕ, ◌≡◌, refl, ◌∙◌, Bool, true, false, not, Option, none, some, arith, ltb, leb, if◌then◌else◌,
  is_empty, then_lt, then_lt_trans,
}

-- The payload of a summary, as far as the frontiers read it. `group_solver_id` is the solver of
-- `group_values`, and is empty where there is none; the rate is at least 0; a missing cost or latency is
-- none.
pub record SummaryRow : Type 0 where
  pub group_solver_id : Text
  pub solver_id : Text
  pub raw_resolution_rate : ℕ
  pub resolved_instance_count : ℕ
  pub cost_per_resolved_issue : Option ℕ
  pub latency_ms_per_resolved_issue : Option ℕ
  pub total_cost_usd : ℕ
  pub total_duration_ms : ℕ

-- _solver_id_from_row
unfoldable pub solver_id_from_row : SummaryRow → Text
solver_id_from_row row = if is_empty row.group_solver_id then row.solver_id else row.group_solver_id

-- `<` and `<=` of _metric_value_or_inf: none is infinite
abbrev pub metric_lt : Option ℕ → Option ℕ → Bool
metric_lt none b = false
metric_lt (some m) none = true
metric_lt (some m) (some n) = ltb m n

abbrev pub metric_le : Option ℕ → Option ℕ → Bool
metric_le a none = true
metric_le none (some n) = false
metric_le (some m) (some n) = leb m n

-- _solver_ranking_key, compared
unfoldable pub ranks_before : SummaryRow → SummaryRow → Bool
unfolding solver_id_from_row
ranks_before a b =
    then_lt (ltb b.raw_resolution_rate a.raw_resolution_rate)
      (ltb a.raw_resolution_rate b.raw_resolution_rate)
      (then_lt (ltb b.resolved_instance_count a.resolved_instance_count)
        (ltb a.resolved_instance_count b.resolved_instance_count)
        (then_lt (metric_lt a.cost_per_resolved_issue b.cost_per_resolved_issue)
          (metric_lt b.cost_per_resolved_issue a.cost_per_resolved_issue)
          (then_lt (metric_lt a.latency_ms_per_resolved_issue b.latency_ms_per_resolved_issue)
            (metric_lt b.latency_ms_per_resolved_issue a.latency_ms_per_resolved_issue)
            (then_lt (ltb a.total_cost_usd b.total_cost_usd) (ltb b.total_cost_usd a.total_cost_usd)
              (text_lt (solver_id_from_row a) (solver_id_from_row b))))))

-- _solver_cost_key, compared
unfoldable pub costs_before : SummaryRow → SummaryRow → Bool
unfolding solver_id_from_row
costs_before a b =
    then_lt (metric_lt a.cost_per_resolved_issue b.cost_per_resolved_issue)
      (metric_lt b.cost_per_resolved_issue a.cost_per_resolved_issue)
      (then_lt (ltb b.raw_resolution_rate a.raw_resolution_rate)
        (ltb a.raw_resolution_rate b.raw_resolution_rate)
        (then_lt (metric_lt a.latency_ms_per_resolved_issue b.latency_ms_per_resolved_issue)
          (metric_lt b.latency_ms_per_resolved_issue a.latency_ms_per_resolved_issue)
          (text_lt (solver_id_from_row a) (solver_id_from_row b))))

pub metric_lt_trans :
    (a b c : Option ℕ) → metric_lt a b ≡ true → metric_lt b c ≡ true → metric_lt a c ≡ true
metric_lt_trans none b c h k = h
metric_lt_trans (some m) none c h k = absurd (cc k)
metric_lt_trans (some m) (some n) none h k = refl
metric_lt_trans (some m) (some n) (some o) h k = ground arith

pub metric_le_trans :
    (a b c : Option ℕ) → metric_le a b ≡ true → metric_le b c ≡ true → metric_le a c ≡ true
metric_le_trans a b none h k = refl
metric_le_trans a none (some o) h k = absurd (cc k)
metric_le_trans none (some n) (some o) h k = h
metric_le_trans (some m) (some n) (some o) h k = ground arith

pub metric_le-not_lt : (a b : Option ℕ) → metric_lt a b ≡ not (metric_le b a)
metric_le-not_lt none b = ground arith
metric_le-not_lt (some m) none = refl
metric_le-not_lt (some m) (some n) = ground arith

pub metric_then_trans :
    (x y z : Option ℕ) (r s t : Bool)
    → (r ≡ true → s ≡ true → t ≡ true)
    → then_lt (metric_lt x y) (metric_lt y x) r ≡ true
    → then_lt (metric_lt y z) (metric_lt z y) s ≡ true
    → then_lt (metric_lt x z) (metric_lt z x) t ≡ true
metric_then_trans none none none r s t h p q = ground arith
metric_then_trans none none (some o) r s t h p q = ground arith
metric_then_trans none (some n) z r s t h p q = absurd (cc p)
metric_then_trans (some m) none none r s t h p q = refl
metric_then_trans (some m) none (some o) r s t h p q = absurd (cc q)
metric_then_trans (some m) (some n) none r s t h p q = refl
metric_then_trans (some m) (some n) (some o) r s t h p q = then_lt_trans m n o r s t h p q

-- A key that is negated sorts downwards.
down_trans :
    (x y z : ℕ) (r s t : Bool)
    → (r ≡ true → s ≡ true → t ≡ true)
    → then_lt (ltb y x) (ltb x y) r ≡ true
    → then_lt (ltb z y) (ltb y z) s ≡ true
    → then_lt (ltb z x) (ltb x z) t ≡ true
down_trans x y z r s t h p q = ground arith

pub ranks_before_trans :
    (a b c : SummaryRow)
    → ranks_before a b ≡ true
    → ranks_before b c ≡ true
    → ranks_before a c ≡ true
unfolding ranks_before
ranks_before_trans a b c =
    down_trans a.raw_resolution_rate b.raw_resolution_rate c.raw_resolution_rate _ _ _ (
      down_trans a.resolved_instance_count b.resolved_instance_count c.resolved_instance_count _ _ _
        (metric_then_trans a.cost_per_resolved_issue b.cost_per_resolved_issue
          c.cost_per_resolved_issue _ _ _
          (metric_then_trans a.latency_ms_per_resolved_issue b.latency_ms_per_resolved_issue
            c.latency_ms_per_resolved_issue _ _ _
            (then_lt_trans a.total_cost_usd b.total_cost_usd c.total_cost_usd _ _ _ (
              text_lt_trans (solver_id_from_row a) (solver_id_from_row b)
                (solver_id_from_row c))))))

then_self : (n : ℕ) (r : Bool) → then_lt (ltb n n) (ltb n n) r ≡ r
then_self n r = ground arith

metric_self : (m : Option ℕ) (r : Bool) → then_lt (metric_lt m m) (metric_lt m m) r ≡ r
metric_self none r = refl
metric_self (some n) r = then_self n r

-- No row ranks before itself.
pub ranks_before_irrefl : (a : SummaryRow) → ranks_before a a ≡ false
unfolding ranks_before
ranks_before_irrefl a =
    then_self a.raw_resolution_rate _
    ∙ then_self a.resolved_instance_count _
    ∙ metric_self a.cost_per_resolved_issue _
    ∙ metric_self a.latency_ms_per_resolved_issue _
    ∙ then_self a.total_cost_usd _
    ∙ text_lt_irrefl (solver_id_from_row a)
