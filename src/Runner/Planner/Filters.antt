-- ===== src/Runner/Planner/Filters.antt =====
-- repogauge/runner/planner.py: which instances _apply_filters keeps.
use repogauge.Prelude.{
  String, ◌≡◌, refl, inl, inr, not, ◌&&◌, ◌||◌, List, [], ◌∷◌, arith, eq_iff, eq_refl,
  if◌then◌else◌, Bool-cases, keep, is_empty, member, member-keep, IsDistinct,
}
use repogauge.Runner.Planner.{first_seen, named_ids, apply_filters}

member-first_seen :
    (t : String) (seen xs : List String)
    → member t (first_seen seen xs) ≡ (member t xs && not (member t seen))
unfolding first_seen
member-first_seen t seen [] = refl
member-first_seen t seen (x ∷ xs) = elim (Bool-cases (member x seen)) [
  | inl known ↦ rw known (ground (arith, eq_iff x t, member-first_seen t seen xs, known))
  | inr new ↦ rw new (ground (arith, eq_iff x t, member-first_seen t (x ∷ seen) xs, new))
]

first_seen-IsDistinct : (seen xs : List String) → IsDistinct (first_seen seen xs)
unfolding first_seen
first_seen-IsDistinct seen [] = tt
first_seen-IsDistinct seen (x ∷ xs) = elim (Bool-cases (member x seen)) [
  | inl known ↦ rw known (first_seen-IsDistinct seen xs)
  | inr new ↦ rw new (
    (ground (arith, member-first_seen x (x ∷ seen) xs, eq_refl x)),
    first_seen-IsDistinct (x ∷ seen) xs,
  )
]

included :
    (t : String) (ids include : List String)
    → member t (
        if is_empty (named_ids include)
        then ids
        else keep (λ id. member id (named_ids include)) ids)
      ≡ (member t ids && (is_empty (named_ids include) || member t (named_ids include)))
included t ids include = elim (Bool-cases (is_empty (named_ids include))) [
  | inl all_of_them ↦ rw all_of_them (ground arith)
  | inr some_of_them ↦ rw some_of_them (member-keep t (λ id. member id (named_ids include)) ids)
]

-- _apply_filters keeps exactly the ids of the dataset that are in the include list, if that names any,
-- and that are not in the exclude list; and it keeps each of them once.
pub apply_filters-member :
    (ids include exclude : List String) (t : String)
    → (member t (apply_filters ids include exclude) ≡ (
        member t ids
        && (is_empty (named_ids include) || member t (named_ids include))
        && not (member t exclude)))
      × IsDistinct (apply_filters ids include exclude)
unfolding apply_filters
apply_filters-member ids include exclude t =
    let listed =
      if is_empty (named_ids include)
      then ids
      else keep (λ id. member id (named_ids include)) ids in
    let allowed = λ (id : String). not (member id exclude) in
    (
      ground (
        arith,
        member-first_seen t [] (keep allowed listed),
        member-keep t allowed listed,
        included t ids include,
      ),
      first_seen-IsDistinct [] _,
    )
