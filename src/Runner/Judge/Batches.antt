-- ===== src/Runner/Judge/Batches.antt =====
-- repogauge/runner/judge.py: _prepare_batches, which pairs the predictions with their dataset rows and
-- cuts the pairs of each solver, repository and version into batches.
pub mod Lossless
use repogauge.Prelude.{
  ℕ, zero, suc, ◌+◌, ◌-◌, ◌*◌, ◌/◌, ◌%◌, ◌≤◌, ◌<◌, String, ◌≡◌, refl, sym, ap, ◌∙◌, subst, ◌≢◌, ◌↔◌,
  ◌⊎◌, inl, inr, Bool, true, false, not, ◌&&◌, ◌||◌, Option, none, some, List, [], ◌∷◌, ◌++◌, map,
  arith, ◌==◌, eq_iff, eq_refl, ltb, leb, nat_eq, if◌then◌else◌, ltb→lt, lt→ltb, ltb→le, leb→le,
  le→leb, nat_eq→eq, nat_eq_refl, tests, Bool-cases, Option-cases, is_some, length, any, all, keep,
  is_empty, All, length-append, All-append, In, member, member→In, In→member, Dict, get, put,
  get-put, keys, branches_hold, taken_holds, some_of_else, member-keep, differ→≢, str_lt, count,
  take, drop, then_lt, then_lt_trans, total, IsDistinct,
}
use repogauge.Prelude.Text.{
  is_space, text_lt_irrefl, text_lt, text_lt_trans, Text, codes, text_eq, text_eq_sound,
  text_eq_refl, strip_prefix, strip_prefix-append, starts_with, contains,
}
use repogauge.Runner.Judge.Rows.{DatasetRow, Prediction, ResultRow, result_row_from_instance}

pub record Pair : Type 0 where
  pub row : DatasetRow
  pub prediction : Prediction

-- `dataset_by_id`: of equal ids the last
unfoldable pub dataset_by_id : Dict DatasetRow → List DatasetRow → Dict DatasetRow
dataset_by_id d [] = d
dataset_by_id d (row ∷ rows) =
    dataset_by_id (if row.instance_id == "" then d else put d row.instance_id row) rows

abbrev pub BatchKey : Type 0
BatchKey = Text

-- _batch_key_for_prediction
unfoldable pub batch_key_for_prediction : Pair → BatchKey
batch_key_for_prediction p =
    codes p.prediction.model_name_or_path
    ++ (b'|' ∷ (codes p.row.repo ++ (b'|' ∷ codes p.row.version)))

abbrev pub Groups : Type 0
Groups = List (BatchKey × List Pair)

-- `grouped.setdefault(key, []).append(pair)`
unfoldable pub append_pair : BatchKey → Pair → Groups → Groups
unfolding text_eq
append_pair key p [] = (key, p ∷ []) ∷ []
append_pair key p ((k, ps) ∷ groups) =
    if text_eq k key then (k, ps ++ p ∷ []) ∷ groups else (k, ps) ∷ append_pair key p groups

-- the pairs of the predictions with a dataset row
abbrev pub onto_pairs : Prediction → Option DatasetRow → List Pair → List Pair
onto_pairs p none ps = ps
onto_pairs p (some row) ps = (record { row = row; prediction = p }) ∷ ps

unfoldable pub scored_pairs : Dict DatasetRow → List Prediction → List Pair
scored_pairs d [] = []
scored_pairs d (p ∷ ps) =
    let rest = scored_pairs d ps in
    if p.instance_id == "" then rest else onto_pairs p (get d p.instance_id) rest

unfoldable pub group_pairs : Groups → List Pair → Groups
unfolding append_pair batch_key_for_prediction
group_pairs groups [] = groups
group_pairs groups (p ∷ ps) = group_pairs (append_pair (batch_key_for_prediction p) p groups) ps

-- _iter_chunks; every round takes one value at least, so their number is fuel enough
abbrev pub chunk_size : ℕ → ℕ
chunk_size size = if leb size 0 then 1 else size

unfoldable pub chunks_of {ℓ} : {A : Type ℓ} → ℕ → ℕ → List A → List (List A)
chunks_of zero size xs = []
chunks_of (suc fuel) size [] = []
chunks_of (suc fuel) size (x ∷ xs) = take size (x ∷ xs) ∷ chunks_of fuel size (drop size (x ∷ xs))

unfoldable pub iter_chunks {ℓ} : {A : Type ℓ} → List A → ℕ → List (List A)
unfolding chunks_of
iter_chunks values size = chunks_of (length values) (chunk_size size) values

pub record Batch : Type 0 where
  pub key : BatchKey
  pub pairs : List Pair

abbrev pub batch_of : BatchKey → List Pair → Batch
batch_of key pairs = record { key = key; pairs = pairs }

unfoldable pub batches_of : ℕ → Groups → List Batch
unfolding iter_chunks
batches_of size [] = []
batches_of size ((key, pairs) ∷ groups) =
    map (batch_of key) (iter_chunks pairs size) ++ batches_of size groups

-- `missing_prediction_rows`
unfoldable pub missing_rows : List String → List DatasetRow → List ResultRow
unfolding result_row_from_instance
missing_rows seen [] = []
missing_rows seen (row ∷ rows) =
    let rest = missing_rows seen rows in
    if row.instance_id == "" || member row.instance_id seen
    then rest
    else result_row_from_instance row none (some "missing_prediction") none (codes "skipped") ∷ rest

abbrev pub seen_ids : List Pair → List String
seen_ids ps = map (λ p. p.prediction.instance_id) ps

-- _prepare_batches
unfoldable pub prepare_batches : List DatasetRow → List Prediction → ℕ → List Batch × List ResultRow
unfolding dataset_by_id scored_pairs group_pairs batches_of missing_rows
prepare_batches dataset_rows predictions_rows batch_size =
    let pairs = scored_pairs (dataset_by_id [] dataset_rows) predictions_rows in
    (batches_of batch_size (group_pairs [] pairs), missing_rows (seen_ids pairs) dataset_rows)
