-- ===== src/Runner/Judge/Batches/Lossless.antt =====
-- repogauge/runner/judge.py: what the batches hold.
use repogauge.Prelude.Text.{text_eq, text_eq_refl}
use repogauge.Prelude.{
  ℕ, zero, suc, ◌+◌, ◌≤◌, ◌≡◌, refl, inl, inr, Bool, true, List, [], ◌∷◌, ◌++◌, map, arith,
  if◌then◌else◌, Bool-cases, length, All, All-append, taken_holds, count, take, drop, total,
}
use repogauge.Prelude.Sort.{All-take, All-drop, count-append, count-take-drop, length-drop}
use repogauge.Runner.Judge.Rows.{DatasetRow, Prediction}
use repogauge.Runner.Judge.Batches.{
  Pair, dataset_by_id, BatchKey, batch_key_for_prediction, Groups, append_pair, scored_pairs,
  group_pairs, chunk_size, chunks_of, iter_chunks, Batch, batch_of, batches_of, prepare_batches,
}

-- The pairs of some batches that pass a test.
abbrev pub held_in : (Pair → Bool) → List Batch → ℕ
held_in p batches = total (λ b. count p b.pairs) batches

abbrev held_by : (Pair → Bool) → Groups → ℕ
held_by p groups = total (λ g. count p g.1) groups

held_by-append_pair :
    (p : Pair → Bool) (key : BatchKey) (pair : Pair) (groups : Groups)
    → held_by p (append_pair key pair groups) ≡ (if p pair then 1 else 0) + held_by p groups
unfolding append_pair
held_by-append_pair p key pair [] = omega arith
held_by-append_pair p key pair ((k, ps) ∷ groups) = elim (Bool-cases (text_eq k key)) [
  | inl e ↦ rw e (omega (arith, count-append p ps (pair ∷ [])))
  | inr e ↦ rw e (omega (arith, held_by-append_pair p key pair groups))
]

held_by-group_pairs :
    (p : Pair → Bool) (groups : Groups) (pairs : List Pair)
    → held_by p (group_pairs groups pairs) ≡ held_by p groups + count p pairs
unfolding group_pairs
held_by-group_pairs p groups [] = omega arith
held_by-group_pairs p groups (pair ∷ pairs) = omega (
  arith,
  held_by-group_pairs p (append_pair (batch_key_for_prediction pair) pair groups) pairs,
  held_by-append_pair p (batch_key_for_prediction pair) pair groups,
)

-- The chunks hold the values, each once.
count-chunks_of :
    (p : Pair → Bool) (fuel size : ℕ) (xs : List Pair)
    → length xs ≤ fuel
    → 1 ≤ size
    → total (λ c. count p c) (chunks_of fuel size xs) ≡ count p xs
unfolding chunks_of
count-chunks_of p zero size [] h k = refl
count-chunks_of p zero size (x ∷ xs) h k = absurd (omega arith)
count-chunks_of p (suc fuel) size [] h k = refl
count-chunks_of p (suc fuel) size (x ∷ xs) h k = omega (
  arith,
  count-take-drop p size (x ∷ xs),
  count-chunks_of p fuel size (drop size (x ∷ xs)) (omega (arith, length-drop size (x ∷ xs))) k,
)

chunk_size_pos : (size : ℕ) → 1 ≤ chunk_size size
chunk_size_pos size = ground arith

total-append {ℓ} :
    {A : Type ℓ} (f : A → ℕ) (xs ys : List A) → total f (xs ++ ys) ≡ total f xs + total f ys
total-append f [] ys = omega arith
total-append f (x ∷ xs) ys = omega (arith, total-append f xs ys)

held_in-batch_of :
    (p : Pair → Bool) (key : BatchKey) (chunks : List (List Pair))
    → held_in p (map (batch_of key) chunks) ≡ total (λ c. count p c) chunks
held_in-batch_of p key [] = refl
held_in-batch_of p key (c ∷ chunks) = omega (arith, held_in-batch_of p key chunks)

held_in-batches_of :
    (p : Pair → Bool) (size : ℕ) (groups : Groups)
    → held_in p (batches_of size groups) ≡ held_by p groups
unfolding batches_of iter_chunks
held_in-batches_of p size [] = refl
held_in-batches_of p size ((key, pairs) ∷ groups) =
    let chunks = chunks_of (length pairs) (chunk_size size) pairs in
    omega (
      arith,
      total-append (λ b. count p b.pairs) (map (batch_of key) chunks) (batches_of size groups),
      held_in-batch_of p key chunks,
      count-chunks_of p (length pairs) (chunk_size size) pairs (omega arith) (chunk_size_pos size),
      held_in-batches_of p size groups,
    )

-- A batch of a size: some pairs, no more than the size, and all of the batch's key.
pub record IsBatch (size : ℕ) (b : Batch) : Type 0 where
  pub some_pair : 1 ≤ length b.pairs
  pub few : length b.pairs ≤ size
  pub keyed : All (λ p. text_eq b.key (batch_key_for_prediction p) ≡ true) b.pairs

abbrev HasKey : BatchKey → List Pair → Type 0
HasKey key pairs = All (λ p. text_eq key (batch_key_for_prediction p) ≡ true) pairs

abbrev AreKeyed : Groups → Type 0
AreKeyed groups = All (λ g. HasKey g.0 g.1) groups

append_pair-AreKeyed :
    (p : Pair) (groups : Groups)
    → AreKeyed groups
    → AreKeyed (append_pair (batch_key_for_prediction p) p groups)
unfolding append_pair
append_pair-AreKeyed p [] h = ((text_eq_refl (batch_key_for_prediction p), tt), tt)
append_pair-AreKeyed p ((k, ps) ∷ groups) h =
    let key = batch_key_for_prediction p in
    taken_holds AreKeyed (text_eq k key) ((k, ps ++ p ∷ []) ∷ groups)
      ((k, ps) ∷ append_pair key p groups)
      (λ e. (
        All-append (λ q. text_eq k (batch_key_for_prediction q) ≡ true) ps (p ∷ []) h.0 (e, tt),
        h.1,
      ))
      (λ e. (h.0, append_pair-AreKeyed p groups h.1))

group_pairs-AreKeyed :
    (groups : Groups) (pairs : List Pair) → AreKeyed groups → AreKeyed (group_pairs groups pairs)
unfolding group_pairs
group_pairs-AreKeyed groups [] h = h
group_pairs-AreKeyed groups (p ∷ pairs) h =
    group_pairs-AreKeyed (append_pair (batch_key_for_prediction p) p groups) pairs
      (append_pair-AreKeyed p groups h)

length-take-le : (n : ℕ) (xs : List Pair) → length (take n xs) ≤ n
length-take-le zero xs = omega arith
length-take-le (suc n) [] = omega arith
length-take-le (suc n) (x ∷ xs) = omega (arith, length-take-le n xs)

take_some : (n : ℕ) (x : Pair) (xs : List Pair) → 1 ≤ n → 1 ≤ length (take n (x ∷ xs))
take_some zero x xs h = absurd (omega arith)
take_some (suc n) x xs h = omega arith

chunks_of-IsBatch :
    (key : BatchKey) (fuel size : ℕ) (xs : List Pair)
    → 1 ≤ size
    → HasKey key xs
    → All (IsBatch size) (map (batch_of key) (chunks_of fuel size xs))
unfolding chunks_of
chunks_of-IsBatch key zero size xs h k = tt
chunks_of-IsBatch key (suc fuel) size [] h k = tt
chunks_of-IsBatch key (suc fuel) size (x ∷ xs) h k = (
  record {
    some_pair = take_some size x xs h;
    few = length-take-le size (x ∷ xs);
    keyed = All-take (λ p. text_eq key (batch_key_for_prediction p) ≡ true) size (x ∷ xs) k;
  },
  chunks_of-IsBatch key fuel size (drop size (x ∷ xs)) h
      (All-drop (λ p. text_eq key (batch_key_for_prediction p) ≡ true) size (x ∷ xs) k),
)

batches_of-IsBatch :
    (size : ℕ) (groups : Groups)
    → AreKeyed groups
    → All (IsBatch (chunk_size size)) (batches_of size groups)
unfolding batches_of iter_chunks
batches_of-IsBatch size [] h = tt
batches_of-IsBatch size ((key, pairs) ∷ groups) h =
    All-append (IsBatch (chunk_size size))
      (map (batch_of key) (chunks_of (length pairs) (chunk_size size) pairs))
      (batches_of size groups)
      (chunks_of-IsBatch key (length pairs) (chunk_size size) pairs (chunk_size_pos size) h.0)
      (batches_of-IsBatch size groups h.1)

-- The batches hold every prediction with a dataset row exactly once: of the pairs that pass any test, as
-- many are in the batches as among the predictions. No batch is empty or larger than the batch size,
-- which counts as 1 if it is 0, and the key of each of its pairs is its own.
pub prepare_batches-IsLossless :
    (dataset_rows : List DatasetRow) (predictions : List Prediction) (size : ℕ) (p : Pair → Bool)
    → (held_in p (prepare_batches dataset_rows predictions size).0
        ≡ count p (scored_pairs (dataset_by_id [] dataset_rows) predictions))
      × All (IsBatch (chunk_size size)) (prepare_batches dataset_rows predictions size).0
unfolding prepare_batches
prepare_batches-IsLossless dataset_rows predictions size p =
    let pairs = scored_pairs (dataset_by_id [] dataset_rows) predictions in
    (
      omega
          (arith, held_in-batches_of p size (group_pairs [] pairs), held_by-group_pairs p [] pairs),
      batches_of-IsBatch size (group_pairs [] pairs) (group_pairs-AreKeyed [] pairs tt),
    )
