-- ===== src/Serialization/Histograms.antt =====
-- The histograms of src/serialization.rs, and the two functions that pick defaults from them.
use rapid_gossip_sync_server.Prelude.{
  ℕ, ◌+◌, List, [], ◌∷◌, map, Bool, if◌then◌else◌, ltb, leb, take,
}
use mathlib.Core.List.{Perm}

-- The order in which a `HashMap` yields its entries, which the standard library leaves open.
pub record HashOrder : Type 1 where
  pub iter : (A : Type 0) → List A → List A
  pub iter_perm : (A : Type 0) (entries : List A) → Perm (iter A entries) entries

module _ {V : Type 0} where
  -- `*histogram.entry(value).or_insert(0) += 1`
  unfoldable pub tally : (V → V → Bool) → V → List (V × ℕ) → List (V × ℕ)
  tally eq value [] = (value, 1) ∷ []
  tally eq value ((key, frequency) ∷ histogram) =
      if eq key value
      then (key, frequency + 1) ∷ histogram
      else (key, frequency) ∷ tally eq value histogram

  -- `max_by` returns the last of several greatest entries.
  unfoldable pub max_by_frequency : V × ℕ → List (V × ℕ) → V × ℕ
  max_by_frequency best [] = best
  max_by_frequency best (candidate ∷ histogram) =
      max_by_frequency (if ltb candidate.1 best.1 then best else candidate) histogram

  -- The histogram in the order of its iteration.
  unfoldable pub find_most_common_histogram_entry_with_default : List (V × ℕ) → V → V
  find_most_common_histogram_entry_with_default [] default = default
  find_most_common_histogram_entry_with_default (first ∷ histogram) default =
      (max_by_frequency first histogram).0

  unfoldable pub more_than_once : List (V × ℕ) → List (V × ℕ)
  more_than_once [] = []
  more_than_once (candidate ∷ histogram) =
      let rest = more_than_once histogram in if ltb 1 candidate.1 then candidate ∷ rest else rest

  -- The stable `sort_by(|a, b| b.1.cmp(&a.1))`.
  unfoldable pub insert_descending : V × ℕ → List (V × ℕ) → List (V × ℕ)
  insert_descending e [] = e ∷ []
  insert_descending e (next ∷ sorted) =
      if leb next.1 e.1 then e ∷ next ∷ sorted else next ∷ insert_descending e sorted

  unfoldable pub sort_descending : List (V × ℕ) → List (V × ℕ)
  sort_descending [] = []
  sort_descending (e ∷ entries) = insert_descending e (sort_descending entries)

  unfoldable pub find_leading_histogram_entries : List (V × ℕ) → ℕ → List V
  find_leading_histogram_entries histogram count =
      map (λ e. e.0) (take count (sort_descending (more_than_once histogram)))
