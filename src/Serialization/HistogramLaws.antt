-- ===== src/Serialization/HistogramLaws.antt =====
-- What `find_most_common_histogram_entry_with_default` of src/serialization.rs chooses.
use rapid_gossip_sync_server.Prelude.{
  ℕ, zero, suc, some, get_elem?, ◌≤◌, ◌<◌, List, [], ◌∷◌, All, ltb, Bool-cases, inl, inr, ltb→lt,
  ◌≡◌, ◌⊎◌, refl, arith,
}
use rapid_gossip_sync_server.Serialization.Histograms.{
  max_by_frequency, find_most_common_histogram_entry_with_default,
}

module _ {V : Type 0} where
  -- The entry that `max_by` picks is the best so far or stands in the rest, and none is more
  -- frequent.
  pub record IsMostFrequent (entries : List (V × ℕ)) (e : V × ℕ) : Type 0 where
    pub place : ℕ
    pub member : get_elem? entries place ≡ some e
    pub most : All (λ other. other.1 ≤ e.1) entries

  -- A less frequent candidate is passed over.
  older :
      (best candidate : V × ℕ) (entries : List (V × ℕ)) (e : V × ℕ)
      → candidate.1 < best.1
      → (place : ℕ) → get_elem? (best ∷ entries) place ≡ some e
      → All (λ other. other.1 ≤ e.1) (best ∷ entries)
      → IsMostFrequent (best ∷ candidate ∷ entries) e
  older best candidate entries e less zero h most = record {
    place = 0;
    member = h;
    most = (most.0, (omega (arith, most.0, less), most.1));
  }
  older best candidate entries e less (suc i) h most = record {
    place = suc (suc i);
    member = h;
    most = (most.0, (omega (arith, most.0, less), most.1));
  }

  max_by_frequency_lem :
      (best : V × ℕ) (entries : List (V × ℕ))
      → IsMostFrequent (best ∷ entries) (max_by_frequency best entries)
  unfolding max_by_frequency
  max_by_frequency_lem best [] = record { place = 0; member = refl; most = (omega arith, tt) }
  max_by_frequency_lem best (candidate ∷ entries) = elim (Bool-cases (ltb candidate.1 best.1)) [
    | inl smaller ↦
        let h = max_by_frequency_lem best entries in
        rw smaller (older best candidate entries _ (ltb→lt _ _ smaller) h.place h.member h.most)
    | inr not_smaller ↦
        let h = max_by_frequency_lem candidate entries in
        rw not_smaller (record {
          place = suc h.place;
          member = h.member;
          most = (ground (arith, h.most.0), h.most);
        })
  ]

  -- The value chosen is the default if the histogram is empty. Otherwise it is the value of an
  -- entry of the histogram, and no entry has a greater frequency, in whatever order the map yields
  -- its entries.
  pub find_most_common_histogram_entry_with_default_lem :
      (histogram : List (V × ℕ)) (default : V)
      → ((histogram ≡ [])
          × (find_most_common_histogram_entry_with_default histogram default ≡ default))
        ⊎ ((e : V × ℕ) × (find_most_common_histogram_entry_with_default histogram default ≡ e.0)
            × IsMostFrequent histogram e)
  unfolding find_most_common_histogram_entry_with_default
  find_most_common_histogram_entry_with_default_lem [] default = inl (refl, refl)
  find_most_common_histogram_entry_with_default_lem (first ∷ histogram) default =
      inr (max_by_frequency first histogram, refl, max_by_frequency_lem first histogram)
