-- ===== src/Prelude/Maps.antt =====
-- `BTreeMap<u64, V>` as the list of its entries by ascending key, and `HashMap` as a list of
-- entries.
use rapid_gossip_sync_server.Prelude.{
  ℕ, ◌<◌, ◌≡◌, refl, List, [], ◌∷◌, Option, none, some, if◌then◌else◌, ltb, ◌==◌, All, All-imp,
  arith,
}

abbrev pub unwrap_or {ℓ} : {A : Type ℓ} → A → Option A → A
unwrap_or d none = d
unwrap_or d (some a) = a

module _ {V : Type 0} where
  unfoldable pub get : ℕ → List (ℕ × V) → Option V
  get k [] = none
  get k ((j, v) ∷ m) = if k == j then some v else get k m

  -- `f(m.entry(k).or_insert(d))`
  unfoldable pub entry : V → ℕ → (V → V) → List (ℕ × V) → List (ℕ × V)
  entry d k f [] = (k, f d) ∷ []
  entry d k f ((j, v) ∷ m) =
      if ltb k j
      then (k, f d) ∷ (j, v) ∷ m
      else if k == j
      then (j, f v) ∷ m
      else (j, v) ∷ entry d k f m

  unfoldable pub remove : ℕ → List (ℕ × V) → List (ℕ × V)
  remove k [] = []
  remove k ((j, v) ∷ m) = if k == j then m else (j, v) ∷ remove k m

  -- The keys ascend, which is the representation invariant.
  abbrev pub IsAscending : List (ℕ × V) → Type 0
  IsAscending [] = Unit
  IsAscending ((j, v) ∷ m) = All (λ e. j < e.0) m × IsAscending m

  -- A key that stands in the list agrees with the new one only if they are equal.
  pub All-entry {κ} :
      (P : ℕ × V → Type κ) (d : V) (k : ℕ) (f : V → V) (m : List (ℕ × V))
      → P (k, f d)
      → ((j : ℕ) (v : V) → k ≡ j → P (j, v) → P (j, f v))
      → All P m
      → All P (entry d k f m)
  unfolding entry
  All-entry P d k f [] new old h = (new, tt)
  All-entry P d k f ((j, v) ∷ m) new old h =
      ground (arith, old j v, All-entry P d k f m new old h.1)

  All-lt_trans : (k j : ℕ) (m : List (ℕ × V)) → k < j → All (λ e. j < e.0) m → All (λ e. k < e.0) m
  All-lt_trans k j m lt h = All-imp (λ e. j < e.0) (λ e. k < e.0) (λ e p. omega arith) m h

  entry-above :
      (d : V) (j k : ℕ) (f : V → V) (m : List (ℕ × V))
      → j < k
      → All (λ e. j < e.0) m
      → All (λ e. j < e.0) (entry d k f m)
  entry-above d j k f m lt h = All-entry (λ e. j < e.0) d k f m lt (λ i v e p. p) h

  pub entry-IsAscending :
      (d : V) (k : ℕ) (f : V → V) (m : List (ℕ × V)) → IsAscending m → IsAscending (entry d k f m)
  unfolding entry
  entry-IsAscending d k f [] h = (tt, tt)
  entry-IsAscending d k f ((j, v) ∷ m) h =
      ground (arith, All-lt_trans k j m, entry-above d j k f m, entry-IsAscending d k f m h.1)

  get-above : (k : ℕ) (m : List (ℕ × V)) → All (λ e. k < e.0) m → get k m ≡ none
  unfolding get
  get-above k [] h = refl
  get-above k ((j, v) ∷ m) h = ground (arith, get-above k m h.1)

  get-below : (k j : ℕ) (m : List (ℕ × V)) → k < j → All (λ e. j < e.0) m → get k m ≡ none
  get-below k j m lt h = get-above k m (All-lt_trans k j m lt h)

  -- `entry` changes the value of its key, and no other.
  pub get-entry :
      (d : V) (k i : ℕ) (f : V → V) (m : List (ℕ × V))
      → IsAscending m
      → get i (entry d k f m) ≡ (if i == k then some (f (unwrap_or d (get i m))) else get i m)
  unfolding get entry
  get-entry d k i f [] h = ground arith
  get-entry d k i f ((j, v) ∷ m) h =
      ground (arith, get-below i j m, get-entry d k i f m h.1, get-above i m)

  All-remove {κ} : (P : ℕ × V → Type κ) (k : ℕ) (m : List (ℕ × V)) → All P m → All P (remove k m)
  unfolding remove
  All-remove P k [] h = tt
  All-remove P k ((j, v) ∷ m) h = ground (arith, All-remove P k m h.1)
