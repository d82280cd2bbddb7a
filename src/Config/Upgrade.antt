-- ===== src/Config/Upgrade.antt =====
-- `upgrade_db` of src/config.rs: which transactions it commits, and how it ends. A schema below
-- zero is like zero here: no condition of the source tells them apart.
use rapid_gossip_sync_server.Prelude.{
  ℕ, zero, suc, ◌≤◌, ◌<◌, List, [], ◌∷◌, ◌++◌, ◌+◌, length, take, All, Bool, ◌&&◌, ◌||◌,
  if◌then◌else◌, ltb, leb, ◌==◌, Bool-cases, inl, inr, leb→le, Result, ok, panic, unknown_schema,
  ◌≡◌, refl, sym, ap, ◌∙◌, arith,
}
use Prim.Native.String.{String}
use rapid_gossip_sync_server.Config.{schema_version}
use rapid_gossip_sync_server.Config.Migrations.{Migration, migrations}

-- `schema >= 1 && schema <= last`; for the first two the source writes the equations out.
abbrev pub applies : ℕ → Migration → Bool
applies schema m = leb 1 schema && leb schema m.last

unfoldable pub transactions : ℕ → List Migration → List Migration
transactions schema [] = []
transactions schema (m ∷ ms) =
    let rest = transactions schema ms in if applies schema m then m ∷ rest else rest

-- The settings of autovacuum, whose errors are ignored.
abbrev pub autovacuum : List String
autovacuum =
    "ALTER TABLE channel_updates SET ( autovacuum_vacuum_insert_scale_factor = 0.005 );"
    ∷ "ALTER TABLE channel_announcements SET ( autovacuum_vacuum_insert_scale_factor = 0.005 );"
    ∷ []

-- What is committed; whether the task that fills `funding_amount_sats` is spawned; and the end.
pub record Upgraded : Type 0 where
  pub committed : List Migration
  pub spawns_funding_task : Bool
  pub outcome : Result (List String)

unfoldable pub upgrade_db : ℕ → Upgraded
upgrade_db schema = record {
  committed = transactions schema migrations;
  spawns_funding_task = leb 1 schema && leb schema 14;
  outcome =
      if leb schema 1 || ltb schema_version schema then panic unknown_schema else ok autovacuum;
}

-- `db_schema` after transactions.
abbrev pub schema_after : ℕ → List Migration → ℕ
schema_after schema [] = schema
schema_after schema (m ∷ ms) = schema_after m.db_schema ms

-- Each migration leads from one schema to the next.
abbrev IsNumbered : ℕ → List Migration → Type 0
IsNumbered n [] = Unit
IsNumbered n (m ∷ ms) = (m.last ≡ n) × (m.db_schema ≡ suc n) × IsNumbered (suc n) ms

migrations-IsNumbered : IsNumbered 1 migrations
migrations-IsNumbered = omega arith

transactions-all :
    (n s : ℕ) (ms : List Migration) → IsNumbered n ms → 1 ≤ s → s ≤ n → transactions s ms ≡ ms
unfolding transactions
transactions-all n s [] h positive small = refl
transactions-all n s (m ∷ ms) h positive small =
    let rest = transactions-all (suc n) s ms h.2 positive (omega (arith, small)) in
    ground (arith, h.0, rest)

-- No transaction leads below the schema it started from.
transactions-above :
    (n s : ℕ) (ms : List Migration)
    → IsNumbered n ms
    → All (λ m. s ≤ m.db_schema) (transactions s ms)
unfolding transactions
transactions-above n s [] h = tt
transactions-above n s (m ∷ ms) h = ground (arith, h.0, h.1, transactions-above (suc n) s ms h.2)

schema_after-above :
    (s k j : ℕ) (ms : List Migration)
    → All (λ m. s ≤ m.db_schema) ms
    → s ≤ k
    → s ≤ schema_after k (take j ms)
schema_after-above s k zero ms h le = le
schema_after-above s k (suc j) [] h le = le
schema_after-above s k (suc j) (m ∷ ms) h le = schema_after-above s m.db_schema j ms h.1 h.0

transactions-skip :
    (s : ℕ) (m : Migration) (ms : List Migration)
    → m.last < s
    → transactions s (m ∷ ms) ≡ transactions s ms
unfolding transactions
transactions-skip s m ms above = ground (arith, above)

-- What is left after the first transactions, when the upgrade starts again.
abbrev resumed : ℕ → ℕ → List Migration → List Migration → List Migration
resumed s j ms all = take j all ++ transactions (schema_after s (take j all)) ms

resume :
    (n s j : ℕ) (ms : List Migration)
    → IsNumbered n ms
    → 1 ≤ s
    → transactions s ms ≡ resumed s j ms (transactions s ms)
unfolding transactions
resume n s zero ms h positive = refl
resume n s (suc j) [] h positive = refl
resume n s (suc j) (m ∷ ms) h positive = elim (Bool-cases (leb s n)) [
  | inl now ↦
      let all = transactions-all n s (m ∷ ms) h positive (leb→le s n now) in
      let rest = transactions-all (suc n) (suc n) ms h.2 (omega arith) (omega arith) in
      let ih : ms ≡ resumed (suc n) j ms ms =
        rw rest at (resume (suc n) (suc n) j ms h.2 (omega arith)) in
      let above =
        schema_after-above (suc n) (suc n) j ms
          (rw rest at (transactions-above (suc n) (suc n) ms h.2)) (omega arith) in
      let skip =
        ap (λ d. transactions (schema_after d (take j ms)) (m ∷ ms)) h.1
        ∙ transactions-skip (schema_after (suc n) (take j ms)) m ms (omega (arith, h.0, above)) in
      all
      ∙ ap (λ t. m ∷ t) (ih ∙ ap (λ t. take j ms ++ t) (sym skip))
      ∙ ap (resumed s (suc j) (m ∷ ms)) (sym all)
  | inr later ↦
      let over : m.last < s = ground (arith, h.0, later) in
      let skip = transactions-skip s m ms over in
      let above =
        schema_after-above s s (suc j) (transactions s ms) (transactions-above (suc n) s ms h.2)
          (omega arith) in
      let left = schema_after s (take (suc j) (transactions s ms)) in
      skip
      ∙ resume (suc n) s (suc j) ms h.2 positive
      ∙ ap (λ t. take (suc j) (transactions s ms) ++ t)
          (sym (transactions-skip left m ms (omega (arith, over, above))))
      ∙ ap (resumed s (suc j) (m ∷ ms)) (sym skip)
]

schema_after-numbered :
    (n : ℕ) (ms : List Migration) → IsNumbered n ms → schema_after n ms ≡ n + length ms
schema_after-numbered n [] h = omega arith
schema_after-numbered n (m ∷ ms) h =
    ap (λ d. schema_after d ms) h.1 ∙ omega (arith, schema_after-numbered (suc n) ms h.2)

schema_after-all :
    (n s : ℕ) (ms : List Migration)
    → IsNumbered n ms
    → 1 ≤ s
    → n ≤ s
    → s ≤ n + length ms
    → schema_after s (transactions s ms) ≡ n + length ms
unfolding transactions
schema_after-all n s [] h positive large small = omega (arith, small, large)
schema_after-all n s (m ∷ ms) h positive large small = elim (Bool-cases (leb s n)) [
  | inl now ↦
      ap (schema_after s) (transactions-all n s (m ∷ ms) h positive (leb→le s n now))
      ∙ schema_after-numbered n (m ∷ ms) h
  | inr later ↦
      ap (schema_after s) (transactions-skip s m ms (ground (arith, h.0, later)))
      ∙ schema_after-all (suc n) s ms h.2 positive (ground (arith, later)) (omega (arith, small))
      ∙ omega arith
]

-- A database of a schema from 1 to 14 is at schema 14 after the transactions. If the server stops
-- after any number of them and starts again with the schema that the last of them committed, the
-- transactions of the two runs together are those of one run that is not interrupted: none is
-- missed and none is repeated. Afterwards the upgrade panics if the schema was 1, and only then.
pub upgrade_db-resume :
    (schema commits : ℕ)
    → 1 ≤ schema
    → schema ≤ 14
    → let first = take commits (upgrade_db schema).committed in
      ((upgrade_db schema).committed ≡ first ++ (upgrade_db (schema_after schema first)).committed)
      × (schema_after schema (upgrade_db schema).committed ≡ 14)
      × ((upgrade_db schema).outcome
          ≡ (if schema == 1 then panic unknown_schema else ok autovacuum))
unfolding upgrade_db
upgrade_db-resume schema commits positive small = (
  resume 1 schema commits migrations migrations-IsNumbered positive,
  schema_after-all 1 schema migrations migrations-IsNumbered positive positive
      (omega (arith, small)),
  ground (arith, positive, small),
)
