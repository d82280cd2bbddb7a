-- ===== src/Persistence/Drain.antt =====
-- As long as a permit is left, `persist_gossip` of src/persistence.rs can store all that is queued.
use rapid_gossip_sync_server.Prelude.{
  ℕ, zero, suc, ◌+◌, ◌<◌, List, [], ◌∷◌, ◌++◌, map, length, some, Bool, true, false, ◌≡◌, refl, sym,
  ap, ◌∙◌, arith,
}
use rapid_gossip_sync_server.Types.{SignedMessages, GossipMessage}
use rapid_gossip_sync_server.Persistence.{insert_paralellism}
use rapid_gossip_sync_server.Persistence.Rows.{Insert, insert_of}
use rapid_gossip_sync_server.Persistence.Tables.{Tables, execute}
use rapid_gossip_sync_server.Persistence.Inserts.{
  Graphs, Persister, take_next, take_message, finish_insert, takes, stores, Steps, done, more,
}
use rapid_gossip_sync_server.Persistence.Permits.{IsBalanced, take_message-Takes}

-- The statements one after another.
unfoldable pub execute_all : List Insert → Tables → Tables
execute_all [] tables = tables
execute_all (statement ∷ statements) tables = execute_all statements (execute tables statement)

execute_all-append :
    (a b : List Insert) (tables : Tables)
    → execute_all (a ++ b) tables ≡ execute_all b (execute_all a tables)
unfolding execute_all
execute_all-append [] b tables = refl
execute_all-append (s ∷ a) b tables = execute_all-append a b (execute tables s)

module _ (signed : SignedMessages) (graphs : Graphs) where
  abbrev P : Type 0
  P = Persister signed graphs

  trans : {p q r : P} → Steps signed graphs p q → Steps signed graphs q r → Steps signed graphs p r
  trans first done = first
  trans first (more steps step) = more (trans first steps) step

  -- The loop is alive and idle, with permits left.
  record IsIdle (p : P) : Type 0 where
    alive : p.is_alive ≡ true
    idle : p.running ≡ []
    permitted : 0 < p.permits

  -- The running inserts can end.
  store_running :
      (rows : List Insert) (p : P)
      → p.running ≡ rows
      → (q : P) × Steps signed graphs p q
        × (q.running ≡ [])
        × (q.queue ≡ p.queue)
        × (q.lost ≡ p.lost)
        × (q.is_alive ≡ p.is_alive)
        × (q.permits ≡ p.permits + length rows)
        × (q.tables ≡ execute_all rows p.tables)
  unfolding execute_all finish_insert
  store_running [] p e = (p, done, e, refl, refl, refl, omega arith, refl)
  store_running (s ∷ rows) p e =
      let next = finish_insert signed graphs s rows p in
      let (q, steps, r, k, l, a, n, t) = store_running rows next refl in
      (q, trans (more done (stores p [] rows s e)) steps, r, k, l, a, omega (arith, n), t)

  take-ok :
      (now : ℕ) (alive : Bool) (queue rest : List (GossipMessage signed)) (m : GossipMessage signed)
      (permits : ℕ) (p : P)
      → alive ≡ true
      → queue ≡ m ∷ rest
      → 0 < permits
      → (q : P) × (take_next signed graphs now alive queue permits p ≡ some q)
  unfolding take_next
  take-ok now false queue rest m permits p a b c = cc
  take-ok now true [] rest m permits p a b c = cc
  take-ok now true (m' ∷ queue) rest m zero p a b c = absurd (omega (arith, c))
  take-ok now true (m' ∷ queue) rest m (suc permits) p a b c = (_, refl)

  message_inj :
      {a b : GossipMessage signed} {xs ys : List (GossipMessage signed)}
      → a ∷ xs ≡ b ∷ ys
      → (a ≡ b) × (xs ≡ ys)
  message_inj e = (cc, cc)

  drain :
      (now : ℕ) (queue : List (GossipMessage signed)) (p : P)
      → p.queue ≡ queue
      → IsIdle p
      → (q : P) × Steps signed graphs p q
        × (q.queue ≡ [])
        × (q.running ≡ [])
        × (q.lost ≡ p.lost)
        × (q.tables ≡ execute_all (map (insert_of signed) queue) p.tables)
  unfolding take_message execute_all
  drain now [] p e h = (p, done, e, h.idle, refl, refl)
  drain now (m ∷ queue) p e h =
      let (next, takes_one) =
        take-ok now p.is_alive p.queue queue m p.permits p h.alive e h.permitted in
      let t = take_message-Takes signed graphs now p next takes_one in
      let (same, rest) = message_inj (sym t.queued ∙ e) in
      let one : next.running ≡ insert_of signed m ∷ [] =
        t.runs
        ∙ ap (λ rows. insert_of signed t.message ∷ rows) h.idle
        ∙ ap (λ x. insert_of signed x ∷ []) same in
      let (last, steps, idle, k, l, a, n, stored) =
        store_running (insert_of signed m ∷ []) next one in
      let (q, steps', empty, idle', l', stored') =
        drain now queue last (k ∙ rest)
          (record { alive = a ∙ t.alive_kept; idle = idle; permitted = omega (arith, n) }) in
      (
        q,
        trans (more done (takes p next now takes_one)) (trans steps steps'),
        empty,
        idle',
        l' ∙ l ∙ t.lost_kept,
        stored'
            ∙ ap (execute_all (map (insert_of signed) queue))
                (stored ∙ ap (execute_all (insert_of signed m ∷ [])) t.tables_kept),
      )

  -- While fewer than 16 inserts have failed and the loop is alive, everything can still be stored:
  -- there are steps after which nothing is queued and nothing runs, no more inserts have failed,
  -- and the statements of the running tasks and then those of the queue, in order, have been
  -- executed.
  pub drain-IsStored :
      (now : ℕ) (p : P)
      → IsBalanced signed graphs p
      → p.is_alive ≡ true
      → p.lost < insert_paralellism
      → (q : P) × Steps signed graphs p q
        × (q.queue ≡ [])
        × (q.running ≡ [])
        × (q.lost ≡ p.lost)
        × (q.tables ≡ execute_all (p.running ++ map (insert_of signed) p.queue) p.tables)
  drain-IsStored now p h alive few =
      let (mid, steps, idle, k, l, a, n, stored) = store_running p.running p refl in
      let (q, steps', empty, idle', l', stored') = drain now p.queue mid k (record {
        alive = a ∙ alive;
        idle = idle;
        permitted = omega (arith, n, h.permits_total, few);
      }) in
      (
        q,
        trans steps steps',
        empty,
        idle',
        l' ∙ l,
        stored'
            ∙ ap (execute_all (map (insert_of signed) p.queue)) stored
            ∙ sym (execute_all-append p.running (map (insert_of signed) p.queue) p.tables),
      )
