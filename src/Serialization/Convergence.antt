-- ===== src/Serialization/Convergence.antt =====
-- The updates that `serialize_delta_set` of src/serialization.rs chooses bring the client up to
-- date.
use rapid_gossip_sync_server.Prelude.{
  ℕ, List, [], ◌∷◌, ◌++◌, Option, none, some, Bool, true, false, ◌||◌, ltb, leb, ◌==◌, ok, ◌≡◌,
  refl, sym, arith, if_elim, Bool-cases, inl, inr, ==_iff, append-nil, max,
}
use rapid_gossip_sync_server.Prelude.Maps.{unwrap_or}
use rapid_gossip_sync_server.Ldk.{UnsignedChannelUpdate}
use rapid_gossip_sync_server.Lookup.{UpdateDelta, DirectedUpdateDelta}
use rapid_gossip_sync_server.Lookup.Keyed.{OnSome, IsUpdateOf}
use rapid_gossip_sync_server.Lookup.Marks.{MarksAll, MarksBoth, IsMarked}
use rapid_gossip_sync_server.Serialization.{
  MutatedProperties, len, UpdateSerialization, full, incremental, reminder,
}
use rapid_gossip_sync_server.Serialization.Categorize.{
  Progress, push_full, push_reminder, ChannelContext, categorize_known, categorize_latest,
  categorize_directed_update_serialization,
}
use rapid_gossip_sync_server.Serialization.ReadUpdate.{Received, replace, amend, meaning, some_if}

-- What a client keeps of one direction of a channel.
pub record Values : Type 0 where
  pub flags : ℕ
  pub cltv_expiry_delta : ℕ
  pub htlc_minimum_msat : ℕ
  pub fee_base_msat : ℕ
  pub fee_proportional_millionths : ℕ
  pub htlc_maximum_msat : ℕ

abbrev pub values_of : UnsignedChannelUpdate → Values
values_of u = record {
  flags = u.channel_flags;
  cltv_expiry_delta = u.cltv_expiry_delta;
  htlc_minimum_msat = u.htlc_minimum_msat;
  fee_base_msat = u.fee_base_msat;
  fee_proportional_millionths = u.fee_proportional_millionths;
  htlc_maximum_msat = u.htlc_maximum_msat;
}

abbrev pub known_values : Option UpdateDelta → Option Values
known_values none = none
known_values (some u) = some (values_of u.update)

-- How a client takes a message in: a change is of no use to a client that knows no values.
unfoldable pub receive : Received → Option Values → Option Values
receive (replace id direction cltv htlc_min base prop htlc_max) client = some (record {
  flags = direction;
  cltv_expiry_delta = cltv;
  htlc_minimum_msat = htlc_min;
  fee_base_msat = base;
  fee_proportional_millionths = prop;
  htlc_maximum_msat = htlc_max;
})
receive (amend id direction cltv htlc_min base prop htlc_max) none = none
receive (amend id direction cltv htlc_min base prop htlc_max) (some v) = some (record {
  flags = direction;
  cltv_expiry_delta = unwrap_or v.cltv_expiry_delta cltv;
  htlc_minimum_msat = unwrap_or v.htlc_minimum_msat htlc_min;
  fee_base_msat = unwrap_or v.fee_base_msat base;
  fee_proportional_millionths = unwrap_or v.fee_proportional_millionths prop;
  htlc_maximum_msat = unwrap_or v.htlc_maximum_msat htlc_max;
})

unfoldable pub receive_all : List UpdateSerialization → Option Values → Option Values
receive_all [] client = client
receive_all (u ∷ updates) client = receive_all updates (receive (meaning u) client)

receive-full :
    (u : UnsignedChannelUpdate) (client : Option Values)
    → receive (meaning (full u)) client ≡ some (values_of u)
unfolding receive meaning
receive-full u client = refl

-- `v` where it is sent, and the old value where it is the same.
some_if_lem :
    (test : Bool) (old v : ℕ) → (test ≡ false → v ≡ old) → unwrap_or old (some_if test v) ≡ v
some_if_lem true old v h = refl
some_if_lem false old v h = sym (h refl)

receive-incremental :
    (latest before : UnsignedChannelUpdate) (m : MutatedProperties)
    → MarksAll m latest before
    → receive (meaning (incremental latest m)) (some (values_of before)) ≡ some (values_of latest)
unfolding receive meaning
receive-incremental latest before m h = simp (
  some_if_lem m.cltv_expiry_delta _ _ h.cltv,
  some_if_lem m.htlc_minimum_msat _ _ h.htlc_min,
  some_if_lem m.fee_base_msat _ _ h.base,
  some_if_lem m.fee_proportional_millionths _ _ h.prop,
  some_if_lem m.htlc_maximum_msat _ _ h.htlc_max,
)

len_zero :
    (m : MutatedProperties)
    → ltb 0 (len m) ≡ false
    → (m.cltv_expiry_delta ≡ false)
      × (m.htlc_minimum_msat ≡ false)
      × (m.fee_base_msat ≡ false)
      × (m.fee_proportional_millionths ≡ false)
      × (m.htlc_maximum_msat ≡ false)
unfolding len
len_zero m few = ground arith

-- Nothing is marked.
unmarked :
    (latest before : UnsignedChannelUpdate) (m : MutatedProperties)
    → MarksAll m latest before
    → ltb 0 (len m) ≡ false
    → m.flags ≡ false
    → values_of before ≡ values_of latest
unmarked latest before m h few no_flags =
    let (cltv, htlc_min, base, prop, htlc_max) = len_zero m few in
    simp (
      h.flags no_flags,
      h.cltv cltv,
      h.htlc_min htlc_min,
      h.base base,
      h.prop prop,
      h.htlc_max htlc_max,
    )

-- From `s` to `s'` some updates are pushed that take the client from the values `from` to `to`.
pub record Brings (from to : Option Values) (s s' : Progress) : Type 0 where
  pub sent : List UpdateSerialization
  pub pushed : s'.updates ≡ s.updates ++ sent
  pub received : receive_all sent from ≡ to

nothing-Brings : (from : Option Values) (s : Progress) → Brings from from s s
unfolding receive_all
nothing-Brings from s = record { sent = []; pushed = sym (append-nil s.updates); received = refl }

full-Brings :
    (from : Option Values) (u : UnsignedChannelUpdate) (s : Progress)
    → Brings from (some (values_of u)) s (push_full u s)
unfolding receive_all
full-Brings from u s = record { sent = full u ∷ []; pushed = refl; received = receive-full u from }

module _ (c : ChannelContext) (d : DirectedUpdateDelta) (latest : UnsignedChannelUpdate) where
  -- A reminder carries the flags of the latest update.
  abbrev pub RemindsOf : Type 0
  RemindsOf = OnSome (λ flags. flags ≡ latest.channel_flags) d.serialization_update_flags

  reminder-Brings :
      (flags : Option ℕ) (s : Progress)
      → OnSome (λ f. f ≡ latest.channel_flags) flags
      → Brings (some (values_of latest)) (some (values_of latest)) s (push_reminder c.scid flags s)
  unfolding receive_all receive meaning
  reminder-Brings none s h = nothing-Brings _ s
  reminder-Brings (some f) s h = record {
    sent = reminder c.scid f ∷ [];
    pushed = refl;
    received = simp h;
  }

  categorize_known-Brings :
      (before : UpdateDelta) (s : Progress)
      → MarksAll d.mutated_properties latest before.update
      → RemindsOf
      → Brings
          (some (values_of before.update))
          (some (values_of latest))
          s
          (categorize_known c d before latest s)
  unfolding categorize_known receive_all
  categorize_known-Brings before s marks reminds =
      let m = d.mutated_properties in
      let from = some (values_of before.update) in
      let to = some (values_of latest) in
      elim (Bool-cases (c.send_announcement || len m == 5 || leb before.seen c.threshold)) [
        | inl in_full ↦ rw in_full (full-Brings from latest s)
        | inr in_part ↦ elim (Bool-cases (ltb 0 (len m))) [
          | inl some_marked ↦
              rw (in_part, some_marked)
                (record {
                  sent = incremental latest m ∷ [];
                  pushed = refl;
                  received = receive-incremental latest before.update m marks;
                })
          | inr few ↦ elim (Bool-cases m.flags) [
            | inl flags_marked ↦
                simp (in_part, few, flags_marked)
                  (record {
                    sent = incremental latest m ∷ [];
                    pushed = refl;
                    received = receive-incremental latest before.update m marks;
                  })
            | inr no_flags ↦
                rw (in_part, few, no_flags, unmarked latest before.update m marks few no_flags)
                  (if_elim (Brings to to s) c.requires_reminder
                    (reminder-Brings d.serialization_update_flags s reminds) (nothing-Brings to s))
          ]
        ]
      ]

latest-Brings :
    (c : ChannelContext) (d : DirectedUpdateDelta) (latest : UpdateDelta) (s : Progress)
    → IsUpdateOf c.scid latest
    → (before : Option UpdateDelta) → d.last_update_before_seen ≡ before
    → MarksBoth d.mutated_properties (some latest) before
    → RemindsOf c d latest.update
    → (s' : Progress) × (categorize_latest c d latest s ≡ ok s')
      × Brings (known_values before) (some (values_of latest.update)) s s'
unfolding categorize_latest
latest-Brings c d latest s keyed none e marks reminds =
    let seen : Progress = record s { latest_seen = max s.latest_seen latest.seen } in
    let b = full-Brings none latest.update seen in
    (
      push_full latest.update seen,
      simp (e, (==_iff _ _).1 keyed) refl,
      record { sent = b.sent; pushed = b.pushed; received = b.received },
    )
latest-Brings c d latest s keyed (some before) e marks reminds =
    let seen : Progress = record s { latest_seen = max s.latest_seen latest.seen } in
    let b = categorize_known-Brings c d latest.update before seen marks reminds in
    (
      categorize_known c d before latest.update seen,
      simp (e, (==_iff _ _).1 keyed) refl,
      record { sent = b.sent; pushed = b.pushed; received = b.received },
    )

-- For a direction of a channel that has an update from after the last sync, with complete mutation
-- marks and, if any, reminder flags that are those of that update: the code does not panic, and
-- the updates that it pushes take a client that has the values of the update from before the last
-- sync (or none, if there was none) to the values of the latest update, whether they are sent in
-- full, as the mutated properties, as a reminder or not at all.
pub categorize_directed-Brings :
    (c : ChannelContext) (d : DirectedUpdateDelta) (latest : UpdateDelta) (s : Progress)
    → d.latest_update_after_seen ≡ some latest
    → IsMarked c.scid d
    → RemindsOf c d latest.update
    → (s' : Progress) × (categorize_directed_update_serialization c (some d) s ≡ ok s')
      × Brings (known_values d.last_update_before_seen) (some (values_of latest.update)) s s'
unfolding categorize_directed_update_serialization
categorize_directed-Brings c d latest s e marked reminds =
    let (s', returns, b) =
      latest-Brings c d latest s (rw e at marked.latest_keyed) d.last_update_before_seen refl
        (rw e at marked.marked) reminds in
    (s', simp e returns, b)
