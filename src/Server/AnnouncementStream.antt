-- ===== src/Server/AnnouncementStream.antt =====
-- The loop over the announcements in `serialize_delta`, and the client's loop that reads them.
use rapid_gossip_sync_server.Prelude.{
  ℕ, zero, suc, ◌+◌, ◌-◌, ◌*◌, ◌^◌, ◌≤◌, ◌<◌, List, [], ◌∷◌, ◌++◌, Option, none, some, length, All,
  get_elem?, get_elem?-lt, ok, ◌≡◌, refl, arith, append_assoc,
}
use rapid_gossip_sync_server.Ldk.{Ldk}
use rapid_gossip_sync_server.Serialization.DeltaSet.{ChannelAnnouncement}
use rapid_gossip_sync_server.Serialization.ReadUpdate.{◌>>=◌}
use rapid_gossip_sync_server.Serialization.StripAnnouncement.{
  serialize_stripped_channel_announcement,
}
use rapid_gossip_sync_server.Server.NodeIndex.{NodeIndex}
use rapid_gossip_sync_server.Server.IndexLaws.{IsIndexed, Extends, get_node_id_index_lem}
use rapid_gossip_sync_server.Server.SerializeDelta.{serialize_announcements}

module _ (ldk : Ldk) where
  open ldk use {NodeId, ints, channel_features}

  -- The client's reading of an announcement: the node ids are looked up in the table of the
  -- snapshot.
  unfoldable pub read_announcement :
      List NodeId → ℕ → List ℕ → Option (ChannelAnnouncement ldk × List ℕ)
  read_announcement table previous bytes = do
    f ← channel_features.read bytes
    delta ← ints.big_size.read f.1
    a ← ints.big_size.read delta.1
    b ← ints.big_size.read a.1
    node_id_1 ← get_elem? table a.0
    node_id_2 ← get_elem? table b.0
    some (
      record {
        features = f.0;
        short_channel_id = previous + delta.0;
        node_id_1 = node_id_1;
        node_id_2 = node_id_2;
      },
      b.1,
    )

  unfoldable pub read_announcements :
      List NodeId → ℕ → ℕ → List ℕ → Option (List (ChannelAnnouncement ldk) × List ℕ)
  read_announcements table zero previous bytes = some ([], bytes)
  read_announcements table (suc count) previous bytes =
      elim (read_announcement table previous bytes) [
        | none ↦ none
        | some (a, bytes') ↦ elim (read_announcements table count a.short_channel_id bytes') [
          | none ↦ none
          | some (others, rest) ↦ some (a ∷ others, rest)
        ]
      ]

  read_announcements_step :
      (table : List NodeId) (count previous : ℕ) (bytes bytes' rest : List ℕ)
      (a : ChannelAnnouncement ldk) (others : List (ChannelAnnouncement ldk))
      → read_announcement table previous bytes ≡ some (a, bytes')
      → read_announcements table count a.short_channel_id bytes' ≡ some (others, rest)
      → read_announcements table (suc count) previous bytes ≡ some (a ∷ others, rest)
  unfolding read_announcements
  read_announcements_step table count previous bytes bytes' rest a others h k = ground arith

  -- The scids do not descend, from `previous` on.
  abbrev pub AreSorted : ℕ → List (ChannelAnnouncement ldk) → Type 0
  AreSorted previous [] = Unit
  AreSorted previous (a ∷ announcements) =
      (previous ≤ a.short_channel_id) × AreSorted a.short_channel_id announcements

  abbrev pub FitsScid : ChannelAnnouncement ldk → Type 0
  FitsScid a = a.short_channel_id < 2 ^ 64

  module _ (a : ChannelAnnouncement ldk) (i j previous : ℕ)
      (le : previous ≤ a.short_channel_id) where
    abbrev pub stripped : List ℕ
    stripped =
        channel_features.write a.features
        ++ (ints.big_size.write (a.short_channel_id - previous)
            ++ (ints.big_size.write i ++ ints.big_size.write j))

    pub strip_lem : serialize_stripped_channel_announcement ldk a i j previous ≡ ok stripped
    unfolding serialize_stripped_channel_announcement
    strip_lem = ground arith

    read_stripped :
        (table : List NodeId) (rest : List ℕ)
        → FitsScid a
        → i < 2 ^ 64
        → j < 2 ^ 64
        → get_elem? table i ≡ some a.node_id_1
        → get_elem? table j ≡ some a.node_id_2
        → read_announcement table previous (stripped ++ rest) ≡ some (a, rest)
    unfolding read_announcement
    read_stripped table rest fits hi hj ei ej =
        let small : a.short_channel_id - previous < 2 ^ 64 = omega arith in
        let whole : previous + (a.short_channel_id - previous) ≡ a.short_channel_id = omega arith in
        simp (
          append_assoc,
          channel_features.read_write a.features _ tt,
          ints.big_size.read_write (a.short_channel_id - previous) _ small,
          ints.big_size.read_write i _ hi,
          ints.big_size.read_write j rest hj,
          ei,
          ej,
          whole,
        )

  -- What the loop does to the announcements and the state of the numbering.
  pub record Announces (announcements : List (ChannelAnnouncement ldk)) (previous : ℕ)
      (n : NodeIndex ldk) (bytes : List ℕ) (n' : NodeIndex ldk) : Type 0 where
    pub returns : serialize_announcements ldk announcements previous n ≡ ok (bytes, n')
    pub indexed : IsIndexed ldk n'
    pub extends : Extends ldk n.node_ids n'.node_ids
    pub bounded : length n'.node_ids ≤ length n.node_ids + 2 * length announcements
    pub reads :
        (table : List NodeId) (rest : List ℕ)
        → Extends ldk n'.node_ids table
        → read_announcements table (length announcements) previous (bytes ++ rest)
          ≡ some (announcements, rest)

  -- Announcements whose scids do not descend are serialized without a panic. The client that has any
  -- extension of the node ids numbered so far reads them all back, in order, whatever follows.
  pub serialize_announcements_lem :
      (announcements : List (ChannelAnnouncement ldk)) (previous : ℕ) (n : NodeIndex ldk)
      → IsIndexed ldk n
      → AreSorted previous announcements
      → All FitsScid announcements
      → length n.node_ids + 2 * length announcements < 2 ^ 64
      → (bytes : List ℕ) × (n' : NodeIndex ldk) × Announces announcements previous n bytes n'
  unfolding serialize_announcements
  serialize_announcements_lem [] previous n h sorted fits small = (
    [],
    n,
    record {
      returns = refl;
      indexed = h;
      extends = λ i id e. e;
      bounded = omega arith;
      reads = λ table rest e. unfold read_announcements in refl;
    },
  )
  serialize_announcements_lem (a ∷ as') previous n h sorted fits small =
      let (i, n1, num1) = get_node_id_index_lem ldk a.node_id_1 n h in
      let (j, n2, num2) = get_node_id_index_lem ldk a.node_id_2 n1 num1.indexed in
      let (bytes, n3, more) =
        serialize_announcements_lem as' a.short_channel_id n2 num2.indexed sorted.1 fits.1
          (omega (arith, num1.one_more, num2.one_more)) in
      let hi : i < 2 ^ 64 =
        omega (arith, get_elem?-lt n1.node_ids i a.node_id_1 num1.elem, num1.one_more) in
      let hj : j < 2 ^ 64 =
        omega
          (arith, get_elem?-lt n2.node_ids j a.node_id_2 num2.elem, num1.one_more, num2.one_more) in
      (
        stripped a i j previous sorted.0 ++ bytes,
        n3,
        record {
          returns =
              rw (num1.returns, num2.returns, strip_lem a i j previous sorted.0, more.returns) refl;
          indexed = more.indexed;
          extends = λ k id e. more.extends k id (num2.extends k id (num1.extends k id e));
          bounded = omega (arith, num1.one_more, num2.one_more, more.bounded);
          reads = λ table rest e.
              read_announcements_step table (length as') previous _ (bytes ++ rest) rest a as'
                (rw append_assoc (
                  read_stripped a i j previous sorted.0 table (bytes ++ rest) fits.0 hi hj
                    (e i _ (more.extends i _ (num2.extends i _ num1.elem)))
                    (e j _ (more.extends j _ num2.elem))))
                (more.reads table rest e);
        },
      )
