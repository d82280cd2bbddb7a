-- ===== src/Tests/Gossip.antt =====
-- The router of src/downloader.rs and the verifier on a small chain: block 0 has one transaction
-- with one output, and the native router accepts announcements of scid 0 only.
use rapid_gossip_sync_server.Prelude.{
  ◌<◌, map, ◌⊎◌, ℕ, zero, suc, ◌^◌, List, [], ◌∷◌, All, length, none, some, true, false, ok, panic,
  blocked, ◌≡◌, ◌≢◌, refl, arith,
}
use rapid_gossip_sync_server.Types.{
  SignedMessages, GossipMessage, node_announcement, channel_announcement,
}
use rapid_gossip_sync_server.Verifier.{
  Chain, full_block, block_height, transaction_index, output_index, answered, retrieve_block,
  Lookup, FundingAmounts, get_utxo, get_cached_funding_value, retrieve_funding_value,
  retrieve_cache_txo, find_in_block, find_output, cache_output, in_sats, cache_amount,
}
use rapid_gossip_sync_server.Prelude.Maps.{get, entry}
use rapid_gossip_sync_server.Verifier.Scids.{scid_of, scid_of-block_height}
use rapid_gossip_sync_server.Verifier.Funding.{IsOutput, IsServing, Looks, get_utxo-Looks}
use rapid_gossip_sync_server.Downloader.{
  Answer, MessageSendEvent, broadcast_channel_announcement, broadcast_node_announcement,
  other_event, NativeRouter, GossipRouter, handle_channel_announcement, relay,
  new_channel_announcement, funding_amount_sats, expect_amount, send_gossip,
}
use rapid_gossip_sync_server.Downloader.Forwards.{Forwards}
use rapid_gossip_sync_server.Downloader.Handlers.{handle_channel_announcement-Forwards}
use rapid_gossip_sync_server.Downloader.Channels.{
  Channel, makes_room, stalls, IsOpen, IsBounded, sent, deliver, try_send, send, wait,
}
use rapid_gossip_sync_server.Downloader.Reliance.{IsBroadcast, IsReliable, IsHarmless}
use rapid_gossip_sync_server.Downloader.NeverPanics.{run-ok}
use rapid_gossip_sync_server.Downloader.Runs.{
  Action, node_arrives, channel_arrives, update_arrives, polled, persister_takes, looks_up,
  persister_turns, native_moves, gossiper_moves, new_router, run,
}
use rapid_gossip_sync_server.Downloader.Accounts.{IsAccounted, run-IsAccounted}
use rapid_gossip_sync_server.Persistence.Tables.{Tables}
use rapid_gossip_sync_server.Persistence.Rows.{insert_of}
use rapid_gossip_sync_server.Persistence.Drain.{execute_all}
use rapid_gossip_sync_server.Startup.Laws.{IsTrueRow, run-IsTrueRow}
use rapid_gossip_sync_server.Tests.{toy_update}

abbrev pub toy_signed : SignedMessages
toy_signed = record {
  NodeAnnouncement = ℕ;
  ChannelAnnouncement = ℕ;
  ChannelUpdate = ℕ;
  public_key_hex = λ n. n ∷ [];
  encoded_features = λ n. [];
  written_addresses = λ n. [];
  node_timestamp = λ n. n;
  write_node_announcement = λ n. n ∷ [];
  short_channel_id = λ n. n;
  write_channel_announcement = λ n. n ∷ [];
  update_contents = λ n. toy_update n 1 1000;
  write_channel_update = λ n. n ∷ [];
}

abbrev pub toy_chain : Chain
toy_chain = record {
  BlockHash = ℕ;
  Block = List (List ℕ);
  Transaction = List ℕ;
  TxOut = ℕ;
  txdata = λ block. block;
  output = λ transaction. transaction;
  to_sat = λ txo. txo;
  from_slice = λ bytes. some (length bytes);
  block_hash_by_height = λ height. some (height ∷ []);
  get_block = λ hash. full_block ((500 ∷ []) ∷ []);
}

abbrev accept : ℕ → Answer
accept zero = some true
accept (suc scid) = none

-- The state is the list of the pending events; a handler queues a query.
abbrev pub toy_native : NativeRouter toy_signed
toy_native = record {
  State = List (MessageSendEvent toy_signed);
  PublicKey = ℕ;
  handle_node_announcement = λ state peer msg. (some true, other_event ∷ state);
  handle_channel_announcement = λ state peer msg. (accept msg, other_event ∷ state);
  handle_channel_update = λ state peer msg. (some false, other_event ∷ state);
  get_and_clear_pending_msg_events = λ state. (state, []);
}

toy_IsServing : IsServing toy_chain
toy_IsServing = record { hashes_parse = λ height bytes e fails. cc; blocks_whole = λ hash same. cc }

toy_IsOutput : IsOutput toy_chain 0 500
unfolding block_height transaction_index output_index retrieve_block answered
toy_IsOutput = record {
  block = (500 ∷ []) ∷ [];
  transaction = 500 ∷ [];
  retrieved = refl;
  in_block = refl;
  in_transaction = refl;
}

accepts_funded : (scid : ℕ) → accept scid ≢ none → (o : ℕ) × IsOutput toy_chain scid o
accepts_funded zero accepted = (500, toy_IsOutput)
accepts_funded (suc scid) accepted = absurd (accepted refl)

-- The native router may have anything pending, the outbound gossiper broadcasts only.
abbrev AnyEvents : List (MessageSendEvent toy_signed) → Type 0
AnyEvents pending = Unit

abbrev OnlyBroadcasts : List (MessageSendEvent toy_signed) → Type 0
OnlyBroadcasts pending = All (IsBroadcast toy_signed toy_native toy_chain) pending

toy_IsReliable : IsReliable toy_signed toy_native toy_chain AnyEvents OnlyBroadcasts
toy_IsReliable = record {
  serving = toy_IsServing;
  accepts_funded = λ state peer msg is_native accepted. accepts_funded msg accepted;
  node_handled = λ state peer msg is_native. tt;
  channel_handled = λ state peer msg is_native. tt;
  update_handled = λ state peer msg is_native. tt;
  native_cleared = λ state is_native. tt;
  broadcasts = λ state is_outbound. is_outbound;
  outbound_cleared = λ state is_outbound. tt;
}

abbrev pub toy_channel : Channel (GossipMessage toy_signed)
toy_channel = record {
  received = [];
  queue = [];
  capacity = 2;
  is_closed = false;
  when_full = makes_room;
}

toy_channel-IsOpen : IsOpen toy_channel
toy_channel-IsOpen = record { not_closed = refl; takes_on = refl }

toy_channel-IsBounded : IsBounded toy_channel
toy_channel-IsBounded = record { positive = omega arith; bounded = omega arith }

abbrev broadcasts : List (MessageSendEvent toy_signed)
broadcasts = broadcast_channel_announcement 0 ∷ broadcast_node_announcement 8 ∷ []

-- The third message that is sent finds the channel full.
abbrev toy_actions : List (Action toy_signed toy_native toy_chain)
toy_actions =
    node_arrives none 7
    ∷ channel_arrives none 0
    ∷ channel_arrives (some 1) 3
    ∷ update_arrives none 0
    ∷ persister_takes
    ∷ looks_up 0
    ∷ native_moves (other_event ∷ [])
    ∷ gossiper_moves broadcasts
    ∷ persister_turns false makes_room
    ∷ polled
    ∷ []

toy_actions-IsHarmless :
    All (IsHarmless toy_signed toy_native toy_chain AnyEvents OnlyBroadcasts) toy_actions
toy_actions-IsHarmless = (
  tt,
  (tt, (tt, (tt, (tt, (tt, (tt, (((500, toy_IsOutput), (tt, tt)), ((refl, refl), (tt, tt))))))))),
)

-- If the persister never takes a message again, a send on a full channel waits for ever.
waits_for_ever :
    deliver
      (record toy_channel {
        queue = node_announcement 7 none ∷ node_announcement 8 none ∷ [];
        when_full = stalls;
      })
      (node_announcement 9 none)
    ≡ panic blocked
unfolding deliver try_send send wait
waits_for_ever = refl

abbrev Ran : GossipRouter toy_signed toy_native → Type 0
Ran router =
    run toy_signed toy_native toy_chain
      (new_router toy_signed toy_native toy_chain [] [] toy_channel) toy_actions
    ≡ ok router

run-ok_example :
    (router : GossipRouter toy_signed toy_native) × Ran router
    × IsAccounted toy_signed toy_native toy_chain [] router
run-ok_example =
    run-ok toy_signed toy_native toy_chain AnyEvents OnlyBroadcasts [] [] toy_channel toy_actions
      toy_IsReliable toy_channel-IsOpen toy_channel-IsBounded tt tt toy_actions-IsHarmless

toy_router : (router : GossipRouter toy_signed toy_native) × Ran router
toy_router =
    let (router, e, h) =
      run-ok toy_signed toy_native toy_chain AnyEvents OnlyBroadcasts [] [] toy_channel toy_actions
        toy_IsReliable toy_channel-IsOpen toy_channel-IsBounded tt tt toy_actions-IsHarmless in
    (router, e)

run-IsAccounted_example : IsAccounted toy_signed toy_native toy_chain [] toy_router.0
run-IsAccounted_example =
    run-IsAccounted toy_signed toy_native toy_chain [] [] toy_channel toy_actions toy_router.0
      toy_channel-IsBounded toy_router.1

get_utxo-Looks_example :
    (txo : Lookup ℕ) × (amounts' : FundingAmounts) × (get_utxo toy_chain [] 0 ≡ ok (txo, amounts'))
    × Looks toy_chain 0 [] txo amounts'
get_utxo-Looks_example = get_utxo-Looks toy_chain 0 [] toy_IsServing

scid_of-block_height_example :
    (block_height 769658139443200001 < 2 ^ 24)
    × (transaction_index 769658139443200001 < 2 ^ 24)
    × (output_index 769658139443200001 < 2 ^ 16)
    × (scid_of
          (block_height 769658139443200001)
          (transaction_index 769658139443200001)
          (output_index 769658139443200001)
        ≡ 769658139443200001)
scid_of-block_height_example = scid_of-block_height 769658139443200001 (omega arith)

abbrev new_toy : GossipRouter toy_signed toy_native
new_toy = new_router toy_signed toy_native toy_chain [] [] toy_channel

-- The announcement of scid 0 is accepted and sent with the amount of its output.
abbrev accepted : Answer × GossipRouter toy_signed toy_native
accepted = (
  some true,
  record new_toy {
    native_router = other_event ∷ [];
    counter = record new_toy.counter { channel_announcements = 1 };
    sender = record toy_channel { queue = channel_announcement 0 500 none ∷ [] };
    amounts = (0, 500) ∷ [];
  },
)

is_accepted :
    handle_channel_announcement toy_signed toy_native toy_chain new_toy none 0 ≡ ok accepted
unfolding handle_channel_announcement relay new_channel_announcement funding_amount_sats
    get_cached_funding_value get retrieve_funding_value retrieve_cache_txo find_in_block find_output
    cache_output in_sats cache_amount entry retrieve_block answered block_height transaction_index
    output_index expect_amount send_gossip deliver try_send
is_accepted = refl

handle_channel_announcement-Forwards_example :
    let started = record new_toy { native_router = other_event ∷ [] } in
    (accepted.0 ≡ some true)
    × (((◌≡◌ {A = Answer} (some true) none) × (accepted.1 ≡ started))
        ⊎ ((◌≢◌ {A = Answer} (some true) none)
            × (sats : ℕ) × Forwards toy_signed toy_native toy_chain started
                (channel_announcement 0 sats none)
                accepted.1))
handle_channel_announcement-Forwards_example =
    handle_channel_announcement-Forwards toy_signed toy_native toy_chain new_toy none 0 accepted
      is_accepted

abbrev no_tables : Tables
no_tables = record { node_announcements = []; channel_announcements = []; channel_updates = [] }

run-IsTrueRow_example :
    All
      (IsTrueRow toy_chain)
      (execute_all
        (map (insert_of toy_signed) (sent toy_router.0.sender))
        no_tables).channel_announcements
run-IsTrueRow_example =
    run-IsTrueRow toy_signed toy_native toy_chain [] [] toy_channel toy_actions toy_router.0
      no_tables toy_channel-IsBounded refl toy_router.1 tt
