-- ===== src/Config/Peers.antt =====
-- `ln_peers` and `resolve_peer_info` of src/config.rs: the peers named by an environment variable.
use rapid_gossip_sync_server.Prelude.{
  ℕ, List, [], ◌∷◌, ◌++◌, append_assoc, Option, none, some, Bool, true, false, if◌then◌else◌,
  Result, ok, panic, assertion, ◌>>=◌, ◌≡◌, refl, sym, ap, ◌∙◌,
}
use rapid_gossip_sync_server.Config.Texts.{characters, split, split_in_two, split-append}

pub data PeerError : Type 0 where
  wrong_format invalid_pubkey unresolved : PeerError

-- The `Result<(PublicKey, SocketAddr), &str>` of a peer.
pub data Resolved (Peer : Type 0) : Type 0 where
  peer : Peer → Resolved Peer
  refused : PeerError → Resolved Peer

-- `str::trim`, `Vec::from_hex`, `PublicKey::from_slice` and `to_socket_addrs`; `none` is an error.
pub record Parsers : Type 1 where
  pub PublicKey : Type 0
  pub SocketAddr : Type 0
  pub trim : List ℕ → List ℕ
  pub from_hex : List ℕ → Option (List ℕ)
  pub from_slice : List ℕ → Option PublicKey
  pub to_socket_addrs : List ℕ → Option (List SocketAddr)

abbrev pub is_empty : List ℕ → Bool
is_empty [] = true
is_empty (c ∷ text) = false

abbrev pub wallet_of_satoshi : List ℕ
wallet_of_satoshi =
    characters
      "035e4ff418fc8b5554c5d9eea66396c227bd429a3251c8cbc711002ba215bfc226@170.75.163.209:9735"

module _ (parsers : Parsers) where
  open parsers use {PublicKey, SocketAddr, trim, from_hex, from_slice, to_socket_addrs}

  abbrev pub Peer : Type 0
  Peer = PublicKey × SocketAddr

  -- The address after the `@`; the first one that it resolves to.
  unfoldable pub resolve_address : PublicKey → Option (List ℕ) → Resolved Peer
  resolve_address pubkey none = refused wrong_format
  resolve_address pubkey (some socket_address) = elim (to_socket_addrs socket_address) [
    | none ↦ refused unresolved
    | some addresses ↦ elim addresses [
      | [] ↦ refused unresolved
      | address ∷ others ↦ peer (pubkey, address)
    ]
  ]

  unfoldable pub resolve_peer_info : List ℕ → Resolved Peer
  resolve_peer_info peer_info =
      let (pubkey_hex, socket_address) = split_in_two b'@' peer_info in
      elim (from_hex pubkey_hex) [
        | none ↦ refused invalid_pubkey
        | some bytes ↦ elim (from_slice bytes) [
          | none ↦ refused invalid_pubkey
          | some pubkey ↦ resolve_address pubkey socket_address
        ]
      ]

  abbrev unwrap_peer : Resolved Peer → Result Peer
  unwrap_peer (peer p) = ok p
  unwrap_peer (refused e) = panic assertion

  -- An item that is empty once it is trimmed is ignored.
  unfoldable pub read_item : List ℕ → Result (List Peer)
  read_item peer_info =
      let trimmed = trim peer_info in
      if is_empty trimmed
      then ok []
      else unwrap_peer (resolve_peer_info trimmed) >>= (λ p. ok (p ∷ []))

  unfoldable pub read_items : List (List ℕ) → Result (List Peer)
  read_items [] = ok []
  read_items (item ∷ items) = do first ← read_item item; rest ← read_items items; ok (first ++ rest)

  unfoldable pub peers_of : List ℕ → Result (List Peer)
  peers_of list = read_items (split b',' [] list)

  unfoldable pub ln_peers : Option (List ℕ) → Result (List Peer)
  ln_peers none = peers_of wallet_of_satoshi
  ln_peers (some list) = peers_of list

  -- Both lists one after the other; a panic of either is one of the whole.
  unfoldable pub both : Result (List Peer) → Result (List Peer) → Result (List Peer)
  both first second = first >>= (λ ps. second >>= (λ qs. ok (ps ++ qs)))

  both_assoc : (a b c : Result (List Peer)) → both a (both b c) ≡ both (both a b) c
  unfolding both
  both_assoc (ok a) (ok b) (ok c) = ap ok (sym (append_assoc a b c))
  both_assoc (ok a) (ok b) (panic cause) = refl
  both_assoc (ok a) (panic cause) c = refl
  both_assoc (panic cause) b c = refl

  both-nil : (a : Result (List Peer)) → both (ok []) a ≡ a
  unfolding both
  both-nil (ok a) = refl
  both-nil (panic cause) = refl

  read_items-append :
      (items others : List (List ℕ))
      → read_items (items ++ others) ≡ both (read_items items) (read_items others)
  unfolding read_items both
  read_items-append [] others = sym (both-nil (read_items others))
  read_items-append (item ∷ items) others =
      ap (λ r. both (read_item item) r) (read_items-append items others)
      ∙ both_assoc (read_item item) (read_items items) (read_items others)

  -- Two lists of peers with a comma between them name the peers of the one and then those of the
  -- other, and are refused if either is; an item that is empty once it is trimmed, as a comma at
  -- an end or a repeated one makes it, names no peer.
  pub ln_peers-append :
      (list other : List ℕ)
      → (ln_peers (some (list ++ (b',' ∷ other)))
          ≡ both (ln_peers (some list)) (ln_peers (some other)))
        × (trim other ≡ [] → read_item other ≡ ok [])
  unfolding ln_peers peers_of read_item
  ln_peers-append list other = (
    ap read_items (split-append b',' [] list other)
        ∙ read_items-append (split b',' [] list) (split b',' [] other),
    λ blank. rw (read_item, blank) refl,
  )
