-- ===== src/Downloader/Channels.antt =====
-- The bounded `mpsc` channel from src/downloader.rs to src/persistence.rs, and how the downloader
-- sends on it: `try_send`, and a blocking `send` if the channel is full or closed. What the
-- persister does with a full channel is part of the state of the channel.
use rapid_gossip_sync_server.Prelude.{
  ℕ, ◌≤◌, ◌<◌, List, [], ◌∷◌, ◌++◌, append_assoc, length, take, length-append, Bool, false,
  if◌then◌else◌, ltb, Result, ok, panic, unwrap_none, blocked, ◌≡◌, refl, sym, arith, Option, none,
  some, Bool-cases, inl, inr, ◌∙◌, ap,
}

-- What the persister at the other end does while a sender waits for room in a full channel: it takes
-- a message, or it goes away, or it never takes one again.
pub data WhenFull : Type 0 where
  makes_room goes_away stalls : WhenFull

-- What the receiver has taken, in order, and what is queued.
pub record Channel (A : Type 0) : Type 0 where
  pub received : List A
  pub queue : List A
  pub capacity : ℕ
  pub is_closed : Bool
  pub when_full : WhenFull

module _ {A : Type 0} where
  unfoldable pub tail : List A → List A
  tail [] = []
  tail (message ∷ rest) = rest

  -- `recv`, if a message is there.
  unfoldable pub recv : Channel A → Channel A
  recv channel = record channel {
    received = channel.received ++ take 1 channel.queue;
    queue = tail channel.queue;
  }

  abbrev pub push : Channel A → A → Channel A
  push channel message = record channel { queue = channel.queue ++ (message ∷ []) }

  -- The wait of a sender, inside `block_on`: it ends with the message in the channel, in an error
  -- that is unwrapped, or not at all.
  unfoldable pub wait : WhenFull → Channel A → A → Result (Channel A)
  wait makes_room channel message = ok (push (recv channel) message)
  wait goes_away channel message = panic unwrap_none
  wait stalls channel message = panic blocked

  -- `send(…).await.unwrap()`: it fails on a closed channel, and waits on a full one.
  unfoldable pub send : Channel A → A → Result (Channel A)
  send channel message =
      if channel.is_closed
      then panic unwrap_none
      else if ltb (length channel.queue) channel.capacity
      then ok (push channel message)
      else wait channel.when_full channel message

  -- `none` is `TrySendError::Full` or `TrySendError::Closed`, which give the message back.
  unfoldable pub try_send : Channel A → A → Option (Channel A)
  try_send channel message =
      if channel.is_closed
      then none
      else if ltb (length channel.queue) channel.capacity
      then some (push channel message)
      else none

  -- How each of the `new_…` functions sends.
  unfoldable pub deliver : Channel A → A → Result (Channel A)
  deliver channel message = elim (try_send channel message) [
    | some sent ↦ ok sent
    | none ↦ send channel message
  ]

  -- Everything that was sent, in order.
  abbrev pub sent : Channel A → List A
  sent channel = channel.received ++ channel.queue

  -- The persister keeps its end, and makes room whenever a sender waits.
  pub record IsOpen (channel : Channel A) : Type 0 where
    pub not_closed : channel.is_closed ≡ false
    pub takes_on : channel.when_full ≡ makes_room

  -- There is room for one message at all, and no more is queued than there is room for.
  pub record IsBounded (channel : Channel A) : Type 0 where
    pub positive : 0 < channel.capacity
    pub bounded : length channel.queue ≤ channel.capacity

  -- What one message more does to a channel.
  pub record Delivers (channel : Channel A) (message : A) (channel' : Channel A) : Type 0 where
    pub appends : sent channel' ≡ sent channel ++ (message ∷ [])
    pub bounds : IsBounded channel → IsBounded channel'
    pub opens : IsOpen channel → IsOpen channel'

  take-tail : (q : List A) → take 1 q ++ tail q ≡ q
  unfolding tail
  take-tail [] = refl
  take-tail (m ∷ q) = refl

  length-tail : (q : List A) (n : ℕ) → 0 < n → length q ≤ n → length (tail q) < n
  unfolding tail
  length-tail [] n h k = h
  length-tail (m ∷ q) n h k = k

  push-Delivers :
      (channel : Channel A) (message : A)
      → length channel.queue < channel.capacity
      → Delivers channel message (push channel message)
  push-Delivers channel message h = record {
    appends = sym (append_assoc channel.received channel.queue (message ∷ []));
    bounds = λ k. record {
      positive = k.positive;
      bounded = omega (arith, h, length-append channel.queue (message ∷ []));
    };
    opens = λ k. record { not_closed = k.not_closed; takes_on = k.takes_on };
  }

  -- Receiving loses no message.
  pub recv-sent : (channel : Channel A) → sent (recv channel) ≡ sent channel
  unfolding recv
  recv-sent channel =
      append_assoc channel.received (take 1 channel.queue) (tail channel.queue)
      ∙ ap (λ q. channel.received ++ q) (take-tail channel.queue)

  recv-room :
      (channel : Channel A) → IsBounded channel → length (recv channel).queue < channel.capacity
  unfolding recv
  recv-room channel h = length-tail channel.queue channel.capacity h.positive h.bounded

  pub recv-IsBounded : (channel : Channel A) → IsBounded channel → IsBounded (recv channel)
  unfolding recv
  recv-IsBounded channel h = record {
    positive = h.positive;
    bounded = omega (arith, recv-room channel h);
  }

  pub recv-IsOpen : (channel : Channel A) → IsOpen channel → IsOpen (recv channel)
  unfolding recv
  recv-IsOpen channel h = record { not_closed = h.not_closed; takes_on = h.takes_on }

  recv-Delivers :
      (channel : Channel A) (message : A) → Delivers channel message (push (recv channel) message)
  unfolding recv
  recv-Delivers channel message = record {
    appends =
        sym (append_assoc (recv channel).received (recv channel).queue (message ∷ []))
        ∙ ap (λ q. q ++ (message ∷ [])) (recv-sent channel);
    bounds = λ k. record {
      positive = k.positive;
      bounded =
          omega (arith, recv-room channel k, length-append (recv channel).queue (message ∷ []));
    };
    opens = λ k. record { not_closed = k.not_closed; takes_on = k.takes_on };
  }

  -- What holds of the channel that a computation returns.
  abbrev Ensures : (Channel A → Type 0) → Result (Channel A) → Type 0
  Ensures P (ok channel) = P channel
  Ensures P (panic cause) = Unit

  deliver-Ensures :
      (channel : Channel A) (message : A)
      → Ensures (Delivers channel message) (deliver channel message)
  unfolding deliver try_send send wait
  deliver-Ensures channel message =
      ground (arith, push-Delivers channel message, recv-Delivers channel message)

  pub deliver-Delivers :
      (channel : Channel A) (message : A) (channel' : Channel A)
      → deliver channel message ≡ ok channel'
      → Delivers channel message channel'
  deliver-Delivers channel message channel' e = rw e at (deliver-Ensures channel message)

  -- An open channel takes the message.
  pub deliver-ok :
      (channel : Channel A) (message : A)
      → IsOpen channel
      → (channel' : Channel A) × (deliver channel message ≡ ok channel')
  unfolding deliver try_send send wait
  deliver-ok channel message h = elim (Bool-cases (ltb (length channel.queue) channel.capacity)) [
    | inl room ↦ (push channel message, ground (arith, h.not_closed, room))
    | inr full ↦ (push (recv channel) message, ground (arith, h.not_closed, h.takes_on, full))
  ]
