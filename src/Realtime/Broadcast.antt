-- ===== src/Realtime/Broadcast.antt =====
-- src/realtime/broadcast.rs: named broadcast channels with deduplication of message ids.
-- Each method is one atomic step. The tokio channel is the parameter `T`; counters do not wrap.
mod Dedup
mod Receiving
mod Tests
use hypern.Prelude.{
  ℕ, zero, suc, ◌+◌, ◌-◌, String, Bool, true, false, Option, none, some, List, [], ◌∷◌, ◌++◌, ltb,
  if◌then◌else◌, or_default, length, drop, elem, string_eq, nat_eq,
}
use hypern.Prelude.Map
use hypern.Prelude.Map.{Map}
use hypern.Realtime.Tokio
use hypern.Realtime.Tokio.{Tokio, TryRecv}

pub data BackpressurePolicy : Type 0 where
  drop_oldest error : BackpressurePolicy

pub record BroadcastConfig : Type 0 where
  pub buffer_size : ℕ
  pub policy : BackpressurePolicy
  pub dedup_enabled : Bool
  pub dedup_window : ℕ

abbrev pub default_config : BroadcastConfig
default_config = record {
  buffer_size = 256;
  policy = drop_oldest;
  dedup_enabled = false;
  dedup_window = 1000;
}

pub record BroadcastInner (Chan : Type 0) : Type 0 where
  pub sender : Chan
  pub config : BroadcastConfig
  pub total_sent : ℕ
  pub total_dropped : ℕ
  pub total_deduped : ℕ
  pub subscriber_count : ℕ
  pub recent_ids : List String

abbrev pub RealtimeBroadcast : Type 0 → Type 0
RealtimeBroadcast Chan = Map String (BroadcastInner Chan)

pub record BroadcastSubscriber (Receiver : Type 0) : Type 0 where
  pub channel_name : String
  pub receiver : Receiver
  pub received : ℕ
  pub lagged : ℕ

-- What `send` returns: a number of receivers, or the Python exception that it raises.
pub data SendResult : Type 0 where
  delivered : ℕ → SendResult
  key_error runtime_error : SendResult

-- recent.push(id), then recent.drain(0..excess) if the window is exceeded
abbrev pub remember : ℕ → String → List String → List String
remember window id recent =
    let recent' = recent ++ id ∷ [] in
    if ltb window (length recent') then drop (length recent' - window) recent' else recent'

module _ (T : Tokio) where
  open T use {Chan, Receiver, channel}

  unfoldable pub create :
      String → Option BroadcastConfig → RealtimeBroadcast Chan → RealtimeBroadcast Chan × Bool
  create name config b =
      let cfg = or_default default_config config in
      if Map.contains_key name b then (b, false) else (
        Map.insert name
            (record {
              sender = channel cfg.buffer_size;
              config = cfg;
              total_sent = 0;
              total_dropped = 0;
              total_deduped = 0;
              subscriber_count = 0;
              recent_ids = [];
            })
            b,
        true,
      )

  abbrev subscribed : BroadcastInner Chan → BroadcastInner Chan
  subscribed c = record c {
    sender = (T.subscribe c.sender).1;
    subscriber_count = c.subscriber_count + 1;
  }

  -- `none` is the KeyError.
  unfoldable pub subscribe :
      String
      → RealtimeBroadcast Chan
      → RealtimeBroadcast Chan × Option (BroadcastSubscriber Receiver)
  subscribe name b = elim (Map.lookup name b) [
    | none ↦ (b, none)
    | some c ↦ (
      Map.modify name subscribed b,
      some (record {
        channel_name = name;
        receiver = (T.subscribe c.sender).0;
        received = 0;
        lagged = 0;
      }),
    )
  ]

  -- From `channel.total_sent.fetch_add` to the end of `send`.
  unfoldable pub transmit : String → BroadcastInner Chan → BroadcastInner Chan × SendResult
  transmit message c =
      let (count, sender') = T.send message c.sender in
      let c' = record c { total_sent = c.total_sent + 1; sender = sender' } in
      elim count [
        | some n ↦ (c', delivered n)
        | none ↦ elim c.config.policy [
          | error ↦ (c', runtime_error)
          | drop_oldest ↦ (record c' { total_dropped = c.total_dropped + 1 }, delivered 0)
        ]
      ]

  -- `send` on a channel that exists.
  unfoldable pub send_on :
      String → Option String → BroadcastInner Chan → BroadcastInner Chan × SendResult
  unfolding transmit
  send_on message none c = transmit message c
  send_on message (some id) c =
      if c.config.dedup_enabled
      then (if elem id c.recent_ids
          then (record c { total_deduped = c.total_deduped + 1 }, delivered 0)
          else transmit message
              (record c { recent_ids = remember c.config.dedup_window id c.recent_ids }))
      else transmit message c

  unfoldable pub send :
      String → String → Option String → RealtimeBroadcast Chan → RealtimeBroadcast Chan × SendResult
  send name message message_id b = elim (Map.lookup name b) [
    | none ↦ (b, key_error)
    | some c ↦ (
      Map.modify name (λ _. (send_on message message_id c).0) b,
      (send_on message message_id c).1,
    )
  ]

  -- One round of `send_many`: no deduplication, and a failed send counts 0.
  abbrev pub send_plain : String → BroadcastInner Chan → BroadcastInner Chan × ℕ
  send_plain message c =
      let (count, sender') = T.send message c.sender in
      (record c { total_sent = c.total_sent + 1; sender = sender' }, or_default 0 count)

  -- The loop of `send_many`, over the names that are left and the results so far.
  unfoldable pub send_many :
      List String
      → String
      → RealtimeBroadcast Chan
      → Map String ℕ
      → RealtimeBroadcast Chan × Map String ℕ
  send_many [] message b results = (b, results)
  send_many (name ∷ names) message b results = elim (Map.lookup name b) [
    | none ↦ send_many names message b results
    | some c ↦
        send_many names message (Map.modify name (λ _. (send_plain message c).0) b)
          (Map.insert name (send_plain message c).1 results)
  ]

  unfoldable pub remove : String → RealtimeBroadcast Chan → RealtimeBroadcast Chan × Bool
  remove name b = (Map.remove name b, Map.contains_key name b)

  abbrev clear : RealtimeBroadcast Chan → RealtimeBroadcast Chan
  clear b = []

  -- Subscriber::try_recv: one more try after a lag.
  unfoldable pub try_recv :
      BroadcastSubscriber Receiver → Chan → BroadcastSubscriber Receiver × Chan × Option String
  try_recv sub c =
      let (first, c') = T.try_recv sub.receiver c in
      let (second, c'') = T.try_recv sub.receiver c' in
      elim first [
        | TryRecv.received msg ↦ (record sub { received = sub.received + 1 }, c', some msg)
        | TryRecv.empty ↦ (sub, c', none)
        | TryRecv.closed ↦ (sub, c', none)
        | TryRecv.lagged n ↦
            let sub' = record sub { lagged = sub.lagged + n } in
            elim second [
              | TryRecv.received msg ↦ (record sub' { received = sub.received + 1 }, c'', some msg)
              | _ ↦ (sub', c'', none)
            ]
      ]

  -- Subscriber::drain, with a bound on the rounds of the loop; `none` means that the bound was
  -- reached before the loop ended.
  unfoldable pub drain :
      ℕ
      → BroadcastSubscriber Receiver
      → Chan
      → List String
      → Option (BroadcastSubscriber Receiver × Chan × List String)
  drain zero sub c messages = none
  drain (suc fuel) sub c messages =
      let (result, c') = T.try_recv sub.receiver c in
      elim result [
        | TryRecv.received msg ↦
            drain fuel (record sub { received = sub.received + 1 }) c' (messages ++ msg ∷ [])
        | TryRecv.lagged n ↦ drain fuel (record sub { lagged = sub.lagged + n }) c' messages
        | TryRecv.empty ↦ some (sub, c', messages)
        | TryRecv.closed ↦ some (sub, c', messages)
      ]

  unfoldable pub has_channel : String → RealtimeBroadcast Chan → Bool
  has_channel name b = Map.contains_key name b

pub record BroadcastStats : Type 0 where
  pub total_sent : ℕ
  pub total_dropped : ℕ
  pub total_deduped : ℕ
  pub active_subscribers : ℕ
  pub channel_count : ℕ

module _ {Chan : Type 0} where
  -- `none` is the KeyError.
  unfoldable pub stats : String → RealtimeBroadcast Chan → Option BroadcastStats
  stats name b = elim (Map.lookup name b) [
    | none ↦ none
    | some c ↦ some (record {
      total_sent = c.total_sent;
      total_dropped = c.total_dropped;
      total_deduped = c.total_deduped;
      active_subscribers = c.subscriber_count;
      channel_count = 1;
    })
  ]

  -- One round of the loop of `global_stats`.
  abbrev pub count_in : BroadcastStats → BroadcastInner Chan → BroadcastStats
  count_in s c = record s {
    total_sent = s.total_sent + c.total_sent;
    total_dropped = s.total_dropped + c.total_dropped;
    total_deduped = s.total_deduped + c.total_deduped;
    active_subscribers = s.active_subscribers + c.subscriber_count;
  }

  global_loop : BroadcastStats → RealtimeBroadcast Chan → BroadcastStats
  global_loop s [] = s
  global_loop s ((k, c) ∷ b) = global_loop (count_in s c) b

  unfoldable pub global_stats : RealtimeBroadcast Chan → BroadcastStats
  unfolding global_loop
  global_stats b =
      global_loop
        (record {
          total_sent = 0;
          total_dropped = 0;
          total_deduped = 0;
          active_subscribers = 0;
          channel_count = length b;
        })
        b
