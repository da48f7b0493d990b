-- ===== src/Realtime/Channel.antt =====
-- src/realtime/channel.rs, `ChannelManager` and `Subscriber`: named channels with subscribers.
-- Each method is one atomic step. The manager and the matcher that its getter returns are one table,
-- so the calls on that matcher are steps as well. The tokio channel is the parameter `T`; counters do
-- not wrap.
mod Publishing
mod Membership
mod Routes
mod Receiving
mod Tests
use hypern.Prelude.{
  ℕ, ◌+◌, String, Bool, true, false, ◌||◌, Option, none, some, List, [], ◌∷◌, if◌then◌else◌,
  or_default, length, elem, discard, include, string_eq, nat_eq,
}
use hypern.Prelude.Map
use hypern.Prelude.Map.{Map}
use hypern.Realtime.Tokio.{Tokio}
use hypern.Realtime.Topic
use hypern.Realtime.Topic.{TopicMatcher, pattern_matches}

pub record ChannelInner (Chan : Type 0) : Type 0 where
  pub sender : Chan
  pub subscribers : List String
  pub total_messages : ℕ
  pub dropped_messages : ℕ
  pub metadata : Map String String

-- The matcher's table is behind an Arc that the getter `topic_matcher` hands out, so that calls from
-- outside change it as well: the constructors of `Call` that begin with `matcher`.
pub record ChannelManager (Chan : Type 0) : Type 0 where
  pub channels : Map String (ChannelInner Chan)
  pub default_buffer_size : ℕ
  pub topic_matcher : TopicMatcher

pub record Subscriber (Receiver : Type 0) : Type 0 where
  pub channel_name : String
  pub client_id : String
  pub receiver : Receiver
  pub received_count : ℕ
  pub missed_count : ℕ

pub record ChannelStats : Type 0 where
  pub name : String
  pub subscriber_count : ℕ
  pub total_messages : ℕ
  pub dropped_messages : ℕ
  pub metadata : Map String String

-- The calls that change the state.
pub data Call : Type 0 where
  creates : String → Option ℕ → Option (Map String String) → Call
  removes : String → Call
  subscribes unsubscribes publishes publishes_topic : String → String → Call
  clears : Call
  -- On the matcher that the getter `topic_matcher` hands out: it shares its table with the manager's.
  matcher_subscribes matcher_unsubscribes : String → String → Call
  matcher_unsubscribes_all : String → Call

module _ (T : Tokio) where
  open T use {Chan, Receiver, channel}

  -- ChannelManager::new
  abbrev pub new : ℕ → ChannelManager Chan
  new size = record { channels = []; default_buffer_size = size; topic_matcher = [] }

  unfoldable pub create_channel :
      String
      → Option ℕ
      → Option (Map String String)
      → ChannelManager Chan
      → ChannelManager Chan × Bool
  create_channel name buffer_size metadata m =
      if Map.contains_key name m.channels then (m, false) else (
        record m {
          channels =
              Map.insert name
                (record {
                  sender = channel (or_default m.default_buffer_size buffer_size);
                  subscribers = [];
                  total_messages = 0;
                  dropped_messages = 0;
                  metadata = or_default [] metadata;
                })
                m.channels;
        },
        true,
      )

  unfoldable pub remove_channel : String → ChannelManager Chan → ChannelManager Chan × Bool
  remove_channel name m =
      (record m { channels = Map.remove name m.channels }, Map.contains_key name m.channels)

  unfoldable pub has_channel : String → ChannelManager Chan → Bool
  has_channel name m = Map.contains_key name m.channels

  abbrev pub joined : String → ChannelInner Chan → ChannelInner Chan
  joined client_id c = record c {
    sender = (T.subscribe c.sender).1;
    subscribers = include client_id c.subscribers;
  }

  -- `none` is the KeyError.
  unfoldable pub subscribe :
      String → String → ChannelManager Chan → ChannelManager Chan × Option (Subscriber Receiver)
  subscribe channel_name client_id m = elim (Map.lookup channel_name m.channels) [
    | none ↦ (m, none)
    | some c ↦ (
      record m {
        channels = Map.modify channel_name (joined client_id) m.channels;
        topic_matcher = Topic.subscribe channel_name client_id m.topic_matcher;
      },
      some (record {
        channel_name = channel_name;
        client_id = client_id;
        receiver = (T.subscribe c.sender).0;
        received_count = 0;
        missed_count = 0;
      }),
    )
  ]

  abbrev pub left : String → ChannelInner Chan → ChannelInner Chan
  left client_id c = record c { subscribers = discard client_id c.subscribers }

  unfoldable pub unsubscribe : String → String → ChannelManager Chan → ChannelManager Chan × Bool
  unsubscribe channel_name client_id m = (
    record m {
      topic_matcher = (Topic.unsubscribe channel_name client_id m.topic_matcher).0;
      channels = Map.modify channel_name (left client_id) m.channels;
    },
    elim (Map.lookup channel_name m.channels) [
      | none ↦ false
      | some c ↦ elem client_id c.subscribers
    ],
  )

  abbrev pub published : String → ChannelInner Chan → ChannelInner Chan
  published message c = record c {
    total_messages = c.total_messages + 1;
    sender = (T.send message c.sender).1;
  }

  -- `Ok(n) => n`, `Err(_) => 0`
  abbrev pub receivers_of : String → ChannelInner Chan → ℕ
  receivers_of message c = or_default 0 (T.send message c.sender).0

  -- `none` is the KeyError.
  unfoldable pub publish : String → String → ChannelManager Chan → ChannelManager Chan × Option ℕ
  publish channel_name message m = elim (Map.lookup channel_name m.channels) [
    | none ↦ (m, none)
    | some c ↦ (
      record m { channels = Map.modify channel_name (published message) m.channels },
      some (receivers_of message c),
    )
  ]

  -- The pattern may stand on either side.
  abbrev pub related : String → String → Bool
  related topic name = pattern_matches topic name || pattern_matches name topic

  -- The sum that the loop of `publish_to_topic` builds.
  unfoldable pub total_receivers : String → String → Map String (ChannelInner Chan) → ℕ
  total_receivers topic message [] = 0
  total_receivers topic message ((name, c) ∷ m) =
      (if related topic name then receivers_of message c else 0) + total_receivers topic message m

  unfoldable pub publish_to_topic : String → String → ChannelManager Chan → ChannelManager Chan × ℕ
  unfolding total_receivers
  publish_to_topic topic message m = (
    record m {
      channels =
          Map.map_entries (λ name c. if related topic name then published message c else c)
            m.channels;
    },
    total_receivers topic message m.channels,
  )

  -- `none` is the KeyError.
  unfoldable pub get_stats : String → ChannelManager Chan → Option ChannelStats
  get_stats channel_name m = elim (Map.lookup channel_name m.channels) [
    | none ↦ none
    | some c ↦ some (record {
      name = channel_name;
      subscriber_count = length c.subscribers;
      total_messages = c.total_messages;
      dropped_messages = c.dropped_messages;
      metadata = c.metadata;
    })
  ]

  -- `none` is the KeyError.
  unfoldable pub get_subscribers : String → ChannelManager Chan → Option (List String)
  get_subscribers channel_name m = elim (Map.lookup channel_name m.channels) [
    | none ↦ none
    | some c ↦ some c.subscribers
  ]

  unfoldable pub clear : ChannelManager Chan → ChannelManager Chan
  clear m = record m { channels = [] }

  -- A call on the matcher that `topic_matcher` returned: the tables are one behind an Arc.
  abbrev pub with_matcher : TopicMatcher → ChannelManager Chan → ChannelManager Chan
  with_matcher matcher m = record m { topic_matcher = matcher }

  unfoldable pub step : ChannelManager Chan → Call → ChannelManager Chan
  step m (creates name size metadata) = (create_channel name size metadata m).0
  step m (removes name) = (remove_channel name m).0
  step m (subscribes name id) = (subscribe name id m).0
  step m (unsubscribes name id) = (unsubscribe name id m).0
  step m (publishes name message) = (publish name message m).0
  step m (publishes_topic topic message) = (publish_to_topic topic message m).0
  step m clears = clear m
  step m (matcher_subscribes pattern id) =
      with_matcher (Topic.subscribe pattern id m.topic_matcher) m
  step m (matcher_unsubscribes pattern id) =
      with_matcher (Topic.unsubscribe pattern id m.topic_matcher).0 m
  step m (matcher_unsubscribes_all id) = with_matcher (Topic.unsubscribe_all id m.topic_matcher).0 m

  unfoldable pub run : ChannelManager Chan → List Call → ChannelManager Chan
  run m [] = m
  run m (c ∷ cs) = run (step m c) cs
