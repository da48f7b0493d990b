-- ===== src/Realtime/Channel/Publishing.antt =====
-- What publishing counts.
use mathlib.Core.Option
use hypern.Prelude.{
  ℕ, ◌+◌, String, ◌≡◌, Option, some, arith, if◌then◌else◌, ◌==◌, string_eq, nat_eq,
}
use hypern.Prelude.Map
use hypern.Prelude.Map.{Map, lookup-modify, lookup-map_entries}
use hypern.Realtime.Tokio.{Tokio}
use hypern.Realtime.Channel.{
  ChannelInner, ChannelManager, ChannelStats, related, published, receivers_of, publish,
  publish_to_topic, get_stats,
}

abbrev pub messages_in : Option ChannelStats → Option ℕ
messages_in = Option.map (λ s. s.total_messages)

module _ (T : Tokio) where
  open T use {Chan}

  -- `publish_to_topic` counts one more message on each channel that is related to the topic, and
  -- none on any other.
  pub messages_in-publish_to_topic :
      (topic message : String) (m : ChannelManager Chan) (name : String)
      → messages_in (get_stats T name (publish_to_topic T topic message m).0)
        ≡ Option.map
            (λ n. if related T topic name then n + 1 else n)
            (messages_in (get_stats T name m))
  unfolding publish_to_topic get_stats
  messages_in-publish_to_topic topic message m name = ground (
    arith,
    lookup-map_entries name (λ name c. if related T topic name then published T message c else c)
        m.channels,
  )

  -- `publish` on a channel that exists returns what the channel's sender delivered, 0 if nobody
  -- received it, and counts one more message there and on no other channel.
  pub messages_in-publish :
      (channel_name message : String) (m : ChannelManager Chan) (c : ChannelInner Chan)
      (name : String)
      → Map.lookup channel_name m.channels ≡ some c
      → ((publish T channel_name message m).1 ≡ some (receivers_of T message c))
        × (messages_in (get_stats T name (publish T channel_name message m).0)
            ≡ Option.map
                (λ n. if channel_name == name then n + 1 else n)
                (messages_in (get_stats T name m)))
  unfolding publish get_stats
  messages_in-publish channel_name message m c name e = (
    rw (e, publish),
    ground (arith, e, lookup-modify channel_name name (published T message) m.channels),
  )
