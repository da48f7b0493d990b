-- ===== src/Realtime/Channel/Membership.antt =====
-- Who subscribes to a channel after each operation.
use hypern.Prelude.{
  ℕ, String, ◌≡◌, ap, inl, inr, Bool, true, false, ◌&&◌, Option, [], arith, eq_iff, if◌then◌else◌,
  Option-cases, ◌==◌, or_default, elem, elem-discard, elem-include, string_eq, nat_eq,
}
use hypern.Prelude.Map
use hypern.Prelude.Map.{
  Map, Distinct, lookup-insert, lookup-remove, lookup-modify, lookup-map_entries,
}
use hypern.Realtime.Tokio.{Tokio}
use hypern.Realtime.Channel.{
  ChannelInner, ChannelManager, create_channel, remove_channel, has_channel, subscribe, unsubscribe,
  joined, left, published, related, publish, publish_to_topic, get_subscribers,
}

module _ (T : Tokio) where
  open T use {Chan}

  abbrev pub is_subscribed : String → String → ChannelManager Chan → Bool
  is_subscribed name id m = elem id (or_default [] (get_subscribers T name m))

  pub is_subscribed-create_channel :
      (name : String) (size : Option ℕ) (metadata : Option (Map String String))
      (m : ChannelManager Chan) (n k : String)
      → is_subscribed n k (create_channel T name size metadata m).0 ≡ is_subscribed n k m
  unfolding create_channel get_subscribers
  is_subscribed-create_channel name size metadata m n k = ground (
    arith,
    lookup-insert name n new_entry m.channels,
    eq_iff name n,
    λ (q : name ≡ n). ap (λ z. Map.lookup z m.channels) q,
  )
    where
      new_entry : ChannelInner Chan
      new_entry = record {
        sender = T.channel (or_default m.default_buffer_size size);
        subscribers = [];
        total_messages = 0;
        dropped_messages = 0;
        metadata = or_default [] metadata;
      }

  pub is_subscribed-remove_channel :
      (name : String) (m : ChannelManager Chan) (n k : String)
      → is_subscribed n k (remove_channel T name m).0
        ≡ (if name == n then false else is_subscribed n k m)
  unfolding remove_channel get_subscribers
  is_subscribed-remove_channel name m n k = ground (arith, lookup-remove name n m.channels)

  -- `subscribe` to a channel that exists makes the client a subscriber; nothing else changes.
  pub is_subscribed-subscribe :
      (name id : String) (m : ChannelManager Chan) (n k : String)
      → is_subscribed n k (subscribe T name id m).0
        ≡ (if has_channel T name m && (name == n && id == k) then true else is_subscribed n k m)
  unfolding subscribe get_subscribers has_channel
  is_subscribed-subscribe name id m n k = elim (Option-cases (Map.lookup name m.channels)) [
    | inl e ↦ ground (arith, e)
    | inr (c, e) ↦ ground (
      arith,
      e,
      lookup-modify name n (joined T id) m.channels,
      elem-include id k c.subscribers,
      eq_iff name n,
      λ (q : name ≡ n). ap (λ z. Map.lookup z m.channels) q,
    )
  ]

  -- `unsubscribe` makes the client no subscriber; nothing else changes.
  pub is_subscribed-unsubscribe :
      (name id : String) (m : ChannelManager Chan) (n k : String)
      → is_subscribed n k (unsubscribe T name id m).0
        ≡ (if name == n && id == k then false else is_subscribed n k m)
  unfolding unsubscribe get_subscribers
  is_subscribed-unsubscribe name id m n k = elim (Option-cases (Map.lookup n m.channels)) [
    | inl e ↦ ground (arith, e, lookup-modify name n (left T id) m.channels)
    | inr (c, e) ↦
        ground
          (arith, e, lookup-modify name n (left T id) m.channels, elem-discard id k c.subscribers)
  ]

  pub is_subscribed-publish :
      (name message : String) (m : ChannelManager Chan) (n k : String)
      → is_subscribed n k (publish T name message m).0 ≡ is_subscribed n k m
  unfolding publish get_subscribers
  is_subscribed-publish name message m n k =
      ground (arith, lookup-modify name n (published T message) m.channels)

  pub is_subscribed-publish_to_topic :
      (topic message : String) (m : ChannelManager Chan) (n k : String)
      → is_subscribed n k (publish_to_topic T topic message m).0 ≡ is_subscribed n k m
  unfolding publish_to_topic get_subscribers
  is_subscribed-publish_to_topic topic message m n k = ground (
    arith,
    lookup-map_entries n (λ name c. if related T topic name then published T message c else c)
        m.channels,
  )
