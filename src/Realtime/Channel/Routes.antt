-- ===== src/Realtime/Channel/Routes.antt =====
-- The subscribers of the channels and the topic matcher.
use hypern.Prelude.{
  ℕ, String, ◌≡◌, refl, sym, subst, true, false, ◌&&◌, Option, List, [], ◌∷◌, arith, eq_refl,
  if◌then◌else◌, if-both, ◌==◌, elem, string_eq, nat_eq,
}
use hypern.Prelude.Map
use hypern.Prelude.Map.{
  Map, Distinct, lookup-insert, lookup-remove, lookup-modify, lookup-map_entries,
}
use hypern.Realtime.Channel.Membership.{
  is_subscribed, is_subscribed-create_channel, is_subscribed-remove_channel,
  is_subscribed-subscribe, is_subscribed-unsubscribe, is_subscribed-publish,
  is_subscribed-publish_to_topic,
}
use hypern.Realtime.Tokio.{Tokio}
use hypern.Realtime.Topic
use hypern.Realtime.Topic.{clients_of, match_topic}
use hypern.Realtime.Topic.Subscriptions.{
  elem-clients_of-subscribe, elem-clients_of-unsubscribe, elem-clients_of-unsubscribe_all,
  subscribe-Distinct, unsubscribe-Distinct, unsubscribe_all-Distinct, match_topic_of_subscribed,
  pattern_matches_self,
}
use hypern.Realtime.Channel.{
  ChannelManager, Call, creates, removes, subscribes, unsubscribes, publishes, publishes_topic,
  clears, matcher_subscribes, matcher_unsubscribes, matcher_unsubscribes_all, new, create_channel,
  remove_channel, has_channel, subscribe, unsubscribe, publish, publish_to_topic, get_subscribers,
  clear, step, run,
}

-- The call does not take the client's subscription to the name out of the matcher behind the
-- manager's back.
abbrev pub Spares : String → String → Call → Type 0
Spares n k (matcher_unsubscribes pattern id) = (pattern == n && id == k) ≡ false
Spares n k (matcher_unsubscribes_all id) = (id == k) ≡ false
Spares n k _ = Unit

abbrev pub AllSpare : String → String → List Call → Type 0
AllSpare n k [] = Unit
AllSpare n k (c ∷ cs) = Spares n k c × AllSpare n k cs

module _ (T : Tokio) where
  open T use {Chan}

  -- A client that subscribes to a channel is subscribed to its name in the topic matcher, which has
  -- each pattern once.
  abbrev IsRouted : String → String → ChannelManager Chan → Type 0
  IsRouted n k m =
      Distinct m.topic_matcher
      × (is_subscribed T n k m ≡ true → elem k (clients_of n m.topic_matcher) ≡ true)

  matcher-publish :
      (name message : String) (m : ChannelManager Chan)
      → (publish T name message m).0.topic_matcher ≡ m.topic_matcher
  unfolding publish
  matcher-publish name message m = ground arith

  matcher-create_channel :
      (name : String) (size : Option ℕ) (metadata : Option (Map String String))
      (m : ChannelManager Chan)
      → (create_channel T name size metadata m).0.topic_matcher ≡ m.topic_matcher
  unfolding create_channel
  matcher-create_channel name size metadata m = ground arith

  matcher-subscribe :
      (name id : String) (m : ChannelManager Chan)
      → (subscribe T name id m).0.topic_matcher ≡ (
          if has_channel T name m then Topic.subscribe name id m.topic_matcher else m.topic_matcher)
  unfolding subscribe has_channel
  matcher-subscribe name id m = ground arith

  subscribe-IsRouted :
      (name id : String) (m : ChannelManager Chan) (n k : String)
      → IsRouted n k m
      → IsRouted n k (subscribe T name id m).0
  subscribe-IsRouted name id m n k (d, v) = (
    subst Distinct (sym (matcher-subscribe name id m)) (
        if-both (Distinct {K = String} {V = List String}) (has_channel T name m)
          (subscribe-Distinct name id m.topic_matcher d) d),
    λ h. ground (
      arith,
      v,
      h,
      is_subscribed-subscribe T name id m n k,
      matcher-subscribe name id m,
      elem-clients_of-subscribe name id n k m.topic_matcher,
    ),
  )

  step-IsRouted :
      (m : ChannelManager Chan) (c : Call) (n k : String)
      → Spares n k c
      → IsRouted n k m
      → IsRouted n k (step T m c)
  unfolding step get_subscribers
  step-IsRouted m (creates name size metadata) n k s (d, v) = (
    subst Distinct (sym (matcher-create_channel name size metadata m)) d,
    λ h. ground (
      arith,
      v,
      h,
      is_subscribed-create_channel T name size metadata m n k,
      matcher-create_channel name size metadata m,
    ),
  )
  step-IsRouted m (removes name) n k s (d, v) =
      unfold remove_channel in
      (d, λ h. ground (arith, v, h, is_subscribed-remove_channel T name m n k))
  step-IsRouted m (subscribes name id) n k s r = subscribe-IsRouted name id m n k r
  step-IsRouted m (unsubscribes name id) n k s (d, v) =
      unfold unsubscribe in
      (
        unsubscribe-Distinct name id m.topic_matcher d,
        λ h. ground (
          arith,
          v,
          h,
          is_subscribed-unsubscribe T name id m n k,
          elem-clients_of-unsubscribe name id n k m.topic_matcher,
        ),
      )
  step-IsRouted m (publishes name message) n k s (d, v) = (
    subst Distinct (sym (matcher-publish name message m)) d,
    λ h.
        ground
          (arith, v, h, is_subscribed-publish T name message m n k, matcher-publish name message m),
  )
  step-IsRouted m (publishes_topic topic message) n k s (d, v) =
      unfold publish_to_topic in
      (d, λ h. ground (arith, v, h, is_subscribed-publish_to_topic T topic message m n k))
  step-IsRouted m clears n k s (d, v) =
      unfold clear in (d, λ h. absurd (unfold get_subscribers Map.lookup in ground (arith, h)))
  step-IsRouted m (matcher_subscribes pattern id) n k s (d, v) = (
    subscribe-Distinct pattern id m.topic_matcher d,
    λ h. ground (arith, v h, elem-clients_of-subscribe pattern id n k m.topic_matcher),
  )
  step-IsRouted m (matcher_unsubscribes pattern id) n k s (d, v) = (
    unsubscribe-Distinct pattern id m.topic_matcher d,
    λ h. ground (arith, v h, s, elem-clients_of-unsubscribe pattern id n k m.topic_matcher),
  )
  step-IsRouted m (matcher_unsubscribes_all id) n k s (d, v) = (
    unsubscribe_all-Distinct id m.topic_matcher d,
    λ h. ground (arith, v h, s, elem-clients_of-unsubscribe_all id n k m.topic_matcher d),
  )

  run-IsRouted :
      (m : ChannelManager Chan) (cs : List Call) (n k : String)
      → AllSpare n k cs
      → IsRouted n k m
      → IsRouted n k (run T m cs)
  unfolding run
  run-IsRouted m [] n k s v = v
  run-IsRouted m (c ∷ cs) n k (s, ss) v =
      run-IsRouted (step T m c) cs n k ss (step-IsRouted m c n k s v)

  -- After any calls on a new manager and on the matcher that it hands out, a client that subscribes to
  -- a channel is among the clients that the topic matcher finds for the channel's name, unless a call
  -- of the matcher's own `unsubscribe` named this client and channel, or one of its `unsubscribe_all`
  -- this client.
  pub match_topic-run :
      (size : ℕ) (calls : List Call) (name id : String)
      → AllSpare name id calls
      → is_subscribed T name id (run T (new T size) calls) ≡ true
      → elem id (match_topic name (run T (new T size) calls).topic_matcher) ≡ true
  match_topic-run size calls name id s h =
      match_topic_of_subscribed id name name (run T (new T size) calls).topic_matcher
        (pattern_matches_self name)
        ((run-IsRouted (new T size) calls name id s
            (tt, λ e. unfold get_subscribers Map.lookup in ground arith)).1
          h)

  -- Removing a channel that a client subscribed to, or clearing all, leaves the client in the topic
  -- matcher: the channel is gone, and its name still finds the client.
  pub stale_route :
      (name id : String) (m : ChannelManager Chan)
      → has_channel T name m ≡ true
      → let subscribed = (subscribe T name id m).0 in
        let removed = (remove_channel T name subscribed).0 in
        let cleared = clear T subscribed in
        (has_channel T name removed ≡ false)
        × (elem id (match_topic name removed.topic_matcher) ≡ true)
        × (has_channel T name cleared ≡ false)
        × (elem id (match_topic name cleared.topic_matcher) ≡ true)
  stale_route name id m h = (
    unfold has_channel remove_channel in
        ground (arith, eq_refl name, lookup-remove name name subscribed.channels),
    unfold remove_channel in found,
    unfold has_channel clear Map.lookup in refl,
    unfold clear in found,
  )
    where
      subscribed : ChannelManager Chan
      subscribed = (subscribe T name id m).0

      found : elem id (match_topic name subscribed.topic_matcher) ≡ true
      found =
          match_topic_of_subscribed id name name subscribed.topic_matcher
            (pattern_matches_self name)
            (ground (
              arith,
              h,
              matcher-subscribe name id m,
              elem-clients_of-subscribe name id name id m.topic_matcher,
              eq_refl name,
              eq_refl id,
            ))
