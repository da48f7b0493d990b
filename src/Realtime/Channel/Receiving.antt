-- ===== src/Realtime/Channel/Receiving.antt =====
-- src/realtime/channel.rs, `Subscriber::try_recv` and `Subscriber::drain`, which are those of
-- broadcast.rs with other counters. The loop of `drain` takes fuel.
use mathlib.Core.Option
use hypern.Prelude.{ℕ, zero, suc, ◌+◌, String, ◌≡◌, refl, Option, none, some, List, [], ◌∷◌, ◌++◌}
use hypern.Realtime.Tokio.{Tokio, TryRecv}
use hypern.Realtime.Broadcast
use hypern.Realtime.Broadcast.{BroadcastSubscriber}
use hypern.Realtime.Channel.{Subscriber}

module _ (T : Tokio) where
  open T use {Chan, Receiver}

  unfoldable pub try_recv : Subscriber Receiver → Chan → Subscriber Receiver × Chan × Option String
  try_recv sub c =
      let (first, c') = T.try_recv sub.receiver c in
      let (second, c'') = T.try_recv sub.receiver c' in
      elim first [
        | TryRecv.received msg ↦
            (record sub { received_count = sub.received_count + 1 }, c', some msg)
        | TryRecv.empty ↦ (sub, c', none)
        | TryRecv.lagged n ↦
            let sub' = record sub { missed_count = sub.missed_count + n } in
            elim second [
              | TryRecv.received msg ↦
                  (record sub' { received_count = sub.received_count + 1 }, c'', some msg)
              | _ ↦ (sub', c'', none)
            ]
        | TryRecv.closed ↦ (sub, c', none)
      ]

  unfoldable pub drain :
      ℕ
      → Subscriber Receiver
      → Chan
      → List String
      → Option (Subscriber Receiver × Chan × List String)
  drain zero sub c messages = none
  drain (suc fuel) sub c messages =
      let (result, c') = T.try_recv sub.receiver c in
      elim result [
        | TryRecv.received msg ↦
            drain fuel (record sub { received_count = sub.received_count + 1 }) c'
              (messages ++ msg ∷ [])
        | TryRecv.lagged n ↦
            drain fuel (record sub { missed_count = sub.missed_count + n }) c' messages
        | TryRecv.empty ↦ some (sub, c', messages)
        | TryRecv.closed ↦ some (sub, c', messages)
      ]

  -- The subscriber of broadcast.rs with the same counts.
  abbrev pub as_broadcast : Subscriber Receiver → BroadcastSubscriber Receiver
  as_broadcast sub = record {
    channel_name = sub.channel_name;
    receiver = sub.receiver;
    received = sub.received_count;
    lagged = sub.missed_count;
  }

  -- Draining a subscriber of a channel gives the messages, and counts them, as draining the subscriber
  -- of broadcast.rs with the same counts does, and it ends with the same fuel.
  pub drain-as_broadcast :
      (fuel : ℕ) (sub : Subscriber Receiver) (c : Chan) (messages : List String)
      → Broadcast.drain T fuel (as_broadcast sub) c messages
        ≡ Option.map (λ o. (as_broadcast o.0, o.1, o.2)) (drain fuel sub c messages)
  unfolding drain Broadcast.drain
  drain-as_broadcast zero sub c messages = refl
  drain-as_broadcast (suc fuel) sub c messages =
      go (T.try_recv sub.receiver c).0 refl
        (λ sub' ms. drain-as_broadcast fuel sub' (T.try_recv sub.receiver c).1 ms)
    where
      go :
          (r : TryRecv)
          → (T.try_recv sub.receiver c).0 ≡ r
          → ((sub' : Subscriber Receiver) (ms : List String)
              → Broadcast.drain T fuel (as_broadcast sub') (T.try_recv sub.receiver c).1 ms
                ≡ Option.map
                    (λ o. (as_broadcast o.0, o.1, o.2))
                    (drain fuel sub' (T.try_recv sub.receiver c).1 ms))
          → Broadcast.drain T (suc fuel) (as_broadcast sub) c messages
            ≡ Option.map (λ o. (as_broadcast o.0, o.1, o.2)) (drain (suc fuel) sub c messages)
      go (TryRecv.received msg) e ih =
          rw (e, Broadcast.drain, drain)
            (ih (record sub { received_count = sub.received_count + 1 }) (messages ++ msg ∷ []))
      go (TryRecv.lagged n) e ih =
          rw (e, Broadcast.drain, drain)
            (ih (record sub { missed_count = sub.missed_count + n }) messages)
      go TryRecv.empty e ih = rw (e, Broadcast.drain, drain)
      go TryRecv.closed e ih = rw (e, Broadcast.drain, drain)
