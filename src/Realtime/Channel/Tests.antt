-- ===== src/Realtime/Channel/Tests.antt =====
-- Tests of the channel manager, and the theorems at concrete inputs.
use hypern.Prelude.{◌≡◌, refl, true, none, some, List, [], ◌∷◌, elem, string_eq, nat_eq}
use hypern.Prelude.Map
use hypern.Realtime.Tokio.Sample.{Queue, queue_tokio}
use hypern.Realtime.Topic
use hypern.Realtime.Topic.{match_topic}
use hypern.Realtime.Channel.{
  ChannelManager, ChannelInner, Call, creates, subscribes, matcher_subscribes, matcher_unsubscribes,
  new, step, run, create_channel, subscribe, unsubscribe, publish, publish_to_topic, get_stats,
  get_subscribers, has_channel,
}
use hypern.Realtime.Channel.{Subscriber}
use hypern.Realtime.Channel.Receiving.{try_recv, drain}
use hypern.Realtime.Channel.Routes.{match_topic-run}

channels : Unit {0}
unfolding step run create_channel subscribe unsubscribe publish publish_to_topic get_stats
    get_subscribers has_channel Map.insert Map.lookup Map.modify Map.map_entries
channels = tt

abbrev calls : List Call
calls = creates "chat:a" none none ∷ subscribes "chat:a" "ann" ∷ []

abbrev manager : ChannelManager Queue
manager = run queue_tokio (new queue_tokio 8) calls

abbrev chat : ChannelInner Queue
chat = record {
  sender = record { buffer = []; lag = 0; receivers = 1 };
  subscribers = "ann" ∷ [];
  total_messages = 0;
  dropped_messages = 0;
  metadata = [];
}

manager_test : Map.lookup "chat:a" manager.channels ≡ some chat
unfolding channels
manager_test = refl

publish_test : (publish queue_tokio "chat:a" "hi" manager).1 ≡ some 1
unfolding channels
publish_test = refl

-- Another client leaves the pattern behind the manager's back.
abbrev more_calls : List Call
more_calls =
    creates "chat:a" none none
    ∷ subscribes "chat:a" "ann"
    ∷ matcher_subscribes "chat:a" "bob"
    ∷ matcher_unsubscribes "chat:a" "bob"
    ∷ []

match_topic-run_example :
    elem "ann" (match_topic "chat:a" (run queue_tokio (new queue_tokio 8) more_calls).topic_matcher)
    ≡ true
match_topic-run_example =
    match_topic-run queue_tokio 8 more_calls "chat:a" "ann" (tt, (tt, (tt, (refl, tt))))
      (unfold channels in refl)

-- A client that leaves the pattern itself subscribes to the channel and is found no more.
cut_off_test :
    let m = run queue_tokio (new queue_tokio 8) (
      creates "chat:a" none none
      ∷ subscribes "chat:a" "ann"
      ∷ matcher_unsubscribes "chat:a" "ann"
      ∷ []) in
    (get_subscribers queue_tokio "chat:a" m ≡ some ("ann" ∷ []))
    × (match_topic "chat:a" m.topic_matcher ≡ [])
unfolding channels Topic.subscribe Topic.unsubscribe Topic.match_topic Map.remove
cut_off_test = (refl, refl)

-- A reader that has missed three messages and has two to read.
abbrev behind : Queue
behind = record { buffer = "x" ∷ "y" ∷ []; lag = 3; receivers = 1 }

abbrev reader : Subscriber (Unit {0})
reader = record {
  channel_name = "n";
  client_id = "ann";
  receiver = tt;
  received_count = 4;
  missed_count = 0;
}

drain_test :
    drain queue_tokio 4 reader behind []
    ≡ some (
      record reader { received_count = 6; missed_count = 3 },
      record behind { buffer = []; lag = 0 },
      "x" ∷ "y" ∷ [],
    )
unfolding drain
drain_test = refl

try_recv_test : (try_recv queue_tokio reader behind).2 ≡ some "x"
unfolding try_recv
try_recv_test = refl
