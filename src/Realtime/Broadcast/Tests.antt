-- ===== src/Realtime/Broadcast/Tests.antt =====
-- Tests of the broadcast system, and the theorems at concrete inputs.
use mathlib.Core.Option
use hypern.Prelude.{◌≡◌, refl, true, some, [], ◌∷◌, arith, string_eq, nat_eq}
use hypern.Prelude.Map
use hypern.Realtime.Tokio.Sample.{Queue, queue_tokio, queue_laws}
use hypern.Realtime.Broadcast.{
  BroadcastInner, BroadcastConfig, BroadcastSubscriber, RealtimeBroadcast, error, delivered,
  runtime_error, create, send, send_on, subscribe, drain,
}
use hypern.Realtime.Broadcast.Dedup.{IsWindowed, send-IsWindowed, send_twice, counted_duplicate}
use hypern.Realtime.Broadcast.Receiving.{Drains, drain_lem}

broadcast : Unit {0}
unfolding create send send_on subscribe drain Map.insert Map.lookup Map.modify
broadcast = tt

abbrev strict : BroadcastConfig
strict = record { buffer_size = 4; policy = error; dedup_enabled = true; dedup_window = 2 }

abbrev idle : BroadcastInner Queue
idle = record {
  sender = record { buffer = []; lag = 0; receivers = 0 };
  config = strict;
  total_sent = 0;
  total_dropped = 0;
  total_deduped = 0;
  subscriber_count = 0;
  recent_ids = [];
}

abbrev one : RealtimeBroadcast Queue
one = ("n", idle) ∷ []

create_test : (create queue_tokio "n" (some strict) []).0 ≡ one
unfolding broadcast
create_test = refl

-- The first call raises, and the retry with the same id is taken for a duplicate.
retry_lost_test :
    ((send queue_tokio "n" "hi" (some "1") one).1 ≡ runtime_error)
    × ((send queue_tokio "n" "hi" (some "1") (send queue_tokio "n" "hi" (some "1") one).0).1
        ≡ delivered 0)
unfolding broadcast
retry_lost_test = (refl, refl)

send-IsWindowed_test : IsWindowed (send_on queue_tokio "hi" (some "1") idle).0
send-IsWindowed_test =
    send-IsWindowed queue_tokio "n" "hi" (some "1") one "n" idle
      (send_on queue_tokio "hi" (some "1") idle).0 (unfold broadcast in refl)
      (record { bounded = omega arith; unique = tt }) (unfold broadcast in refl)

send_twice_test :
    ((send queue_tokio "n" "again" (some "1") (send queue_tokio "n" "hi" (some "1") one).0).1
      ≡ delivered 0)
    × (Map.lookup "n"
          (send queue_tokio "n" "again" (some "1") (send queue_tokio "n" "hi" (some "1") one).0).0
        ≡ Option.map
            (counted_duplicate queue_tokio)
            (Map.lookup "n" (send queue_tokio "n" "hi" (some "1") one).0))
send_twice_test =
    send_twice queue_tokio "n" "hi" "again" "1" one idle (unfold broadcast in refl) refl
      (omega arith)

abbrev reader : BroadcastSubscriber (Unit {0})
reader = record { channel_name = "n"; receiver = tt; received = 0; lagged = 0 }

abbrev behind : Queue
behind = record { buffer = "x" ∷ "y" ∷ []; lag = 3; receivers = 1 }

drain_lem_example :
    Drains queue_tokio queue_laws reader
      ("x" ∷ "y" ∷ [])
      3
      []
      (drain queue_tokio 4 reader behind [])
drain_lem_example = drain_lem queue_tokio queue_laws 4 reader behind (omega arith)
