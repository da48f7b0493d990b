-- ===== src/Http/Streaming/World.antt =====
-- Runs of the calls of any number of clones of a stream's handle, with the polls of its body.
use hypern.Http.Sse.{SseEvent, format, comment}
use hypern.Http.Streaming
use hypern.Http.Streaming.{Shared, SseStream, send, keepalive, poll_next}
use hypern.Http.Mpsc.{Mpsc, Poll, ready}
use hypern.Prelude.{
  ℕ, zero, suc, String, Bool, true, false, Option, none, some, List, [], ◌∷◌, ◌++◌,
}

-- A call on the handle with this number, or a poll of the body.
pub data Call : Type 0 where
  sends : ℕ → SseEvent → Call
  keeps_alive : ℕ → Call
  clones closes : ℕ → Call
  polls : Call

-- What a chunk in the channel stands for.
pub data Sent : Type 0 where
  event : SseEvent → Sent
  comment_line : Sent

-- The shared part, the `event_count` of each handle, and what was accepted and delivered so far.
pub record World (Chan : Type 0) : Type 0 where
  pub shared : Shared Chan
  pub counts : List ℕ
  pub accepted : List Sent
  pub delivered : List String

abbrev pub count_of : ℕ → List ℕ → Option ℕ
count_of i [] = none
count_of zero (n ∷ ns) = some n
count_of (suc i) (n ∷ ns) = count_of i ns

abbrev pub set_count : ℕ → ℕ → List ℕ → List ℕ
set_count i k [] = []
set_count zero k (n ∷ ns) = k ∷ ns
set_count (suc i) k (n ∷ ns) = n ∷ set_count i k ns

abbrev pub logged : Sent → Bool → List Sent
logged s true = s ∷ []
logged s false = []

abbrev pub taken : Poll String → List String
taken (ready (some bytes)) = bytes ∷ []
taken _ = []

module _ (to_string : ℕ → String) where
  abbrev pub chunk : Sent → String
  chunk (event e) = format to_string e
  chunk comment_line = comment "keepalive"

  abbrev pub chunks : List Sent → List String
  chunks [] = []
  chunks (s ∷ ss) = chunk s ∷ chunks ss

module _ (T : Mpsc String) (to_string : ℕ → String) where
  open T use {Chan}

  -- After a call on handle `i`.
  abbrev pub answered : ℕ → Sent → Bool × SseStream Chan → World Chan → World Chan
  answered i s (ok, h) w = record {
    shared = h.shared;
    counts = set_count i h.event_count w.counts;
    accepted = w.accepted ++ logged s ok;
    delivered = w.delivered;
  }

  abbrev pub on_handle : Option ℕ → (SseStream Chan → World Chan) → World Chan → World Chan
  on_handle none act w = w
  on_handle (some n) act w = act (record { shared = w.shared; event_count = n })

  unfoldable pub step : Call → World Chan → World Chan
  step (sends i e) w =
      on_handle (count_of i w.counts) (λ h. answered i (event e) (send T to_string e h) w) w
  step (keeps_alive i) w =
      on_handle (count_of i w.counts) (λ h. answered i comment_line (keepalive T to_string h) w) w
  step (clones i) w =
      on_handle (count_of i w.counts) (λ h. record w { counts = w.counts ++ h.event_count ∷ [] }) w
  step (closes i) w =
      on_handle (count_of i w.counts)
        (λ h. record w { shared = (Streaming.close T to_string h).shared }) w
  step polls w =
      let (polled, b) = poll_next T to_string w.shared in
      record w { shared = b; delivered = w.delivered ++ taken polled }

  unfoldable pub run : List Call → World Chan → World Chan
  run [] w = w
  run (c ∷ cs) w = run cs (step c w)

  -- SSEBody::new, one handle
  abbrev pub start : ℕ → World Chan
  start size = record {
    shared = (Streaming.new T to_string size).shared;
    counts = 0 ∷ [];
    accepted = [];
    delivered = [];
  }
