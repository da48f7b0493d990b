-- ===== src/Http/Streaming.antt =====
-- src/http/streaming.rs, `SSEStream` with `SSEBody`, `StreamingResponse` with `StreamingBody`, and
-- the response headers. The bounded channel is the parameter `T`; a handle and its body share it and
-- the flag `closed`. A text is sent as its bytes, so `SSEStream` sends texts here.
mod Response
mod World
mod Delivery
mod Client
mod Closing
mod Tests
use Prim.Native.String
use hypern.Http.Sse
use hypern.Http.Sse.{SseEvent, data_event, named, format, comment}
use hypern.Http.Mpsc.{Mpsc, Poll, ready}
use hypern.Prelude.{ℕ, ◌+◌, ◌%◌, ◌^◌, String, Bool, true, false, none, List, [], ◌∷◌, if◌then◌else◌}

-- What a handle and the body share.
pub record Shared (Chan : Type 0) : Type 0 where
  pub sender : Chan
  pub closed : Bool

pub record SseStream (Chan : Type 0) : Type 0 where
  pub shared : Shared Chan
  pub event_count : ℕ

-- sse_headers
abbrev pub sse_headers : List (String × String)
sse_headers =
    ("Content-Type", "text/event-stream")
    ∷ ("Cache-Control", "no-cache")
    ∷ ("Connection", "keep-alive")
    ∷ ("X-Accel-Buffering", "no")
    ∷ []

module _ (T : Mpsc String) (to_string : ℕ → String) where
  open T use {Chan, channel, try_send, poll_recv, drop_receiver}

  -- SSEStream::py_new: the receiver is dropped at once.
  abbrev pub py_new : ℕ → SseStream Chan
  py_new size = record {
    shared = record { sender = drop_receiver (channel size); closed = false };
    event_count = 0;
  }

  -- SSEBody::new: the stream, whose shared part is also the body's.
  abbrev pub new : ℕ → SseStream Chan
  new size = record { shared = record { sender = channel size; closed = false }; event_count = 0 }

  -- A handle that got this answer of `try_send`; `fetch_add` wraps.
  abbrev pub counted : SseStream Chan → Bool × Chan → Bool × SseStream Chan
  counted s (true, c) = (
    true,
    record s {
      shared = record { sender = c; closed = s.shared.closed };
      event_count = (s.event_count + 1) % 2 ^ 64;
    },
  )
  counted s (false, c) =
      (false, record s { shared = record { sender = c; closed = s.shared.closed } })

  abbrev pub uncounted : SseStream Chan → Bool × Chan → Bool × SseStream Chan
  uncounted s (ok, c) = (ok, record s { shared = record { sender = c; closed = s.shared.closed } })

  unfoldable pub send : SseEvent → SseStream Chan → Bool × SseStream Chan
  send e s =
      if s.shared.closed
      then (false, s)
      else counted s (try_send (format to_string e) s.shared.sender)

  unfoldable pub send_data : String → SseStream Chan → Bool × SseStream Chan
  unfolding send
  send_data bytes = send (data_event bytes)

  unfoldable pub send_event : String → String → SseStream Chan → Bool × SseStream Chan
  unfolding send
  send_event name bytes = send (named name bytes)

  unfoldable pub keepalive : SseStream Chan → Bool × SseStream Chan
  keepalive s =
      if s.shared.closed
      then (false, s)
      else uncounted s (try_send (comment "keepalive") s.shared.sender)

  abbrev pub close : SseStream Chan → SseStream Chan
  close s = record s { shared = record { sender = s.shared.sender; closed = true } }

  abbrev pub is_closed : SseStream Chan → Bool
  is_closed s = s.shared.closed

  -- SSEBody::poll_next
  unfoldable pub poll_next : Shared Chan → Poll String × Shared Chan
  poll_next b =
      let (polled, c) = poll_recv b.sender in
      if b.closed then (ready none, b) else (polled, record b { sender = c })
