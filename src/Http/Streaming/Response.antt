-- ===== src/Http/Streaming/Response.antt =====
-- src/http/streaming.rs, `StreamingResponse` and `StreamingBody`, over bytes. `as_bytes` is the UTF-8
-- of a text.
use Prim.Native.String
use hypern.Http.Streaming.{Shared}
use hypern.Http.Mpsc.{Mpsc, Poll, ready}
use hypern.Prelude.{ℕ, String, Bool, true, false, none, List, if◌then◌else◌}

pub record StreamingResponse (Chan : Type 0) : Type 0 where
  pub shared : Shared Chan
  pub content_type : String

module _ (T : Mpsc (List ℕ)) (as_bytes : String → List ℕ) where
  open T use {Chan, channel, try_send, poll_recv, drop_receiver}

  -- StreamingResponse::py_new: the receiver is dropped at once.
  abbrev pub py_new : String → ℕ → StreamingResponse Chan
  py_new content_type size = record {
    shared = record { sender = drop_receiver (channel size); closed = false };
    content_type = content_type;
  }

  -- StreamingBody::new: the response, whose shared part is also the body's.
  abbrev pub new : ℕ → String → StreamingResponse Chan
  new size content_type = record {
    shared = record { sender = channel size; closed = false };
    content_type = content_type;
  }

  unfoldable pub write : List ℕ → StreamingResponse Chan → Bool × StreamingResponse Chan
  write bytes r =
      let (ok, c) = try_send bytes r.shared.sender in
      if r.shared.closed
      then (false, r)
      else (ok, record r { shared = record { sender = c; closed = r.shared.closed } })

  unfoldable pub write_str : String → StreamingResponse Chan → Bool × StreamingResponse Chan
  unfolding write
  write_str text = write (as_bytes text)

  unfoldable pub write_line : String → StreamingResponse Chan → Bool × StreamingResponse Chan
  unfolding write
  write_line text = write (as_bytes (String.◌++◌ text "\n"))

  -- flush does nothing
  abbrev pub flush : StreamingResponse Chan → StreamingResponse Chan
  flush r = r

  abbrev pub close : StreamingResponse Chan → StreamingResponse Chan
  close r = record r { shared = record { sender = r.shared.sender; closed = true } }

  abbrev pub is_closed : StreamingResponse Chan → Bool
  is_closed r = r.shared.closed

  -- StreamingBody::poll_next
  unfoldable pub poll_next : Shared Chan → Poll (List ℕ) × Shared Chan
  poll_next b =
      let (polled, c) = poll_recv b.sender in
      if b.closed then (ready none, b) else (polled, record b { sender = c })
