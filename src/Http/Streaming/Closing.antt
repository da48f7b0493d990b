-- ===== src/Http/Streaming/Closing.antt =====
-- A closed stream, and a stream whose receiver was dropped.
use hypern.Http.Mpsc.{Mpsc, Laws, Poll, ready}
use hypern.Http.Sse.{SseEvent, format, comment}
use hypern.Http.Streaming
use hypern.Http.Streaming.{Shared, SseStream, send, keepalive, poll_next}
use hypern.Http.Streaming.World.{
  Call, sends, keeps_alive, clones, closes, polls, World, Sent, event, comment_line, answered,
  on_handle, count_of, taken, step, run,
}
use hypern.Prelude.{
  ℕ, String, ◌≡◌, refl, ap, ◌∙◌, inl, Bool, true, false, Option, none, some, List, [], ◌∷◌, ◌++◌,
  append-nil,
}

module _ (T : Mpsc String) (to_string : ℕ → String) where
  open T use {Chan}

  -- The log and the channel are the same, and the stream is closed.
  abbrev pub IsFrozen : World Chan → World Chan → Type 0
  IsFrozen w v =
      (v.accepted ≡ w.accepted)
      × (v.delivered ≡ w.delivered)
      × (v.shared.sender ≡ w.shared.sender)
      × (v.shared.closed ≡ true)

  send-closed :
      (e : SseEvent) (h : SseStream Chan)
      → h.shared.closed ≡ true
      → send T to_string e h ≡ (false, h)
  unfolding send
  send-closed e h k = simp (k)

  keepalive-closed :
      (h : SseStream Chan) → h.shared.closed ≡ true → keepalive T to_string h ≡ (false, h)
  unfolding keepalive
  keepalive-closed h k = simp (k)

  poll_next-closed : (b : Shared Chan) → b.closed ≡ true → poll_next T to_string b ≡ (ready none, b)
  unfolding poll_next
  poll_next-closed b k = simp (k)

  answered-IsFrozen :
      (i : ℕ) (s : Sent) (w : World Chan) (r : Bool × SseStream Chan) (h : SseStream Chan)
      → r ≡ (false, h)
      → h.shared ≡ w.shared
      → w.shared.closed ≡ true
      → IsFrozen w (answered T to_string i s r w)
  answered-IsFrozen i s w r h e same k = rw (e) (
    append-nil w.accepted,
    refl,
    ap (λ (b : Shared Chan). b.sender) same,
    ap (λ (b : Shared Chan). b.closed) same ∙ k,
  )

  on_handle-IsFrozen :
      (o : Option ℕ) (act : SseStream Chan → World Chan) (w : World Chan)
      → w.shared.closed ≡ true
      → ((n : ℕ) → IsFrozen w (act (record { shared = w.shared; event_count = n })))
      → IsFrozen w (on_handle T to_string o act w)
  on_handle-IsFrozen none act w k h = (refl, refl, refl, k)
  on_handle-IsFrozen (some n) act w k h = h n

  step-IsFrozen :
      (c : Call) (w : World Chan) → w.shared.closed ≡ true → IsFrozen w (step T to_string c w)
  unfolding step
  step-IsFrozen (sends i e) w k = on_handle-IsFrozen (count_of i w.counts) _ w k λ n.
      let h : SseStream Chan = record { shared = w.shared; event_count = n } in
      answered-IsFrozen i (event e) w (send T to_string e h) h (send-closed e h k) refl k
  step-IsFrozen (keeps_alive i) w k = on_handle-IsFrozen (count_of i w.counts) _ w k λ n.
      let h : SseStream Chan = record { shared = w.shared; event_count = n } in
      answered-IsFrozen i comment_line w (keepalive T to_string h) h (keepalive-closed h k) refl k
  step-IsFrozen (clones i) w k =
      on_handle-IsFrozen (count_of i w.counts)
        (λ h. record w { counts = w.counts ++ h.event_count ∷ [] }) w k (λ n. (refl, refl, refl, k))
  step-IsFrozen (closes i) w k =
      on_handle-IsFrozen (count_of i w.counts)
        (λ h. record w { shared = (Streaming.close T to_string h).shared }) w k
        (λ n. (refl, refl, refl, refl))
  step-IsFrozen polls w k =
      let e : poll_next T to_string w.shared ≡ (ready none, w.shared) =
        poll_next-closed w.shared k in
      (
        refl,
        ap (λ (r : Poll String × Shared Chan). w.delivered ++ taken r.0) e ∙ append-nil w.delivered,
        ap (λ (r : Poll String × Shared Chan). r.1.sender) e,
        ap (λ (r : Poll String × Shared Chan). r.1.closed) e ∙ k,
      )

  -- Once a stream is closed nothing is sent and nothing is delivered any more, whichever handles
  -- call and however often the body is polled: what is queued at that time stays in the channel.
  pub run-IsFrozen :
      (cs : List Call) (w : World Chan) → w.shared.closed ≡ true → IsFrozen w (run T to_string cs w)
  unfolding run
  run-IsFrozen [] w k = (refl, refl, refl, k)
  run-IsFrozen (c ∷ cs) w k =
      let (a, d, s, still) = step-IsFrozen c w k in
      let (a2, d2, s2, closed) = run-IsFrozen cs (step T to_string c w) still in
      (a2 ∙ a, d2 ∙ d, s2 ∙ s, closed)

  try_send_dropped :
      (L : Laws T) (bytes : String) (c : Chan)
      → T.try_send bytes (T.drop_receiver c) ≡ (false, T.drop_receiver c)
  try_send_dropped L bytes c =
      let (refused, same) = L.send_full bytes (T.drop_receiver c) (inl (L.drop_disconnects c)) in
      λ i. (refused i, same i)

  -- A stream made by `py_new` refuses every event and keepalive and counts none.
  pub send-py_new :
      (L : Laws T) (size : ℕ) (e : SseEvent)
      → (send T to_string e (Streaming.py_new T to_string size)
          ≡ (false, Streaming.py_new T to_string size))
        × (keepalive T to_string (Streaming.py_new T to_string size)
            ≡ (false, Streaming.py_new T to_string size))
  unfolding send keepalive
  send-py_new L size e = (
    ap (Streaming.counted T to_string (Streaming.py_new T to_string size))
        (try_send_dropped L (format to_string e) (T.channel size)),
    ap (Streaming.uncounted T to_string (Streaming.py_new T to_string size))
        (try_send_dropped L (comment "keepalive") (T.channel size)),
  )
