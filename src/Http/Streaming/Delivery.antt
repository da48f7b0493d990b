-- ===== src/Http/Streaming/Delivery.antt =====
-- What the handles of a stream send is what its body delivers.
use hypern.Http.Mpsc.{Mpsc, Laws, Poll}
use hypern.Http.Sse.{SseEvent, format, comment}
use hypern.Http.Streaming
use hypern.Http.Streaming.{Shared, SseStream, send, keepalive, poll_next}
use hypern.Http.Streaming.World.{
  Call, sends, keeps_alive, clones, closes, polls, World, Sent, event, comment_line, answered,
  on_handle, count_of, taken, chunk, chunks, step, run, start,
}
use hypern.Prelude.{
  ℕ, ◌+◌, ◌≤◌, ◌<◌, String, ◌≡◌, refl, sym, ap, ◌∙◌, ◌⊎◌, inl, inr, Bool, true, false, Option, none,
  some, List, [], ◌∷◌, ◌++◌, append-nil, append_assoc, arith, ltb, if-both, Bool-cases, length,
  length-append,
}

module _ (to_string : ℕ → String) where
  chunks-append :
      (xs ys : List Sent) → chunks to_string (xs ++ ys) ≡ chunks to_string xs ++ chunks to_string ys
  chunks-append [] ys = refl
  chunks-append (x ∷ xs) ys = rw (chunks-append xs ys)

module _ (T : Mpsc String) (to_string : ℕ → String) where
  open T use {Chan}

  module _ (L : Laws T) where
    open L use {queued, capacity, connected}

    -- A chunk is put behind the others in a channel that was not full, or nothing happens.
    abbrev Offers : String → Shared Chan → Bool → Shared Chan → Type 0
    Offers bytes b ok d =
        ((ok ≡ true)
          × (queued d.sender ≡ queued b.sender ++ bytes ∷ [])
          × (capacity d.sender ≡ capacity b.sender)
          × (length (queued b.sender) < capacity b.sender))
        ⊎ ((ok ≡ false)
            × (queued d.sender ≡ queued b.sender)
            × (capacity d.sender ≡ capacity b.sender))

    Refused : (bytes : String) (b : Shared Chan) → Offers bytes b false b
    Refused bytes b = inr (refl, refl, refl)

    abbrev with_sender : Shared Chan → Chan → Shared Chan
    with_sender b c = record { sender = c; closed = b.closed }

    try_send-Offers :
        (bytes : String) (b : Shared Chan)
        → Offers bytes b (T.try_send bytes b.sender).0 (with_sender b (T.try_send bytes b.sender).1)
    try_send-Offers bytes b = elim (Bool-cases (connected b.sender)) [
      | inr e ↦
          let (refused, same) = L.send_full bytes b.sender (inl e) in
          inr (refused, ap queued same, ap capacity same)
      | inl e ↦ elim (Bool-cases (ltb (length (queued b.sender)) (capacity b.sender))) [
        | inl lt ↦
            let fits : length (queued b.sender) < capacity b.sender = ground arith in
            let (ok, q, cap, _) = L.send_fits bytes b.sender e fits in inl (ok, q, cap, fits)
        | inr ge ↦
            let full : capacity b.sender ≤ length (queued b.sender) = ground arith in
            let (refused, same) = L.send_full bytes b.sender (inr full) in
            inr (refused, ap queued same, ap capacity same)
      ]
    ]

    counted-Offers :
        (bytes : String) (h : SseStream Chan) (r : Bool × Chan)
        → Offers bytes h.shared r.0 (with_sender h.shared r.1)
        → Offers bytes h.shared
            (Streaming.counted T to_string h r).0
            (Streaming.counted T to_string h r).1.shared
    counted-Offers bytes h (true, c) o = o
    counted-Offers bytes h (false, c) o = o

    send-Offers :
        (e : SseEvent) (h : SseStream Chan)
        → Offers
            (format to_string e)
            h.shared
            (send T to_string e h).0
            (send T to_string e h).1.shared
    unfolding send
    send-Offers e h =
        if-both (λ (r : Bool × SseStream Chan). Offers (format to_string e) h.shared r.0 r.1.shared)
          h.shared.closed (Refused (format to_string e) h.shared)
          (counted-Offers (format to_string e) h _ (try_send-Offers (format to_string e) h.shared))

    keepalive-Offers :
        (h : SseStream Chan)
        → Offers
            (comment "keepalive")
            h.shared
            (keepalive T to_string h).0
            (keepalive T to_string h).1.shared
    unfolding keepalive
    keepalive-Offers h =
        if-both
          (λ (r : Bool × SseStream Chan). Offers (comment "keepalive") h.shared r.0 r.1.shared)
          h.shared.closed (Refused (comment "keepalive") h.shared)
          (try_send-Offers (comment "keepalive") h.shared)

    -- What was delivered and what is queued is what was accepted, in order, and the queue is bounded.
    abbrev pub IsFaithful : ℕ → World Chan → Type 0
    IsFaithful size w =
        (w.delivered ++ queued w.shared.sender ≡ chunks to_string w.accepted)
        × (length (queued w.shared.sender) ≤ size)
        × (capacity w.shared.sender ≡ size)

    answered-IsFaithful :
        (size i : ℕ) (s : Sent) (w : World Chan) (r : Bool × SseStream Chan)
        → IsFaithful size w
        → Offers (chunk to_string s) w.shared r.0 r.1.shared
        → IsFaithful size (answered T to_string i s r w)
    answered-IsFaithful size i s w (true, h) (same, bound, kept) (inl (_, q, kept_now, fits)) = (
      rw (q, chunks-append to_string)
          (sym (append_assoc w.delivered (queued w.shared.sender) (chunk to_string s ∷ []))
            ∙ ap (λ x. x ++ chunk to_string s ∷ []) same),
      rw (q, length-append) (omega (arith, fits, kept)),
      kept_now ∙ kept,
    )
    answered-IsFaithful size i s w (true, h) f (inr (ok, _, _)) = ground arith
    answered-IsFaithful size i s w (false, h) f (inl (ok, _, _, _)) = ground arith
    answered-IsFaithful size i s w (false, h) (same, bound, kept) (inr (_, q, kept_now)) =
        (rw (q, append-nil) same, rw q bound, kept_now ∙ kept)

    poll_recv-taken :
        (c : Chan) (q : List String)
        → queued c ≡ q
        → (taken (T.poll_recv c).0 ++ queued (T.poll_recv c).1 ≡ q)
          × (capacity (T.poll_recv c).1 ≡ capacity c)
    poll_recv-taken c (x ∷ q) e =
        let (first, rest, same, _) = L.recv_first c x q e in (rw (first, rest), same)
    poll_recv-taken c [] e =
        let (polled, same) = L.recv_empty c e in
        elim polled [
          | inl p ↦ (rw (p, same) e, ap capacity same)
          | inr p ↦ (rw (p, same) e, ap capacity same)
        ]

    poll_next-taken :
        (b : Shared Chan)
        → (taken (poll_next T to_string b).0 ++ queued (poll_next T to_string b).1.sender
            ≡ queued b.sender)
          × (capacity (poll_next T to_string b).1.sender ≡ capacity b.sender)
    unfolding poll_next
    poll_next-taken b =
        if-both
          (λ (r : Poll String × Shared Chan).
            (taken r.0 ++ queued r.1.sender ≡ queued b.sender)
            × (capacity r.1.sender ≡ capacity b.sender))
          b.closed (refl, refl) (poll_recv-taken b.sender (queued b.sender) refl)

    length-taken :
        (p : Poll String) (q r : List String) (n : ℕ)
        → taken p ++ q ≡ r
        → length r ≤ n
        → length q ≤ n
    length-taken p q r n e h =
        let split : length r ≡ length (taken p) + length q =
          ap length (sym e) ∙ length-append (taken p) q in
        omega (arith, split, h)

    on_handle-IsFaithful :
        (size : ℕ) (o : Option ℕ) (act : SseStream Chan → World Chan) (w : World Chan)
        → IsFaithful size w
        → ((n : ℕ) → IsFaithful size (act (record { shared = w.shared; event_count = n })))
        → IsFaithful size (on_handle T to_string o act w)
    on_handle-IsFaithful size none act w f h = f
    on_handle-IsFaithful size (some n) act w f h = h n

    step-IsFaithful :
        (size : ℕ) (c : Call) (w : World Chan)
        → IsFaithful size w
        → IsFaithful size (step T to_string c w)
    unfolding step
    step-IsFaithful size (sends i e) w f =
        on_handle-IsFaithful size (count_of i w.counts) _ w f λ n.
          let h : SseStream Chan = record { shared = w.shared; event_count = n } in
          answered-IsFaithful size i (event e) w (send T to_string e h) f (send-Offers e h)
    step-IsFaithful size (keeps_alive i) w f =
        on_handle-IsFaithful size (count_of i w.counts) _ w f λ n.
          let h : SseStream Chan = record { shared = w.shared; event_count = n } in
          answered-IsFaithful size i comment_line w (keepalive T to_string h) f (keepalive-Offers h)
    step-IsFaithful size (clones i) w f =
        on_handle-IsFaithful size (count_of i w.counts)
          (λ h. record w { counts = w.counts ++ h.event_count ∷ [] }) w f (λ n. f)
    step-IsFaithful size (closes i) w f =
        on_handle-IsFaithful size (count_of i w.counts)
          (λ h. record w { shared = (Streaming.close T to_string h).shared }) w f (λ n. f)
    step-IsFaithful size polls w (same, bound, kept) =
        let (moved, kept_now) = poll_next-taken w.shared in
        (
          append_assoc w.delivered (taken (poll_next T to_string w.shared).0)
                (queued (poll_next T to_string w.shared).1.sender)
              ∙ ap (λ x. w.delivered ++ x) moved
              ∙ same,
          length-taken (poll_next T to_string w.shared).0 _ _ size moved bound,
          kept_now ∙ kept,
        )

    run-IsFaithful :
        (size : ℕ) (cs : List Call) (w : World Chan)
        → IsFaithful size w
        → IsFaithful size (run T to_string cs w)
    unfolding run
    run-IsFaithful size [] w f = f
    run-IsFaithful size (c ∷ cs) w f =
        run-IsFaithful size cs (step T to_string c w) (step-IsFaithful size c w f)

    start-IsFaithful : (size : ℕ) → IsFaithful size (start T to_string size)
    start-IsFaithful size =
        let (none_yet, kept, _) = L.channel_empty size in
        (none_yet, rw none_yet (omega arith), kept)

    -- After any calls of a stream's handles and polls of its body, what the body delivered, with the
    -- queue behind it, is what the handles' calls put in, each once and in order, and the queue is
    -- no longer than the buffer size.
    pub run-start-IsFaithful :
        (size : ℕ) (cs : List Call) → IsFaithful size (run T to_string cs (start T to_string size))
    run-start-IsFaithful size cs =
        run-IsFaithful size cs (start T to_string size) (start-IsFaithful size)
