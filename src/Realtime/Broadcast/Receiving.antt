-- ===== src/Realtime/Broadcast/Receiving.antt =====
-- Draining a subscriber.
use hypern.Prelude.{
  ℕ, zero, suc, ◌+◌, ◌<◌, String, ◌≡◌, refl, ap, ◌∙◌, ◌⊎◌, inl, inr, Option, some, List, [], ◌∷◌,
  ◌++◌, append-nil, append_assoc, arith, length,
}
use hypern.Realtime.Tokio
use hypern.Realtime.Tokio.{Tokio, TryRecv}
use hypern.Realtime.Broadcast.{BroadcastSubscriber, drain}

module _ (T : Tokio) (laws : Tokio.Laws T) where
  open T use {Chan, Receiver}
  open laws use {pending, missed, recv_missed, recv_pending, recv_none}

  -- What `drain` is to return, from the messages and the lag that wait for the receiver.
  abbrev pub Drains :
      BroadcastSubscriber Receiver
      → List String
      → ℕ
      → List String
      → Option (BroadcastSubscriber Receiver × Chan × List String)
      → Type 0
  Drains sub waiting lag before r =
      (sub' : BroadcastSubscriber Receiver) × (c' : Chan) × (r ≡ some (sub', c', before ++ waiting))
      × (sub'.received ≡ sub.received + length waiting)
      × (sub'.lagged ≡ sub.lagged + lag)
      × (pending sub.receiver c' ≡ [])
      × (sub'.receiver ≡ sub.receiver)

  drain_pending :
      (fuel : ℕ) (sub : BroadcastSubscriber Receiver) (c : Chan) (xs before : List String)
      → missed sub.receiver c ≡ 0
      → pending sub.receiver c ≡ xs
      → length xs < fuel
      → Drains sub xs 0 before (drain T fuel sub c before)
  unfolding drain
  drain_pending zero sub c xs before m p h = absurd (omega arith)
  drain_pending (suc fuel) sub c [] before m p h =
      let (over, rest) = recv_none sub.receiver c m p in
      (sub, (T.try_recv sub.receiver c).1, ends over, omega arith, omega arith, rest, refl)
    where
      ends :
          ((T.try_recv sub.receiver c).0 ≡ TryRecv.empty)
            ⊎ ((T.try_recv sub.receiver c).0 ≡ TryRecv.closed)
          → drain T (suc fuel) sub c before
            ≡ some (sub, (T.try_recv sub.receiver c).1, before ++ [])
      ends (inl e) = rw (e, drain, append-nil)
      ends (inr e) = rw (e, drain, append-nil)
  drain_pending (suc fuel) sub c (x ∷ xs) before m p h =
      let (got, m', p') = recv_pending sub.receiver c x xs m p in
      let (sub', c', result, count, lag, rest, same) =
        drain_pending fuel (record sub { received = sub.received + 1 })
          (T.try_recv sub.receiver c).1 xs (before ++ x ∷ []) m' p' (omega arith) in
      (
        sub',
        c',
        rw (got, drain) (result ∙ ap (λ l. some (sub', c', l)) (append_assoc before (x ∷ []) xs)),
        omega arith,
        omega arith,
        rest,
        same,
      )

  -- With more fuel than there are messages waiting, and one round for a lag, `drain` ends. It
  -- returns every waiting message in order and leaves none, counts each as received, and adds the
  -- messages that were missed to the lag.
  pub drain_lem :
      (fuel : ℕ) (sub : BroadcastSubscriber Receiver) (c : Chan)
      → length (pending sub.receiver c) + 1 < fuel
      → Drains sub (pending sub.receiver c) (missed sub.receiver c) [] (drain T fuel sub c [])
  unfolding drain
  drain_lem zero sub c h = absurd (omega arith)
  drain_lem (suc fuel) sub c h = go (missed sub.receiver c) refl
    where
      go :
          (lag : ℕ)
          → missed sub.receiver c ≡ lag
          → Drains sub (pending sub.receiver c) lag [] (drain T (suc fuel) sub c [])
      go zero e = drain_pending (suc fuel) sub c (pending sub.receiver c) [] e refl (omega arith)
      go (suc n) e =
          let (late, m', p') = recv_missed sub.receiver c n e in
          let (sub', c', result, count, lag, rest, same) =
            drain_pending fuel (record sub { lagged = sub.lagged + suc n })
              (T.try_recv sub.receiver c).1 (pending sub.receiver c) [] m' p' (omega arith) in
          (sub', c', rw (late, drain) result, count, omega arith, rest, same)
