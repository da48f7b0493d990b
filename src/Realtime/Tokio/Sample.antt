-- ===== src/Realtime/Tokio/Sample.antt =====
-- A concrete channel for tests: one buffer, read by all receivers alike.
use hypern.Prelude.{
  ℕ, zero, suc, ◌+◌, String, ◌≡◌, refl, ◌⊎◌, inl, Option, none, some, List, [], ◌∷◌, ◌++◌, eqb,
  if◌then◌else◌,
}
use hypern.Realtime.Tokio
use hypern.Realtime.Tokio.{Tokio, TryRecv}

pub record Queue : Type 0 where
  pub buffer : List String
  pub lag : ℕ
  pub receivers : ℕ

abbrev sample_send : String → Queue → Option ℕ × Queue
sample_send m q =
    if eqb q.receivers 0
    then (none, q)
    else (some q.receivers, record q { buffer = q.buffer ++ m ∷ [] })

abbrev recv_from : ℕ → List String → ℕ → TryRecv × Queue
recv_from (suc n) xs k = (TryRecv.lagged (suc n), record { buffer = xs; lag = 0; receivers = k })
recv_from zero (x ∷ xs) k = (TryRecv.received x, record { buffer = xs; lag = 0; receivers = k })
recv_from zero [] k = (TryRecv.empty, record { buffer = []; lag = 0; receivers = k })

abbrev pub queue_tokio : Tokio
queue_tokio = record {
  Chan = Queue;
  Receiver = Unit {0};
  channel = λ _. record { buffer = []; lag = 0; receivers = 0 };
  subscribe = λ q. (tt, record q { receivers = q.receivers + 1 });
  send = sample_send;
  try_recv = λ _ q. recv_from q.lag q.buffer q.receivers;
}

pub recv_missed_lem :
    (q : Queue) (n : ℕ)
    → q.lag ≡ suc n
    → ((recv_from q.lag q.buffer q.receivers).0 ≡ TryRecv.lagged (suc n))
      × ((recv_from q.lag q.buffer q.receivers).1.lag ≡ 0)
      × ((recv_from q.lag q.buffer q.receivers).1.buffer ≡ q.buffer)
recv_missed_lem q n e = rw e (refl, refl, refl)

pub recv_pending_lem :
    (q : Queue) (x : String) (xs : List String)
    → q.lag ≡ 0
    → q.buffer ≡ x ∷ xs
    → ((recv_from q.lag q.buffer q.receivers).0 ≡ TryRecv.received x)
      × ((recv_from q.lag q.buffer q.receivers).1.lag ≡ 0)
      × ((recv_from q.lag q.buffer q.receivers).1.buffer ≡ xs)
recv_pending_lem q x xs e p = rw (e, p) (refl, refl, refl)

pub recv_none_lem :
    (q : Queue)
    → q.lag ≡ 0
    → q.buffer ≡ []
    → (((recv_from q.lag q.buffer q.receivers).0 ≡ TryRecv.empty)
        ⊎ ((recv_from q.lag q.buffer q.receivers).0 ≡ TryRecv.closed))
      × ((recv_from q.lag q.buffer q.receivers).1.buffer ≡ [])
recv_none_lem q e p = rw (e, p) (inl refl, refl)

abbrev pub queue_laws : Tokio.Laws queue_tokio
queue_laws = record {
  pending = λ _ q. q.buffer;
  missed = λ _ q. q.lag;
  recv_missed = λ _. recv_missed_lem;
  recv_pending = λ _. recv_pending_lem;
  recv_none = λ _. recv_none_lem;
}
