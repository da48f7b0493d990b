-- ===== src/Http/Mpsc/Sample.antt =====
-- A concrete bounded channel for tests.
use hypern.Http.Mpsc.{Mpsc, Poll, Laws, pending, ready}
use hypern.Prelude.{
  ℕ, ◌≤◌, ◌<◌, ◌≡◌, refl, ◌⊎◌, inl, inr, Bool, true, false, ◌&&◌, none, some, List, [], ◌∷◌, ◌++◌,
  arith, ltb, if◌then◌else◌, length,
}

pub record Queue (A : Type 0) : Type 0 where
  pub buffer : List A
  pub bound : ℕ
  pub alive : Bool

module _ {A : Type 0} where
  abbrev pub offer : A → Queue A → Bool × Queue A
  offer a q =
      if q.alive && ltb (length q.buffer) q.bound
      then (true, record q { buffer = q.buffer ++ a ∷ [] })
      else (false, q)

  abbrev pub pop : List A → Queue A → Poll A × Queue A
  pop [] q = (pending, q)
  pop (a ∷ rest) q = (ready (some a), record q { buffer = rest })

module _ (A : Type 0) where
  abbrev pub queue : Mpsc A
  queue = record {
    Chan = Queue A;
    channel = λ n. record { buffer = []; bound = n; alive = true };
    try_send = offer;
    poll_recv = λ q. pop q.buffer q;
    drop_receiver = λ q. record q { buffer = []; alive = false };
  }

  pub offer_fits :
      (a : A) (q : Queue A)
      → q.alive ≡ true
      → length q.buffer < q.bound
      → ((offer a q).0 ≡ true)
        × ((offer a q).1.buffer ≡ q.buffer ++ a ∷ [])
        × ((offer a q).1.bound ≡ q.bound)
        × ((offer a q).1.alive ≡ true)
  offer_fits a q e lt =
      let fits : ltb (length q.buffer) q.bound ≡ true = ground (arith, lt) in
      rw (e, fits) (refl, refl, refl, refl)

  pub offer_full :
      (a : A) (q : Queue A)
      → (q.alive ≡ false) ⊎ (q.bound ≤ length q.buffer)
      → ((offer a q).0 ≡ false) × ((offer a q).1 ≡ q)
  offer_full a q (inl e) = rw e (refl, refl)
  offer_full a q (inr le) =
      let full : (q.alive && ltb (length q.buffer) q.bound) ≡ false = ground (arith, le) in
      rw full (refl, refl)

  pub pop_first :
      (q : Queue A) (a : A) (rest : List A)
      → q.buffer ≡ a ∷ rest
      → ((pop q.buffer q).0 ≡ ready (some a))
        × ((pop q.buffer q).1.buffer ≡ rest)
        × ((pop q.buffer q).1.bound ≡ q.bound)
        × ((pop q.buffer q).1.alive ≡ q.alive)
  pop_first q a rest e = rw e (refl, refl, refl, refl)

  pub pop_empty :
      (q : Queue A)
      → q.buffer ≡ []
      → (((pop q.buffer q).0 ≡ pending) ⊎ ((pop q.buffer q).0 ≡ ready none))
        × ((pop q.buffer q).1 ≡ q)
  pop_empty q e = rw e (inl refl, refl)

  abbrev pub queue_laws : Laws queue
  queue_laws = record {
    queued = λ q. q.buffer;
    capacity = λ q. q.bound;
    connected = λ q. q.alive;
    channel_empty = λ n. (refl, refl, refl);
    send_fits = offer_fits;
    send_full = offer_full;
    recv_first = pop_first;
    recv_empty = pop_empty;
    drop_disconnects = λ q. refl;
  }
