-- ===== src/Http/Mpsc.antt =====
-- What src/http/streaming.rs uses of `tokio::sync::mpsc` with a bound, and what is documented of it:
-- first in, first out, refused when full or when the receiver is dropped, never lost in between.
pub mod Sample
use hypern.Prelude.{
  ℕ, ◌≤◌, ◌<◌, ◌≡◌, ◌⊎◌, Bool, true, false, Option, none, some, List, [], ◌∷◌, ◌++◌, length,
}

pub data Poll (A : Type 0) : Type 0 where
  pending : Poll A
  ready : Option A → Poll A

-- The state that senders and receiver share.
pub record Mpsc (A : Type 0) : Type 1 where
  pub Chan : Type 0
  -- mpsc::channel(capacity); a capacity of 0 panics and is not asked for
  pub channel : ℕ → Chan
  -- Sender::try_send; true is `Ok`
  pub try_send : A → Chan → Bool × Chan
  -- Receiver::poll_recv
  pub poll_recv : Chan → Poll A × Chan
  pub drop_receiver : Chan → Chan

pub record Laws {A : Type 0} (T : Mpsc A) : Type 1 where
  pub queued : T.Chan → List A
  pub capacity : T.Chan → ℕ
  pub connected : T.Chan → Bool
  pub channel_empty :
      (n : ℕ)
      → (queued (T.channel n) ≡ [])
        × (capacity (T.channel n) ≡ n)
        × (connected (T.channel n) ≡ true)
  pub send_fits :
      (a : A) (c : T.Chan)
      → connected c ≡ true
      → length (queued c) < capacity c
      → ((T.try_send a c).0 ≡ true)
        × (queued (T.try_send a c).1 ≡ queued c ++ a ∷ [])
        × (capacity (T.try_send a c).1 ≡ capacity c)
        × (connected (T.try_send a c).1 ≡ true)
  pub send_full :
      (a : A) (c : T.Chan)
      → (connected c ≡ false) ⊎ (capacity c ≤ length (queued c))
      → ((T.try_send a c).0 ≡ false) × ((T.try_send a c).1 ≡ c)
  pub recv_first :
      (c : T.Chan) (a : A) (rest : List A)
      → queued c ≡ a ∷ rest
      → ((T.poll_recv c).0 ≡ ready (some a))
        × (queued (T.poll_recv c).1 ≡ rest)
        × (capacity (T.poll_recv c).1 ≡ capacity c)
        × (connected (T.poll_recv c).1 ≡ connected c)
  pub recv_empty :
      (c : T.Chan)
      → queued c ≡ []
      → (((T.poll_recv c).0 ≡ pending) ⊎ ((T.poll_recv c).0 ≡ ready none)) × ((T.poll_recv c).1 ≡ c)
  pub drop_disconnects : (c : T.Chan) → connected (T.drop_receiver c) ≡ false
