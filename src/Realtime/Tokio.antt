-- ===== src/Realtime/Tokio.antt =====
-- What the realtime code uses of `tokio::sync::broadcast`. A `Chan` is the state that a sender and
-- its receivers share; a receiver is a handle into it. `Laws` states the documented order of
-- delivery: the messages that a receiver missed are reported once, before those still buffered.
pub mod Sample
use hypern.Prelude.{ℕ, suc, String, ◌≡◌, ◌⊎◌, Option, List, [], ◌∷◌}

pub data TryRecv : Type 0 where
  received : String → TryRecv
  lagged : ℕ → TryRecv
  empty closed : TryRecv

pub record Tokio : Type 1 where
  pub Chan : Type 0
  pub Receiver : Type 0
  -- broadcast::channel(capacity)
  pub channel : ℕ → Chan
  -- Sender::subscribe
  pub subscribe : Chan → Receiver × Chan
  -- Sender::send; `none` is `Err`, no active receiver
  pub send : String → Chan → Option ℕ × Chan
  -- Receiver::try_recv
  pub try_recv : Receiver → Chan → TryRecv × Chan

pub record Laws (T : Tokio) : Type 1 where
  pub pending : T.Receiver → T.Chan → List String
  pub missed : T.Receiver → T.Chan → ℕ
  pub recv_missed :
      (r : T.Receiver) (c : T.Chan) (n : ℕ)
      → missed r c ≡ suc n
      → ((T.try_recv r c).0 ≡ lagged (suc n))
        × (missed r (T.try_recv r c).1 ≡ 0)
        × (pending r (T.try_recv r c).1 ≡ pending r c)
  pub recv_pending :
      (r : T.Receiver) (c : T.Chan) (x : String) (xs : List String)
      → missed r c ≡ 0
      → pending r c ≡ x ∷ xs
      → ((T.try_recv r c).0 ≡ received x)
        × (missed r (T.try_recv r c).1 ≡ 0)
        × (pending r (T.try_recv r c).1 ≡ xs)
  pub recv_none :
      (r : T.Receiver) (c : T.Chan)
      → missed r c ≡ 0
      → pending r c ≡ []
      → (((T.try_recv r c).0 ≡ empty) ⊎ ((T.try_recv r c).0 ≡ closed))
        × (pending r (T.try_recv r c).1 ≡ [])
