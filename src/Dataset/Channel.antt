-- ===== src/Dataset/Channel.antt =====
-- The channels of ForgeFP that src/dataset.cpp hands its batches through: what it uses of them, and
-- what their documentation says.
use forge_dsio.Prelude.{
  arith, ◌⊎◌, inl, inr, refl, ℕ, ◌<◌, ◌≤◌, ◌≡◌, Bool, true, false, List, [], ◌∷◌, ◌++◌, length,
}

-- `refused` is the exception of a send into a closed channel; a `full` one blocks the sender.
pub data Sent (C : Type 0) : Type 0 where
  sent : C → Sent C
  full : Sent C
  refused : Sent C

-- `ended` is the exception of a closed channel without items; an open one blocks the receiver.
pub data Received (A C : Type 0) : Type 0 where
  received : A → C → Received A C
  not_yet : Received A C
  ended : Received A C

pub record Channel (A C : Type 0) : Type 0 where
  pub make : ℕ → C
  pub send : A → C → Sent C
  pub recv : C → Received A C
  pub close : C → C

-- A bounded queue: first in, first out, and what is inside when it is closed still comes out.
pub record ChannelLaws {A C : Type 0} (channel : Channel A C) : Type 0 where
  pub contents : C → List A
  pub capacity : C → ℕ
  pub closed : C → Bool
  pub made :
      (n : ℕ)
      → (contents (channel.make n) ≡ [])
        × (capacity (channel.make n) ≡ n)
        × (closed (channel.make n) ≡ false)
  pub on_sent :
      (a : A) (c d : C)
      → channel.send a c ≡ sent d
      → (contents d ≡ contents c ++ a ∷ [])
        × (capacity d ≡ capacity c)
        × (closed d ≡ closed c)
        × (closed c ≡ false)
        × (length (contents c) < capacity c)
  pub on_full :
      (a : A) (c : C)
      → channel.send a c ≡ full
      → (closed c ≡ false) × (capacity c ≤ length (contents c))
  pub on_refused : (a : A) (c : C) → channel.send a c ≡ refused → closed c ≡ true
  pub on_received :
      (a : A) (c d : C)
      → channel.recv c ≡ received a d
      → (contents c ≡ a ∷ contents d) × (capacity d ≡ capacity c) × (closed d ≡ closed c)
  pub on_not_yet : (c : C) → channel.recv c ≡ not_yet → (contents c ≡ []) × (closed c ≡ false)
  pub on_ended : (c : C) → channel.recv c ≡ ended → (contents c ≡ []) × (closed c ≡ true)
  pub on_close :
      (c : C)
      → (contents (channel.close c) ≡ contents c)
        × (capacity (channel.close c) ≡ capacity c)
        × (closed (channel.close c) ≡ true)

pub Sent-cases : {C : Type 0} (r : Sent C) → ((d : C) × (r ≡ sent d)) ⊎ (r ≡ full) ⊎ (r ≡ refused)
Sent-cases (sent d) = inl (d, refl)
Sent-cases full = inr (inl refl)
Sent-cases refused = inr (inr refl)

pub Received-cases :
    {A C : Type 0} (r : Received A C)
    → ((a : A) × (d : C) × (r ≡ received a d)) ⊎ (r ≡ not_yet) ⊎ (r ≡ ended)
Received-cases (received a d) = inl (a, d, refl)
Received-cases not_yet = inr (inl refl)
Received-cases ended = inr (inr refl)

-- With room in an open channel the send goes through.
pub send-Sent :
    {A C : Type 0} (channel : Channel A C) (laws : ChannelLaws channel) (a : A) (c : C)
    → laws.closed c ≡ false
    → length (laws.contents c) < laws.capacity c
    → (d : C) × (channel.send a c ≡ sent d)
send-Sent channel laws a c open_c room = elim (Sent-cases (channel.send a c)) [
  | inl r ↦ r
  | inr (inl q) ↦ absurd (omega (arith, laws.on_full a c q, room))
  | inr (inr q) ↦ absurd (ground (arith, laws.on_refused a c q, open_c))
]
