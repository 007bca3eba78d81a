-- ===== src/Auth/Users/Slots.antt =====
-- hashSlots of auth/users.go: the channel that callers of hashPassword and comparePassword fill before
-- their work of argon2id and drain behind it, in every interleaving of the callers. A caller whose
-- context is done leaves the queue; the deferred receive drains the channel whether the work fails or
-- not. Everything else that a caller does stands outside.
use go_bootstrap.Prelude.{
  ℕ, suc, ◌+◌, ◌≤◌, ◌<◌, ◌≡◌, ◌⊎◌, refl, List, [], ◌∷◌, ◌++◌, Bool-cases, ltb, inl, inr, arith,
}

pub data Caller : Type 0 where
  queued hashing returned gave_up : Caller

pub record Slots : Type 0 where
  -- the elements in the channel's buffer
  pub filled : ℕ
  pub callers : List Caller

-- the steps of the callers, for a capacity of the channel
pub data Step (capacity : ℕ) : Slots → Slots → Type 0 where
  arrive :
      (n : ℕ) (callers : List Caller)
      → Step capacity
          (record { filled = n; callers = callers })
          (record { filled = n; callers = queued ∷ callers })
  send :
      (n : ℕ) (front back : List Caller)
      → n < capacity
      → Step capacity
          (record { filled = n; callers = front ++ queued ∷ back })
          (record { filled = suc n; callers = front ++ hashing ∷ back })
  give_up :
      (n : ℕ) (front back : List Caller)
      → Step capacity
          (record { filled = n; callers = front ++ queued ∷ back })
          (record { filled = n; callers = front ++ gave_up ∷ back })
  receive :
      (n : ℕ) (front back : List Caller)
      → Step capacity
          (record { filled = suc n; callers = front ++ hashing ∷ back })
          (record { filled = n; callers = front ++ returned ∷ back })

abbrev pub idle : Slots
idle = record { filled = 0; callers = [] }

pub data Reach (capacity : ℕ) : Slots → Type 0 where
  here : Reach capacity idle
  next : {s t : Slots} → Reach capacity s → Step capacity s t → Reach capacity t

abbrev pub works : Caller → ℕ
works queued = 0
works hashing = 1
works returned = 0
works gave_up = 0

-- the callers that argon2id works for
abbrev pub working : List Caller → ℕ
working [] = 0
working (c ∷ callers) = works c + working callers

working-append : (front back : List Caller) → working (front ++ back) ≡ working front + working back
working-append [] back = omega arith
working-append (c ∷ front) back = omega (arith, working-append front back)

-- The buffer holds one element for each caller that works, and no more than the capacity.
pub record Counts (capacity : ℕ) (s : Slots) : Type 0 where
  pub filled-eq : s.filled ≡ working s.callers
  pub within : s.filled ≤ capacity

Step-Counts :
    {capacity : ℕ} {s t : Slots} → Step capacity s t → Counts capacity s → Counts capacity t
Step-Counts (arrive n callers) h = record {
  filled-eq = omega (arith, h.filled-eq);
  within = h.within;
}
Step-Counts (send n front back free) h = record {
  filled-eq = omega (
    arith,
    h.filled-eq,
    working-append front (queued ∷ back),
    working-append front (hashing ∷ back),
  );
  within = free;
}
Step-Counts (give_up n front back) h = record {
  filled-eq = omega (
    arith,
    h.filled-eq,
    working-append front (queued ∷ back),
    working-append front (gave_up ∷ back),
  );
  within = h.within;
}
Step-Counts (receive n front back) h = record {
  filled-eq = omega (
    arith,
    h.filled-eq,
    working-append front (hashing ∷ back),
    working-append front (returned ∷ back),
  );
  within = omega (arith, h.within);
}

Reach-Counts : {capacity : ℕ} {s : Slots} → Reach capacity s → Counts capacity s
Reach-Counts here = record { filled-eq = refl; within = omega arith }
Reach-Counts (next r step) = Step-Counts step (Reach-Counts r)

-- In every interleaving, argon2id works for no more callers at once than the channel has places, and no
-- place is lost: a caller that waits can send, or each of the places stands for a caller that works and
-- will receive from it.
pub working-bounds :
    (capacity : ℕ) (s : Slots)
    → Reach capacity s
    → (working s.callers ≤ capacity) × ((s.filled < capacity) ⊎ (working s.callers ≡ capacity))
working-bounds capacity s r =
    let c = Reach-Counts r in
    (
      omega (arith, c.filled-eq, c.within),
      elim (Bool-cases (ltb s.filled capacity)) [
        | inl free ↦ inl (ground (arith, free))
        | inr full ↦
            let most : capacity ≤ s.filled = ground (arith, full) in
            inr (omega (arith, c.filled-eq, c.within, most))
      ],
    )
