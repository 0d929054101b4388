-- ===== src/Queue/Fifo.antt =====
-- What pomagma/util/queue.hpp promises: messages leave in the order in which they came.
use pomagma.Prelude.{ℕ, ◌≤◌, List, [], ◌∷◌, ◌++◌, length}
use pomagma.Queue.{push_str, try_pop_str, max_message_size}

pub data Call : Type 0 where
  put : List ℕ → Call
  get : Call

-- A message has 1 to 255 bytes.
abbrev pub Fits : List ℕ → Type 0
Fits m = (1 ≤ length m) × (length m ≤ max_message_size)

abbrev pub AllFit : List Call → Type 0
AllFit [] = Unit
AllFit (put m ∷ calls) = Fits m × AllFit calls
AllFit (get ∷ calls) = AllFit calls

abbrev pub MessagesFit : List (List ℕ) → Type 0
MessagesFit [] = Unit
MessagesFit (m ∷ ms) = Fits m × MessagesFit ms

-- The replies of the calls, for a queue with the given methods
unfoldable pub replies {ℓ} :
    {Q : Type ℓ} → (List ℕ → ℕ → Q → Q) → (Q → List ℕ × Q) → List Call → Q → List (List ℕ)
replies push pop [] q = []
replies push pop (put m ∷ calls) q = replies push pop calls (push_str push m q)
replies push pop (get ∷ calls) q =
    let (found, message, q') = try_pop_str pop q in message ∷ replies push pop calls q'

-- The replies of a first-in first-out list of messages. An empty reply says that there is none.
unfoldable pub fifo : List Call → List (List ℕ) → List (List ℕ)
fifo [] ms = []
fifo (put m ∷ calls) ms = fifo calls (ms ++ m ∷ [])
fifo (get ∷ calls) [] = [] ∷ fifo calls []
fifo (get ∷ calls) (m ∷ ms) = m ∷ fifo calls ms

-- The bytes of messages, each with its size in front
unfoldable pub encode : List (List ℕ) → List ℕ
encode [] = []
encode (m ∷ ms) = length m ∷ (m ++ encode ms)
