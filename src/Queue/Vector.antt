-- ===== src/Queue/Vector.antt =====
-- VectorQueue of pomagma/util/queue.cpp as a first-in first-out list of messages.
use mathlib.Core.List.{append_assoc, append-nil}
use pomagma.Prelude.{
  Bool-cases, inl, inr, ◌==◌, ℕ, ◌+◌, ◌≤◌, ◌≡◌, refl, sym, ap, ◌∙◌, List, [], ◌∷◌, ◌++◌, length,
  get_or, take, drop, arith, length-append, take-length, take-length_append, drop-length_append,
  drop-append, drop-drop, drop_cons, length-drop, get_elem?-get_or,
}
use pomagma.Queue.{VectorQueue, new_vector, push, try_pop, push_str, try_pop_str}
use pomagma.Queue.Fifo.{Call, put, get, Fits, AllFit, replies, fifo, encode}

-- The bytes that are still to be read are those of the messages.
abbrev pub Holds : VectorQueue → List (List ℕ) → Type 0
Holds q ms = (drop q.read_offset q.buffer ≡ encode ms) × (q.read_offset ≤ length q.buffer)

pub encode-append_one :
    (ms : List (List ℕ)) (m : List ℕ) → encode (ms ++ m ∷ []) ≡ encode ms ++ length m ∷ m
unfolding encode
encode-append_one [] m = ap (◌∷◌ (length m)) (append-nil m)
encode-append_one (n ∷ ms) m =
    ap (◌∷◌ (length n)) (ap (◌++◌ n) (encode-append_one ms m) ∙ sym (append_assoc n _ _))

-- The size of a message that fits goes through a uint8_t unchanged.
pub push_str-push {ℓ} :
    {Q : Type ℓ} (push : List ℕ → ℕ → Q → Q) (m : List ℕ) (q : Q)
    → Fits m
    → push_str push m q ≡ push m (length m) q
unfolding push_str
push_str-push push m q fit = ap (λ s. push m s q) (omega arith)

push-Holds :
    (q : VectorQueue) (m : List ℕ) (ms : List (List ℕ))
    → Holds q ms
    → Holds (push m (length m) q) (ms ++ m ∷ [])
unfolding push
push-Holds q m ms (e, le) = (
  drop-append q.read_offset q.buffer _ le
      ∙ ap (λ l. l ++ length m ∷ take (length m) m) e
      ∙ ap (λ l. encode ms ++ length m ∷ l) (take-length m)
      ∙ sym (encode-append_one ms m),
  omega (arith, length-append q.buffer (length m ∷ take (length m) m)),
)

-- Reading the message at the front of the bytes
pub front :
    (bytes : List ℕ) (offset : ℕ) (m : List ℕ) (ms : List (List ℕ))
    → drop offset bytes ≡ encode (m ∷ ms)
    → (get_or bytes offset 0 ≡ length m)
      × (take (length m) (drop (offset + 1) bytes) ≡ m)
      × (drop (offset + (1 + length m)) bytes ≡ encode ms)
      × (offset + (1 + length m) ≤ length bytes)
unfolding encode
front bytes offset m ms e =
    let (rest, at, lt) = drop_cons offset bytes (length m) (m ++ encode ms) e in
    let reach : offset + 1 + length m ≡ offset + (1 + length m) = omega arith in
    (
      (get_elem?-get_or bytes offset (length m) 0 at).1,
      rw rest (take-length_append m (encode ms)),
      ap (λ k. drop k bytes) (sym reach)
          ∙ sym (drop-drop (length m) (offset + 1) bytes)
          ∙ ap (drop (length m)) rest
          ∙ drop-length_append m (encode ms),
      omega (arith, length-drop (offset + 1) bytes, ap length rest, length-append m (encode ms)),
    )

try_pop-nil :
    (q : VectorQueue) → Holds q [] → (q' : VectorQueue) × (try_pop q ≡ ([], q')) × Holds q' []
unfolding try_pop encode new_vector
try_pop-nil q (e, le) =
    let read : q.read_offset ≡ length q.buffer =
      omega (arith, length-drop q.read_offset q.buffer, ap length e) in
    elim (Bool-cases (q.read_offset == 0)) [
      | inl unread ↦ (q, ground arith, (e, le))
      | inr some_read ↦ (new_vector, ground arith, (refl, omega arith))
    ]

try_pop-cons :
    (q : VectorQueue) (m : List ℕ) (ms : List (List ℕ))
    → Holds q (m ∷ ms)
    → (q' : VectorQueue) × (try_pop q ≡ (m, q')) × Holds q' ms
unfolding try_pop
try_pop-cons q m ms (e, le) =
    let (size, message, rest, within) = front q.buffer q.read_offset m ms e in
    (record q { read_offset = q.read_offset + (1 + length m) }, ground arith, (rest, within))

replies-Holds :
    (calls : List Call) (q : VectorQueue) (ms : List (List ℕ))
    → AllFit calls
    → Holds q ms
    → replies push try_pop calls q ≡ fifo calls ms
unfolding replies fifo try_pop_str
replies-Holds [] q ms fit h = refl
replies-Holds (put m ∷ calls) q ms (fit, fits) h =
    rw (push_str-push push m q fit)
      (replies-Holds calls (push m (length m) q) (ms ++ m ∷ []) fits (push-Holds q m ms h))
replies-Holds (get ∷ calls) q [] fits h =
    let (q', e, h') = try_pop-nil q h in rw e (ap (◌∷◌ []) (replies-Holds calls q' [] fits h'))
replies-Holds (get ∷ calls) q (m ∷ ms) fits h =
    let (q', e, h') = try_pop-cons q m ms h in rw e (ap (◌∷◌ m) (replies-Holds calls q' ms fits h'))

-- For calls whose messages have 1 to 255 bytes, a new vector queue gives the replies of a first-in
-- first-out list of messages, the reply of an empty message where there is none.
pub vector-fifo :
    (calls : List Call) → AllFit calls → replies push try_pop calls new_vector ≡ fifo calls []
unfolding new_vector encode
vector-fifo calls fits = replies-Holds calls new_vector [] fits (refl, omega arith)
