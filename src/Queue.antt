-- ===== src/Queue.antt =====
-- pomagma/util/queue.hpp and queue.cpp: queues of messages of 1 to 255 bytes, in a vector or in a
-- file. A lock makes each call one step, so that threads are sequences of calls. A message in memory
-- is the list of bytes that the pointer leads to, and the call's size says how many of them it has.
pub mod Fifo
pub mod Vector
pub mod File
pub mod Examples
use pomagma.Prelude.{
  ℕ, ◌+◌, ◌-◌, ◌%◌, List, [], ◌∷◌, ◌++◌, Bool, true, false, not, ltb, leb, ◌==◌, ◌&&◌,
  if◌then◌else◌, Option, none, some, length, get_or, get_elem?, set, replicate, take, drop,
}

pub record VectorQueue : Type 0 where
  pub buffer : List ℕ
  pub read_offset : ℕ

unfoldable pub new_vector : VectorQueue
new_vector = record { buffer = []; read_offset = 0 }

unfoldable pub push : List ℕ → ℕ → VectorQueue → VectorQueue
push message size q = record q { buffer = q.buffer ++ size ∷ take size message }

-- The bytes that the caller's buffer receives, whose number is the result of the call
unfoldable pub try_pop : VectorQueue → List ℕ × VectorQueue
try_pop q =
    let size = get_or q.buffer q.read_offset 0 in
    if not (q.read_offset == length q.buffer)
    then (
      take size (drop (q.read_offset + 1) q.buffer),
      record q { read_offset = q.read_offset + (1 + size) },
    )
    else if not (q.read_offset == 0)
    then ([], record { buffer = []; read_offset = 0 })
    else ([], q)

-- `file` is what the temporary file holds.
pub record FileBackedQueue : Type 0 where
  pub file : List ℕ
  pub write_offset : ℕ
  pub read_offset : ℕ

unfoldable pub new_file : FileBackedQueue
new_file = record { file = []; write_offset = 0; read_offset = 0 }

-- `pwrite` that does not fail: it fills a gap before the offset with zeros, and keeps what the file
-- holds before and behind the bytes.
unfoldable pub pwrite : List ℕ → List ℕ → ℕ → List ℕ
pwrite file bytes offset =
    take offset file
    ++ (replicate (offset - length file) 0 ++ (bytes ++ drop (offset + length bytes) file))

-- `pread` that does not fail
unfoldable pub pread : List ℕ → ℕ → ℕ → List ℕ
pread file size offset = take size (drop offset file)

unfoldable pub push_file : List ℕ → ℕ → FileBackedQueue → FileBackedQueue
push_file message size q =
    let file' = pwrite q.file (size ∷ []) q.write_offset in
    let offset = q.write_offset + 1 in
    record q { file = pwrite file' (take size message) offset; write_offset = offset + size }

unfoldable pub try_pop_file : FileBackedQueue → List ℕ × FileBackedQueue
unfolding pread
try_pop_file q =
    let size = get_or (pread q.file 1 q.read_offset) 0 0 in
    let offset = q.read_offset + 1 in
    if not (q.read_offset == q.write_offset)
    then (pread q.file size offset, record q { read_offset = offset + size })
    else if not (q.read_offset == 0)
    then ([], record { file = []; write_offset = 0; read_offset = 0 })
    else ([], q)

abbrev pub max_message_size : ℕ
max_message_size = 255

-- `push_str` and `try_pop_str`, for a queue with the given methods. The size goes through a uint8_t.
unfoldable pub push_str {ℓ} : {Q : Type ℓ} → (List ℕ → ℕ → Q → Q) → List ℕ → Q → Q
push_str push message q = push message (length message % 256) q

unfoldable pub try_pop_str {ℓ} : {Q : Type ℓ} → (Q → List ℕ × Q) → Q → Bool × List ℕ × Q
try_pop_str pop q = let (message, q') = pop q in (not (length message == 0), message, q')

-- `SharedBroker`: a queue for each topic. `none` is a topic that the broker does not have.
unfoldable pub push_topic {ℓ} :
    {Q : Type ℓ} → (List ℕ → ℕ → Q → Q) → ℕ → List ℕ → ℕ → List Q → Option (List Q)
push_topic push topic message size queues = elim (get_elem? queues topic) [
  | none ↦ none
  | some q ↦ some (set queues topic (push message size q))
]

unfoldable pub try_pop_topic {ℓ} :
    {Q : Type ℓ} → (Q → List ℕ × Q) → ℕ → List Q → Option (List ℕ × List Q)
try_pop_topic pop topic queues = elim (get_elem? queues topic) [
  | none ↦ none
  | some q ↦ (let (message, q') = pop q in some (message, set queues topic q'))
]
