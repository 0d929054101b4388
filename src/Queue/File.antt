-- ===== src/Queue/File.antt =====
-- FileBackedQueue of pomagma/util/queue.cpp as a first-in first-out list of messages.
use mathlib.Core.List.{append_assoc, append-nil}
use pomagma.Prelude.{
  ℕ, ◌+◌, ◌-◌, ◌≤◌, ◌≡◌, refl, sym, ap, ◌∙◌, List, [], ◌∷◌, ◌++◌, length, get_or, drop, arith,
  length-append, take-length, drop-append, drop-length_le, length-drop, Bool-cases, inl, inr, ◌==◌,
  zero, suc,
}
use pomagma.Queue.{FileBackedQueue, new_file, pwrite, pread, push_file, try_pop_file, try_pop_str}
use pomagma.Queue.Fifo.{Call, put, get, AllFit, replies, fifo, encode}
use pomagma.Queue.Vector.{encode-append_one, push_str-push, front, vector-fifo}
use pomagma.Queue.{new_vector, push, try_pop}

-- The bytes of the file that are still to be read are those of the messages, and the file ends at
-- the write offset.
abbrev Holds : FileBackedQueue → List (List ℕ) → Type 0
Holds q ms =
    (drop q.read_offset q.file ≡ encode ms)
    × (q.read_offset ≤ length q.file)
    × (q.write_offset ≡ length q.file)

pwrite_end :
    (file bytes : List ℕ) (offset : ℕ)
    → offset ≡ length file
    → pwrite file bytes offset ≡ file ++ bytes
unfolding pwrite
pwrite_end file bytes offset e =
    let gap : length file - length file ≡ 0 = omega arith in
    rw (e, gap, take-length, drop-length_le (length file + length bytes) file (omega arith))
      (ap (◌++◌ file) (append-nil bytes))

push_file-eq :
    (q : FileBackedQueue) (m : List ℕ)
    → q.write_offset ≡ length q.file
    → push_file m (length m) q
      ≡ record q { file = q.file ++ (length m ∷ m); write_offset = q.write_offset + 1 + length m }
unfolding push_file
push_file-eq q m e =
    let grown : q.write_offset + 1 ≡ length (q.file ++ length m ∷ []) =
      omega (arith, length-append q.file (length m ∷ [])) in
    let bytes : (q.file ++ length m ∷ []) ++ m ≡ q.file ++ length m ∷ m =
      append_assoc q.file (length m ∷ []) m in
    rw (pwrite_end q.file (length m ∷ []) q.write_offset e, take-length m)
      (rw (pwrite_end (q.file ++ length m ∷ []) m (q.write_offset + 1) grown, bytes) refl)

push_file-Holds :
    (q : FileBackedQueue) (m : List ℕ) (ms : List (List ℕ))
    → Holds q ms
    → Holds (push_file m (length m) q) (ms ++ m ∷ [])
push_file-Holds q m ms (e, le, w) = rw (push_file-eq q m w) (
  drop-append q.read_offset q.file _ le
      ∙ ap (λ l. l ++ length m ∷ m) e
      ∙ sym (encode-append_one ms m),
  omega (arith, length-append q.file (length m ∷ m)),
  omega (arith, length-append q.file (length m ∷ m)),
)

try_pop_file-nil :
    (q : FileBackedQueue)
    → Holds q []
    → (q' : FileBackedQueue) × (try_pop_file q ≡ ([], q')) × Holds q' []
unfolding try_pop_file encode new_file
try_pop_file-nil q (e, le, w) =
    let read : q.read_offset ≡ length q.file =
      omega (arith, length-drop q.read_offset q.file, ap length e) in
    elim (Bool-cases (q.read_offset == 0)) [
      | inl unread ↦ (q, ground arith, (e, le, w))
      | inr some_read ↦ (new_file, ground arith, (refl, omega arith, refl))
    ]

-- `pread` of one byte
get_or-pread :
    (file : List ℕ) (offset : ℕ) → get_or (pread file 1 offset) 0 0 ≡ get_or file offset 0
unfolding pread
get_or-pread [] zero = refl
get_or-pread [] (suc n) = refl
get_or-pread (x ∷ xs) zero = refl
get_or-pread (x ∷ xs) (suc n) = get_or-pread xs n

try_pop_file-cons :
    (q : FileBackedQueue) (m : List ℕ) (ms : List (List ℕ))
    → Holds q (m ∷ ms)
    → (q' : FileBackedQueue) × (try_pop_file q ≡ (m, q')) × Holds q' ms
unfolding try_pop_file
try_pop_file-cons q m ms (e, le, w) =
    let (size, message, rest, within) = front q.file q.read_offset m ms e in
    let reach : q.read_offset + 1 + length m ≡ q.read_offset + (1 + length m) = omega arith in
    (
      record q { read_offset = q.read_offset + 1 + length m },
      rw (get_or-pread q.file q.read_offset, size) (ground arith),
      (rw reach rest, omega arith, w),
    )

replies-Holds :
    (calls : List Call) (q : FileBackedQueue) (ms : List (List ℕ))
    → AllFit calls
    → Holds q ms
    → replies push_file try_pop_file calls q ≡ fifo calls ms
unfolding replies fifo try_pop_str
replies-Holds [] q ms fit h = refl
replies-Holds (put m ∷ calls) q ms (fit, fits) h =
    rw (push_str-push push_file m q fit) (
      replies-Holds calls (push_file m (length m) q) (ms ++ m ∷ []) fits (push_file-Holds q m ms h))
replies-Holds (get ∷ calls) q [] fits h =
    let (q', e, h') = try_pop_file-nil q h in rw e (ap (◌∷◌ []) (replies-Holds calls q' [] fits h'))
replies-Holds (get ∷ calls) q (m ∷ ms) fits h =
    let (q', e, h') = try_pop_file-cons q m ms h in
    rw e (ap (◌∷◌ m) (replies-Holds calls q' ms fits h'))

-- For calls whose messages have 1 to 255 bytes, a new queue in a file and a new queue in a vector give
-- the same replies.
pub file-vector :
    (calls : List Call)
    → AllFit calls
    → replies push_file try_pop_file calls new_file ≡ replies push try_pop calls new_vector
unfolding new_file encode
file-vector calls fits =
    replies-Holds calls new_file [] fits (refl, omega arith, refl) ∙ sym (vector-fifo calls fits)
