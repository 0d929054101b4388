-- ===== src/Queue/Examples.antt =====
-- Inputs of pomagma/util/queue.cpp: tests and instances of the theorems.
use pomagma.Prelude.{◌≡◌, refl, List, [], ◌∷◌, arith, none}
use pomagma.Queue.{
  pwrite, push_str, try_pop_str, new_vector, push, try_pop, new_file, push_file, try_pop_file,
  push_topic,
}
use pomagma.Queue.Fifo.{Call, put, get, replies, fifo}
use pomagma.Queue.Vector.{vector-fifo}
use pomagma.Queue.File.{file-vector}

abbrev calls : List Call
calls = put (7 ∷ 8 ∷ []) ∷ put (9 ∷ []) ∷ get ∷ get ∷ get ∷ put (5 ∷ []) ∷ get ∷ []

vector-fifo_example : replies push try_pop calls new_vector ≡ fifo calls []
vector-fifo_example = vector-fifo calls (omega arith)

file-vector_example :
    replies push_file try_pop_file calls new_file ≡ replies push try_pop calls new_vector
file-vector_example = file-vector calls (omega arith)

file_replies :
    replies push_file try_pop_file calls new_file ≡ (7 ∷ 8 ∷ []) ∷ (9 ∷ []) ∷ [] ∷ (5 ∷ []) ∷ []
unfolding replies push_file pwrite try_pop_file new_file try_pop_str push_str
file_replies = refl

topic_missing : push_topic push 1 (5 ∷ []) 1 (new_vector ∷ []) ≡ none
unfolding push_topic
topic_missing = refl
