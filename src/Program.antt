-- ===== src/Program.antt =====
-- pomagma/atlas/program.hpp and program.cpp: the instructions of the virtual machine, with the types
-- of their arguments, and the 8-bit numbers by which SEQUENCE says how far to jump.
pub mod Floats
pub mod Examples
use pomagma.Prelude.{ℕ, ◌+◌, ◌-◌, ◌*◌, ◌/◌, ◌%◌, ◌^◌, List, [], ◌∷◌, length}

-- 4 bits of significand and 4 of exponent
unfoldable pub eval_float44 : ℕ → ℕ
eval_float44 num = (num % 16 + 16) * 2 ^ (num / 16) - 16

-- 5 bits of significand and 3 of exponent
unfoldable pub eval_float53 : ℕ → ℕ
eval_float53 num = (num % 32 + 32) * 2 ^ (num / 32) - 32

pub data OpArgType : Type 0 where
  uint8 new_ob ob new_set set : OpArgType
  unary_relation binary_relation : OpArgType
  nullary_function injective_function binary_function symmetric_function : OpArgType

pub data OpCode : Type 0 where
  padding : OpCode
  sequence : OpCode
  given_exists : OpCode
  given_unary_relation : OpCode
  given_binary_relation : OpCode
  given_nullary_function : OpCode
  given_injective_function : OpCode
  given_binary_function : OpCode
  given_symmetric_function : OpCode
  lets_unary_relation : OpCode
  lets_binary_relation_lhs : OpCode
  lets_binary_relation_rhs : OpCode
  lets_injective_function : OpCode
  lets_injective_function_inverse : OpCode
  lets_binary_function_lhs : OpCode
  lets_binary_function_rhs : OpCode
  lets_symmetric_function_lhs : OpCode
  for_neg : OpCode
  for_neg_neg : OpCode
  for_pos_neg : OpCode
  for_pos_neg_neg : OpCode
  for_pos_pos : OpCode
  for_pos_pos_neg : OpCode
  for_pos_pos_neg_neg : OpCode
  for_pos_pos_pos : OpCode
  for_pos_pos_pos_pos : OpCode
  for_pos_pos_pos_pos_pos : OpCode
  for_pos_pos_pos_pos_pos_pos : OpCode
  for_all : OpCode
  for_unary_relation : OpCode
  for_binary_relation_lhs : OpCode
  for_binary_relation_rhs : OpCode
  for_nullary_function : OpCode
  for_injective_function : OpCode
  for_injective_function_key : OpCode
  for_injective_function_val : OpCode
  for_binary_function_lhs : OpCode
  for_binary_function_rhs : OpCode
  for_binary_function_val : OpCode
  for_binary_function_lhs_val : OpCode
  for_binary_function_rhs_val : OpCode
  for_binary_function_lhs_rhs : OpCode
  for_symmetric_function_lhs : OpCode
  for_symmetric_function_val : OpCode
  for_symmetric_function_lhs_val : OpCode
  for_symmetric_function_lhs_rhs : OpCode
  for_block : OpCode
  if_block : OpCode
  if_equal : OpCode
  if_unary_relation : OpCode
  if_binary_relation : OpCode
  if_nullary_function : OpCode
  if_injective_function : OpCode
  if_binary_function : OpCode
  if_symmetric_function : OpCode
  let_nullary_function : OpCode
  let_injective_function : OpCode
  let_binary_function : OpCode
  let_symmetric_function : OpCode
  infer_equal : OpCode
  infer_unary_relation : OpCode
  infer_binary_relation : OpCode
  infer_nullary_function : OpCode
  infer_injective_function : OpCode
  infer_binary_function : OpCode
  infer_symmetric_function : OpCode
  infer_nullary_nullary : OpCode
  infer_nullary_injective : OpCode
  infer_nullary_binary : OpCode
  infer_nullary_symmetric : OpCode
  infer_injective_injective : OpCode
  infer_injective_binary : OpCode
  infer_injective_symmetric : OpCode
  infer_binary_binary : OpCode
  infer_binary_symmetric : OpCode
  infer_symmetric_symmetric : OpCode

-- `g_op_code_arities`
unfoldable pub op_code_arity : OpCode → List OpArgType
op_code_arity padding = []
op_code_arity sequence = uint8 ∷ []
op_code_arity given_exists = new_ob ∷ []
op_code_arity given_unary_relation = unary_relation ∷ new_ob ∷ []
op_code_arity given_binary_relation = binary_relation ∷ new_ob ∷ new_ob ∷ []
op_code_arity given_nullary_function = nullary_function ∷ new_ob ∷ []
op_code_arity given_injective_function = injective_function ∷ new_ob ∷ new_ob ∷ []
op_code_arity given_binary_function = binary_function ∷ new_ob ∷ new_ob ∷ new_ob ∷ []
op_code_arity given_symmetric_function = symmetric_function ∷ new_ob ∷ new_ob ∷ new_ob ∷ []
op_code_arity lets_unary_relation = unary_relation ∷ new_set ∷ []
op_code_arity lets_binary_relation_lhs = binary_relation ∷ ob ∷ new_set ∷ []
op_code_arity lets_binary_relation_rhs = binary_relation ∷ new_set ∷ ob ∷ []
op_code_arity lets_injective_function = injective_function ∷ new_set ∷ []
op_code_arity lets_injective_function_inverse = injective_function ∷ new_set ∷ []
op_code_arity lets_binary_function_lhs = binary_function ∷ ob ∷ new_set ∷ []
op_code_arity lets_binary_function_rhs = binary_function ∷ new_set ∷ ob ∷ []
op_code_arity lets_symmetric_function_lhs = symmetric_function ∷ ob ∷ new_set ∷ []
op_code_arity for_neg = new_ob ∷ set ∷ []
op_code_arity for_neg_neg = new_ob ∷ set ∷ set ∷ []
op_code_arity for_pos_neg = new_ob ∷ set ∷ set ∷ []
op_code_arity for_pos_neg_neg = new_ob ∷ set ∷ set ∷ set ∷ []
op_code_arity for_pos_pos = new_ob ∷ set ∷ set ∷ []
op_code_arity for_pos_pos_neg = new_ob ∷ set ∷ set ∷ set ∷ []
op_code_arity for_pos_pos_neg_neg = new_ob ∷ set ∷ set ∷ set ∷ set ∷ []
op_code_arity for_pos_pos_pos = new_ob ∷ set ∷ set ∷ set ∷ []
op_code_arity for_pos_pos_pos_pos = new_ob ∷ set ∷ set ∷ set ∷ set ∷ []
op_code_arity for_pos_pos_pos_pos_pos = new_ob ∷ set ∷ set ∷ set ∷ set ∷ set ∷ []
op_code_arity for_pos_pos_pos_pos_pos_pos = new_ob ∷ set ∷ set ∷ set ∷ set ∷ set ∷ set ∷ []
op_code_arity for_all = new_ob ∷ []
op_code_arity for_unary_relation = unary_relation ∷ new_ob ∷ []
op_code_arity for_binary_relation_lhs = binary_relation ∷ ob ∷ new_ob ∷ []
op_code_arity for_binary_relation_rhs = binary_relation ∷ new_ob ∷ ob ∷ []
op_code_arity for_nullary_function = nullary_function ∷ new_ob ∷ []
op_code_arity for_injective_function = injective_function ∷ new_ob ∷ new_ob ∷ []
op_code_arity for_injective_function_key = injective_function ∷ ob ∷ new_ob ∷ []
op_code_arity for_injective_function_val = injective_function ∷ new_ob ∷ ob ∷ []
op_code_arity for_binary_function_lhs = binary_function ∷ ob ∷ new_ob ∷ new_ob ∷ []
op_code_arity for_binary_function_rhs = binary_function ∷ new_ob ∷ ob ∷ new_ob ∷ []
op_code_arity for_binary_function_val = binary_function ∷ new_ob ∷ new_ob ∷ ob ∷ []
op_code_arity for_binary_function_lhs_val = binary_function ∷ ob ∷ new_ob ∷ ob ∷ []
op_code_arity for_binary_function_rhs_val = binary_function ∷ new_ob ∷ ob ∷ ob ∷ []
op_code_arity for_binary_function_lhs_rhs = binary_function ∷ ob ∷ ob ∷ new_ob ∷ []
op_code_arity for_symmetric_function_lhs = symmetric_function ∷ ob ∷ new_ob ∷ new_ob ∷ []
op_code_arity for_symmetric_function_val = symmetric_function ∷ new_ob ∷ new_ob ∷ ob ∷ []
op_code_arity for_symmetric_function_lhs_val = symmetric_function ∷ ob ∷ new_ob ∷ ob ∷ []
op_code_arity for_symmetric_function_lhs_rhs = symmetric_function ∷ ob ∷ ob ∷ new_ob ∷ []
op_code_arity for_block = []
op_code_arity if_block = ob ∷ []
op_code_arity if_equal = ob ∷ ob ∷ []
op_code_arity if_unary_relation = unary_relation ∷ ob ∷ []
op_code_arity if_binary_relation = binary_relation ∷ ob ∷ ob ∷ []
op_code_arity if_nullary_function = nullary_function ∷ ob ∷ []
op_code_arity if_injective_function = injective_function ∷ ob ∷ ob ∷ []
op_code_arity if_binary_function = binary_function ∷ ob ∷ ob ∷ ob ∷ []
op_code_arity if_symmetric_function = symmetric_function ∷ ob ∷ ob ∷ ob ∷ []
op_code_arity let_nullary_function = nullary_function ∷ new_ob ∷ []
op_code_arity let_injective_function = injective_function ∷ ob ∷ new_ob ∷ []
op_code_arity let_binary_function = binary_function ∷ ob ∷ ob ∷ new_ob ∷ []
op_code_arity let_symmetric_function = symmetric_function ∷ ob ∷ ob ∷ new_ob ∷ []
op_code_arity infer_equal = ob ∷ ob ∷ []
op_code_arity infer_unary_relation = unary_relation ∷ ob ∷ []
op_code_arity infer_binary_relation = binary_relation ∷ ob ∷ ob ∷ []
op_code_arity infer_nullary_function = nullary_function ∷ ob ∷ []
op_code_arity infer_injective_function = injective_function ∷ ob ∷ ob ∷ []
op_code_arity infer_binary_function = binary_function ∷ ob ∷ ob ∷ ob ∷ []
op_code_arity infer_symmetric_function = symmetric_function ∷ ob ∷ ob ∷ ob ∷ []
op_code_arity infer_nullary_nullary = nullary_function ∷ nullary_function ∷ []
op_code_arity infer_nullary_injective = nullary_function ∷ injective_function ∷ ob ∷ []
op_code_arity infer_nullary_binary = nullary_function ∷ binary_function ∷ ob ∷ ob ∷ []
op_code_arity infer_nullary_symmetric = nullary_function ∷ symmetric_function ∷ ob ∷ ob ∷ []
op_code_arity infer_injective_injective = injective_function ∷ ob ∷ injective_function ∷ ob ∷ []
op_code_arity infer_injective_binary = injective_function ∷ ob ∷ binary_function ∷ ob ∷ ob ∷ []
op_code_arity infer_injective_symmetric =
    injective_function ∷ ob ∷ symmetric_function ∷ ob ∷ ob ∷ []
op_code_arity infer_binary_binary = binary_function ∷ ob ∷ ob ∷ binary_function ∷ ob ∷ ob ∷ []
op_code_arity infer_binary_symmetric = binary_function ∷ ob ∷ ob ∷ symmetric_function ∷ ob ∷ ob ∷ []
op_code_arity infer_symmetric_symmetric =
    symmetric_function ∷ ob ∷ ob ∷ symmetric_function ∷ ob ∷ ob ∷ []

-- The instructions in the order of their codes
abbrev pub op_codes : List OpCode
op_codes =
    padding ∷ sequence ∷ given_exists ∷ given_unary_relation ∷ given_binary_relation
    ∷ given_nullary_function ∷ given_injective_function ∷ given_binary_function
    ∷ given_symmetric_function ∷ lets_unary_relation ∷ lets_binary_relation_lhs
    ∷ lets_binary_relation_rhs ∷ lets_injective_function ∷ lets_injective_function_inverse
    ∷ lets_binary_function_lhs ∷ lets_binary_function_rhs ∷ lets_symmetric_function_lhs ∷ for_neg
    ∷ for_neg_neg ∷ for_pos_neg ∷ for_pos_neg_neg ∷ for_pos_pos ∷ for_pos_pos_neg
    ∷ for_pos_pos_neg_neg ∷ for_pos_pos_pos ∷ for_pos_pos_pos_pos ∷ for_pos_pos_pos_pos_pos
    ∷ for_pos_pos_pos_pos_pos_pos ∷ for_all ∷ for_unary_relation ∷ for_binary_relation_lhs
    ∷ for_binary_relation_rhs ∷ for_nullary_function ∷ for_injective_function
    ∷ for_injective_function_key ∷ for_injective_function_val ∷ for_binary_function_lhs
    ∷ for_binary_function_rhs ∷ for_binary_function_val ∷ for_binary_function_lhs_val
    ∷ for_binary_function_rhs_val ∷ for_binary_function_lhs_rhs ∷ for_symmetric_function_lhs
    ∷ for_symmetric_function_val ∷ for_symmetric_function_lhs_val ∷ for_symmetric_function_lhs_rhs
    ∷ for_block ∷ if_block ∷ if_equal ∷ if_unary_relation ∷ if_binary_relation ∷ if_nullary_function
    ∷ if_injective_function ∷ if_binary_function ∷ if_symmetric_function ∷ let_nullary_function
    ∷ let_injective_function ∷ let_binary_function ∷ let_symmetric_function ∷ infer_equal
    ∷ infer_unary_relation ∷ infer_binary_relation ∷ infer_nullary_function
    ∷ infer_injective_function ∷ infer_binary_function ∷ infer_symmetric_function
    ∷ infer_nullary_nullary ∷ infer_nullary_injective ∷ infer_nullary_binary
    ∷ infer_nullary_symmetric ∷ infer_injective_injective ∷ infer_injective_binary
    ∷ infer_injective_symmetric ∷ infer_binary_binary ∷ infer_binary_symmetric
    ∷ infer_symmetric_symmetric ∷ []

unfoldable pub op_code_count : ℕ
op_code_count = length op_codes
