-- ===== src/Program/Examples.antt =====
-- Inputs of pomagma/atlas/program.hpp: the static assertions of the code, and an instance.
use pomagma.Prelude.{◌≡◌, ◌<◌, refl, arith, some, get_elem?}
use pomagma.Program.{eval_float44, eval_float53, op_code_count, op_codes, infer_symmetric_symmetric}
use pomagma.Program.Floats.{eval_float53-lt}

float44_asserted :
    (eval_float44 10 ≡ 10)
    × (eval_float44 45 ≡ 100)
    × (eval_float44 96 ≡ 1008)
    × (eval_float44 148 ≡ 10224)
    × (eval_float44 201 ≡ 102384)
    × (eval_float44 255 ≡ 1015792)
unfolding eval_float44
float44_asserted = (refl, refl, refl, refl, refl, refl)

float53_asserted :
    (eval_float53 10 ≡ 10)
    × (eval_float53 65 ≡ 100)
    × (eval_float53 161 ≡ 1024)
    × (eval_float53 255 ≡ 8032)
unfolding eval_float53
float53_asserted = (refl, refl, refl, refl)

op_codes_counted : op_code_count ≡ 76
unfolding op_code_count
op_codes_counted = refl

last_op_code : get_elem? op_codes 75 ≡ some infer_symmetric_symmetric
last_op_code = refl

eval_float53-lt_example : eval_float53 65 < eval_float53 161
eval_float53-lt_example = eval_float53-lt 65 161 (omega arith)
