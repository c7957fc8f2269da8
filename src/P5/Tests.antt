-- ===== src/P5/Tests.antt =====
-- `weight` at concrete words.
use armcortex_a7os.Base.{◌≡◌, refl, arith}
use armcortex_a7os.P5.{weight}
use armcortex_a7os.P5.Steps.{ones}
use armcortex_a7os.P5.Count.{weight-ones}

of_one_word : weight 0xF0F00001 ≡ 9
unfolding weight
of_one_word = refl

weight-ones_example : weight 0xF0F00001 ≡ ones 32 0xF0F00001
weight-ones_example = weight-ones 0xF0F00001 (omega arith)
