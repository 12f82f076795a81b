-- ===== src/Examples/Alu.antt =====
-- Concrete inputs of the arithmetic, the logic, the shifts and the rotations.
use newmacemu.Common.{◌≡◌, refl, true, false, arith, byte, word}
use newmacemu.Ccr.{Ccr}
use newmacemu.Arithmetic.{add, sub, addx, subx}
use newmacemu.Arithmetic.Sum.{IsSum, add-IsSum}
use newmacemu.Arithmetic.Difference.{IsDifference, sub-IsDifference}
use newmacemu.Arithmetic.Extended.{
  IsExtendedSum, addx-IsExtendedSum, IsExtendedDifference, subx-IsExtendedDifference,
}
use newmacemu.Shift.{asr}
use newmacemu.Shift.Arithmetical.{IsFloorShifted, asr-IsFloorShifted}

abbrev clear : Ccr
clear = record { x = false; n = false; z = false; v = false; c = false }

abbrev zero_seen : Ccr
zero_seen = record clear { z = true }

-- 0x7f + 1 overflows to 0x80.
add_overflows :
    add byte clear 0x7f 1
    ≡ record { ccr = record { x = false; n = true; z = false; v = true; c = false }; value = 0x80 }
unfolding add
add_overflows = refl

add-IsSum_example : IsSum byte 0x7f 1 (add byte clear 0x7f 1)
add-IsSum_example = add-IsSum byte clear 0x7f 1 (omega arith) (omega arith)

sub-IsDifference_example : IsDifference word 0x8000 1 (sub word clear 0x8000 1)
sub-IsDifference_example = sub-IsDifference word clear 0x8000 1 (omega arith) (omega arith)

addx-IsExtendedSum_example : IsExtendedSum byte clear 1 0xff true (addx byte clear 1 0xff true)
addx-IsExtendedSum_example = addx-IsExtendedSum byte clear 1 0xff true (omega arith) (omega arith)

subx-IsExtendedDifference_example :
    IsExtendedDifference byte clear 1 0x7f true (subx byte clear 1 0x7f true)
subx-IsExtendedDifference_example =
    subx-IsExtendedDifference byte clear 1 0x7f true (omega arith) (omega arith)

asr-IsFloorShifted_example : IsFloorShifted word 0x8001 1 (asr word clear 0x8001 1)
asr-IsFloorShifted_example = asr-IsFloorShifted word clear 0x8001 1 (omega arith) (omega arith)
