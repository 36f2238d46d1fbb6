-- ===== src/Itoa/Tests.antt =====
-- Numbers as text, on concrete buffers.
use swallow_os.Prelude.{◌-◌, ◌^◌, update, arith}
use swallow_os.Itoa.{Buffer, itoa_signed}
use swallow_os.Itoa.Numerals.{Prints, itoa_signed-Prints}

abbrev zeros : Buffer
zeros i = 0

itoa_signed-Prints_example :
    Prints 10
      (omega arith)
      (omega arith)
      (itoa_signed 65 (2 ^ 64 - 42) zeros 10)
      (update zeros 0 b'-')
      1
      42
      2
itoa_signed-Prints_example =
    itoa_signed-Prints 10 (omega arith) (omega arith) 2 65 (2 ^ 64 - 42) zeros (omega arith)
      (omega arith) (omega arith) (omega arith)
