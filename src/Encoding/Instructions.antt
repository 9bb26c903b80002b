-- ===== src/Encoding/Instructions.antt =====
-- riscv-tests/env/encoding.h: the patterns of all instructions, in the order of the file.
mod Part1
mod Part2
mod Part3
mod Part4
mod Part5
mod Part6
mod Part7
mod Part8
mod Part9
mod Part10
mod Part11
mod Part12
mod Part13
mod Part14
mod Part15
mod Part16
mod Part17
use tartaruga.Base.{List, ◌++◌}
use tartaruga.Encoding.{Pattern}
use Part1.{patterns_1}
use Part2.{patterns_2}
use Part3.{patterns_3}
use Part4.{patterns_4}
use Part5.{patterns_5}
use Part6.{patterns_6}
use Part7.{patterns_7}
use Part8.{patterns_8}
use Part9.{patterns_9}
use Part10.{patterns_10}
use Part11.{patterns_11}
use Part12.{patterns_12}
use Part13.{patterns_13}
use Part14.{patterns_14}
use Part15.{patterns_15}
use Part16.{patterns_16}
use Part17.{patterns_17}

abbrev pub instructions : List Pattern
instructions =
    patterns_1 ++ patterns_2 ++ patterns_3 ++ patterns_4 ++ patterns_5 ++ patterns_6 ++ patterns_7
    ++ patterns_8 ++ patterns_9 ++ patterns_10 ++ patterns_11 ++ patterns_12 ++ patterns_13
    ++ patterns_14 ++ patterns_15 ++ patterns_16 ++ patterns_17
