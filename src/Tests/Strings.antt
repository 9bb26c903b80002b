-- ===== src/Tests/Strings.antt =====
-- The string "Hi" at address 100.
use tartaruga.Base.{
  ℕ, ◌+◌, ◌-◌, ◌<◌, ◌≡◌, ◌==◌, ◌&&◌, ltb, leb, if◌then◌else◌, some, inr, refl, arith,
}
use tartaruga.Env.Strings.{Bytes, memcpy, strcpy, copy_bytes}
use tartaruga.Env.Strings.Copy.{memcpy-copies}
use tartaruga.Env.Strings.Terminated.{IsString}

abbrev text : Bytes
text i = if i == 100 then 72 else if i == 101 then 105 else 0

text-lt : (i : ℕ) → text i < 256
text-lt i = ground arith

memcpy-copies_example :
    memcpy text 200 100 8 201
    ≡ (if leb 200 201 && ltb 201 (200 + 8) then text (100 + (201 - 200)) else text 201)
memcpy-copies_example = memcpy-copies text 200 100 8 201 (inr (omega arith)) text-lt

text-IsString : IsString text 100 2
text-IsString = record { body = λ i p. ground arith; ends = refl }

copied : strcpy 3 text 200 100 ≡ some (copy_bytes 3 200 100 text)
unfolding strcpy copy_bytes
copied = refl

-- The string " -42" at address 100.
abbrev numeral : Bytes
numeral i =
    if i == 100
    then 32
    else if i == 101
    then 45
    else if i == 102
    then 52
    else if i == 103
    then 50
    else 0
