-- ===== src/Common/Text/Utf8.antt =====
-- `str.encode("utf8")` and the strict `bytes.decode("utf8")`. A lone surrogate, which Python
-- refuses to encode, is encoded here like any other number.
use Prim.Native.Nat.{ℕ, ◌+◌, ◌-◌, ◌*◌, ◌/◌, ◌%◌}
use mathlib.Core.Bool.{Bool, true, false, ◌&&◌, not}
use mathlib.Core.Option.{Option, none, some}
use mathlib.Core.Option
use mathlib.Core.List.{List, [], ◌∷◌, ◌++◌}
use drivers_evergreen_tools.Common.Tests.{ltb, leb, if◌then◌else◌}

abbrev encode_char : ℕ → List ℕ
encode_char c =
    if ltb c 0x80
    then c ∷ []
    else if ltb c 0x800
    then (0xC0 + c / 64) ∷ (0x80 + c % 64) ∷ []
    else if ltb c 0x10000
    then (0xE0 + c / 4096) ∷ (0x80 + c / 64 % 64) ∷ (0x80 + c % 64) ∷ []
    else (0xF0 + c / 262144) ∷ (0x80 + c / 4096 % 64) ∷ (0x80 + c / 64 % 64) ∷ (0x80 + c % 64) ∷ []

unfoldable pub encode : List ℕ → List ℕ
encode [] = []
encode (c ∷ s) = encode_char c ++ encode s

abbrev is_tail : ℕ → Bool
is_tail b = leb 0x80 b && ltb b 0xC0

abbrev push : Bool → ℕ → Option (List ℕ) → Option (List ℕ)
push true c rest = Option.map (λ s. c ∷ s) rest
push false c rest = none

abbrev two : ℕ → ℕ → ℕ
two a b = (a - 0xC0) * 64 + (b - 0x80)

abbrev three : ℕ → ℕ → ℕ → ℕ
three a b c = (a - 0xE0) * 4096 + (b - 0x80) * 64 + (c - 0x80)

abbrev four : ℕ → ℕ → ℕ → ℕ → ℕ
four a b c d = (a - 0xF0) * 262144 + (b - 0x80) * 4096 + (c - 0x80) * 64 + (d - 0x80)

abbrev is_surrogate : ℕ → Bool
is_surrogate c = leb 0xD800 c && ltb c 0xE000

-- `none` for the UnicodeDecodeError: a stray or missing tail byte, an overlong form, a surrogate,
-- or a number above U+10FFFF.
unfoldable pub decode : List ℕ → Option (List ℕ)
decode [] = some []
decode (a ∷ []) = push (ltb a 0x80) a (some [])
decode (a ∷ b ∷ []) =
    let plain = decode (b ∷ []) in
    if ltb a 0x80
    then push true a plain
    else push (leb 0xC2 a && ltb a 0xE0 && is_tail b) (two a b) (some [])
decode (a ∷ b ∷ c ∷ []) =
    let plain = decode (b ∷ c ∷ []) in
    let short = decode (c ∷ []) in
    if ltb a 0x80
    then push true a plain
    else if ltb a 0xE0
    then push (leb 0xC2 a && is_tail b) (two a b) short
    else let n = three a b c in
      push (ltb a 0xF0 && is_tail b && is_tail c && leb 0x800 n && not (is_surrogate n)) n (some [])
decode (a ∷ b ∷ c ∷ d ∷ s) =
    let plain = decode (b ∷ c ∷ d ∷ s) in
    let short = decode (c ∷ d ∷ s) in
    let middle = decode (d ∷ s) in
    let long = decode s in
    if ltb a 0x80
    then push true a plain
    else if ltb a 0xE0
    then push (leb 0xC2 a && is_tail b) (two a b) short
    else if ltb a 0xF0
    then (let n = three a b c in
        push (is_tail b && is_tail c && leb 0x800 n && not (is_surrogate n)) n middle)
    else let n = four a b c d in
      push (ltb a 0xF5 && is_tail b && is_tail c && is_tail d && leb 0x10000 n && ltb n 0x110000) n
        long
