-- ===== src/Prelude/Text.antt =====
-- `str` of the standard library as far as the code uses it: white space, words and numbers.
use Prim.Native.Char.{code}
use Prim.Native.String.{String, [] as nil, ◌∷◌ as cons, ◌++◌}
use Prim.Native.Nat.{ℕ, zero, suc, ◌+◌, ◌-◌, ◌*◌, ◌^◌, ◌/◌, ◌%◌}
use mathlib.Core.Bool.{Bool, true, ◌&&◌, ◌||◌}
use mathlib.Core.Option.{Option, none, some}
use mathlib.Core.List.{List, [], ◌∷◌}
use p2p_auction.Prelude.Tests.{leb, ltb, nat_eq, if◌then◌else◌}

-- `char::is_whitespace`, the property White_Space of Unicode.
abbrev pub is_whitespace : ℕ → Bool
is_whitespace c =
    (leb 9 c && leb c 13)
    || (nat_eq c 32
        || (nat_eq c 0x85
            || (nat_eq c 0xA0
                || (nat_eq c 0x1680
                    || ((leb 0x2000 c && leb c 0x200A)
                        || (nat_eq c 0x2028
                            || (nat_eq c 0x2029
                                || (nat_eq c 0x202F || (nat_eq c 0x205F || nat_eq c 0x3000)))))))))

-- `s.trim().is_empty()`.
abbrev pub is_blank : String → Bool
is_blank nil = true
is_blank (cons c s) = is_whitespace (code c) && is_blank s

-- A word that has ended, in front of the others.
abbrev pub flush : String → List String → List String
flush nil words = words
flush (cons c s) words = cons c s ∷ words

-- `split_whitespace`, after the part of a word.
abbrev pub words_from : String → String → List String
words_from word nil = flush word []
words_from word (cons c s) =
    let ended = flush word (words_from nil s) in
    let longer = words_from (word ++ cons c nil) s in
    if is_whitespace (code c) then ended else longer

abbrev pub split_whitespace : String → List String
split_whitespace s = words_from nil s

-- `join(" ")`.
abbrev pub join : List String → String
join [] = nil
join (w ∷ []) = w
join (w ∷ v ∷ ws) = w ++ (" " ++ join (v ∷ ws))

-- The digits of a `u64` after the value so far: no digit may be missing, and none overflow.
abbrev pub parse_digits : ℕ → String → Option ℕ
parse_digits n nil = some n
parse_digits n (cons c s) =
    let rest = parse_digits (10 * n + (code c - b'0')) s in
    if (leb b'0' (code c) && leb (code c) b'9') && ltb (10 * n + (code c - b'0')) (2 ^ 64)
    then rest
    else none

abbrev pub parse_unsigned : String → Option ℕ
parse_unsigned nil = none
parse_unsigned (cons c s) = parse_digits 0 (cons c s)

-- `parse::<u64>()`: one sign `+` is allowed.
abbrev pub parse_u64 : String → Option ℕ
parse_u64 nil = none
parse_u64 (cons c s) = if nat_eq (code c) b'+' then parse_unsigned s else parse_unsigned (cons c s)

-- `to_string` of a number below `10 ^ 20`, as each of 64 bits is, before the digits so far.
abbrev digit : ℕ → String
digit n =
    if nat_eq n 0
    then "0"
    else if nat_eq n 1
    then "1"
    else if nat_eq n 2
    then "2"
    else if nat_eq n 3
    then "3"
    else if nat_eq n 4
    then "4"
    else if nat_eq n 5
    then "5"
    else if nat_eq n 6
    then "6"
    else if nat_eq n 7
    then "7"
    else if nat_eq n 8
    then "8"
    else "9"

abbrev digits : ℕ → ℕ → String → String
digits zero n after = after
digits (suc left) n after =
    let more = digits left (n / 10) (digit (n % 10) ++ after) in
    if ltb n 10 then digit n ++ after else more

abbrev pub to_decimal : ℕ → String
to_decimal n = digits 20 n ""
