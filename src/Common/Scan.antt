-- ===== src/Common/Scan.antt =====
-- The functions of `strings` and `strconv` that take a text apart.
use Prim.Native.Nat.{ℕ, ◌+◌, ◌*◌, ◌-◌, ◌^◌}
use mathlib.Core.Bool.{Bool, ◌&&◌, ◌||◌}
use mathlib.Core.Option.{Option, none, some}
use mathlib.Core.List.{List, [], ◌∷◌, ◌++◌, reverse}
use svc_downloader.Common.Tests.{leb, ltb, ◌==◌, if◌then◌else◌}
use svc_downloader.Common.Bytes.{Bytes}
use svc_downloader.Common.Int.{ℤ, pos, negsuc}

abbrev pub is_digit : ℕ → Bool
is_digit c = leb b'0' c && leb c b'9'

-- The value of decimal digits behind `n`.
unfoldable pub digits_from : ℕ → Bytes → Option ℕ
digits_from n [] = some n
digits_from n (c ∷ s) =
    let rest = digits_from (n * 10 + (c - b'0')) s in if is_digit c then rest else none

unfoldable pub unsigned : Bytes → Option ℕ
unfolding digits_from
unsigned [] = none
unsigned (c ∷ s) = digits_from 0 (c ∷ s)

-- A magnitude that an int64 holds.
abbrev positive64 : Option ℕ → Option ℤ
positive64 none = none
positive64 (some n) = if ltb n (2 ^ 63) then some (pos n) else none

abbrev negated : ℕ → ℤ
negated n = if n == 0 then pos 0 else negsuc (n - 1)

abbrev negative64 : Option ℕ → Option ℤ
negative64 none = none
negative64 (some n) = if leb n (2 ^ 63) then some (negated n) else none

-- strconv.ParseInt(s, 10, 64), and strconv.Atoi
unfoldable pub parse_int : Bytes → Option ℤ
unfolding unsigned
parse_int [] = none
parse_int (c ∷ s) =
    if c == b'-'
    then negative64 (unsigned s)
    else if c == b'+'
    then positive64 (unsigned s)
    else positive64 (unsigned (c ∷ s))

-- What stands before the first `c`, and behind it; `none` if there is none: strings.Index.
abbrev behind : ℕ → Option (Bytes × Bytes) → Option (Bytes × Bytes)
behind a none = none
behind a (some (before, after)) = some (a ∷ before, after)

unfoldable pub cut : ℕ → Bytes → Option (Bytes × Bytes)
cut c [] = none
cut c (a ∷ s) = let rest = cut c s in if a == c then some ([], s) else behind a rest

-- What stands behind the last `c`.
abbrev or_else : Bytes → Option Bytes → Option Bytes
or_else s none = some s
or_else s (some t) = some t

unfoldable pub behind_last : ℕ → Bytes → Option Bytes
behind_last c [] = none
behind_last c (a ∷ s) = let rest = behind_last c s in if a == c then or_else s rest else rest

-- strings.Fields of an ASCII text: `word` is the part that was read of the current field.
abbrev pub is_space : ℕ → Bool
is_space c = c == 32 || leb 9 c && leb c 13

abbrev ended : Bytes → List Bytes → List Bytes
ended [] words = words
ended (c ∷ word) words = (c ∷ word) ∷ words

unfoldable pub fields_from : Bytes → Bytes → List Bytes
fields_from [] word = ended word []
fields_from (c ∷ s) word =
    let next = fields_from s [] in
    let inner = fields_from s (word ++ c ∷ []) in if is_space c then ended word next else inner

unfoldable pub fields : Bytes → List Bytes
unfolding fields_from
fields s = fields_from s []

-- strings.Split(s, sep) for one byte `sep`.
abbrev onto : ℕ → List Bytes → List Bytes
onto a [] = (a ∷ []) ∷ []
onto a (part ∷ parts) = (a ∷ part) ∷ parts

unfoldable pub split : ℕ → Bytes → List Bytes
split sep [] = [] ∷ []
split sep (a ∷ s) = let rest = split sep s in if a == sep then [] ∷ rest else onto a rest

-- strings.TrimSpace of an ASCII text
unfoldable pub trim_left : Bytes → Bytes
trim_left [] = []
trim_left (c ∷ s) = let rest = trim_left s in if is_space c then rest else c ∷ s

unfoldable pub trim_space : Bytes → Bytes
unfolding trim_left
trim_space s = reverse (trim_left (reverse (trim_left s)))
