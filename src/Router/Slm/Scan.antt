-- ===== src/Router/Slm/Scan.antt =====
-- internal/router/slm.go, `extractFirstJSONObject`: the first balanced object of a text, as bytes.
use nexus_proxy.Shared.{
  ℕ, ◌+◌, ◌-◌, Bool, true, false, Option, none, some, List, [], ◌∷◌, ◌==◌, if◌then◌else◌,
}

abbrev pub Bytes : Type 0
Bytes = List ℕ

-- `c` put before what was found behind it.
unfoldable pub put_before : ℕ → Option Bytes → Option Bytes
put_before c none = none
put_before c (some cs) = some (c ∷ cs)

-- The loop, from a depth, inside or outside of a string, and behind a backslash or not: the bytes up to the
-- brace that balances. 34 is the quote, 92 the backslash, 123 and 125 are the braces.
unfoldable pub scan : ℕ → Bool → Bool → Bytes → Option Bytes
scan depth in_string escaped [] = none
scan depth in_string true (c ∷ cs) = put_before c (scan depth in_string false cs)
scan depth true false (c ∷ cs) =
    put_before c
      (scan depth (if c == 92 then true else (if c == 34 then false else true)) (c == 92) cs)
scan depth false false (c ∷ cs) =
    let rest =
      scan (if c == 123 then depth + 1 else (if c == 125 then depth - 1 else depth)) (c == 34) false
        cs in
    if c == 125
    then (if depth == 1 then some (c ∷ []) else put_before c rest)
    else put_before c rest

-- The text from its first opening brace on.
unfoldable pub from_brace : Bytes → Bytes
from_brace [] = []
from_brace (c ∷ cs) = let rest = from_brace cs in if c == 123 then c ∷ cs else rest

-- `extractFirstJSONObject`; no object is the empty text.
unfoldable pub extract_first_json_object : Bytes → Option Bytes
extract_first_json_object content = scan 0 false false (from_brace content)
