-- ===== src/Upstream/Arbiter/Examples.antt =====
-- internal/upstream/arbiter_cache.go at concrete inputs: a cap of 2.
use Prim.Native.Char.{Char, code}
use mathlib.Core.Path.{ap₂}
use text.Mathlib.TextEquality.{codes_equal}
use text.Mathlib.TextPositions.{compare_self}
use nexus_proxy.Shared.{
  ◌≡◌, ◌≤◌, ◌<◌, refl, String, Bool, true, false, List, [], ◌∷◌, length, arith, ltb, if◌then◌else◌,
}
use nexus_proxy.Shared.Int.{pos}
use nexus_proxy.Shared.Assoc.{lookup, insert, delete}
use nexus_proxy.Upstream.Arbiter.{
  new_arbiter_cache, set, put, make_room, evict_lru, evict_first, touch,
}
use nexus_proxy.Upstream.Arbiter.Bounded.{Call, sets, gets, calls, entries_capped}

abbrev three : List Call
three =
    sets "a" (pos 1) "x" (pos 9)
    ∷ sets "b" (pos 2) "y" (pos 9)
    ∷ gets "a" (pos 3)
    ∷ sets "c" (pos 4) "z" (pos 9)
    ∷ []

entries_capped_example :
    (length (calls (new_arbiter_cache (pos 9) (pos 2)) three).items
      ≤ (calls (new_arbiter_cache (pos 9) (pos 2)) three).max_entries)
    × (0 < (calls (new_arbiter_cache (pos 9) (pos 2)) three).max_entries)
entries_capped_example = entries_capped (pos 9) (pos 2) three

-- A second write of "b" into the full cache costs "a" its place.
rewrite_evicts :
    (calls (new_arbiter_cache (pos 9) (pos 2)) (
      sets "a" (pos 1) "x" (pos 9)
      ∷ sets "b" (pos 2) "y" (pos 9)
      ∷ sets "b" (pos 3) "z" (pos 9)
      ∷ [])).lru
    ≡ "b" ∷ []
unfolding calls new_arbiter_cache set put make_room evict_lru evict_first touch lookup insert delete
rewrite_evicts = refl

-- Texts in the order of their characters, for hashes that are the texts themselves.
less_text : String → String → Bool
less_text String.[] String.[] = false
less_text String.[] (String.◌∷◌ d t) = true
less_text (String.◌∷◌ c s) String.[] = false
less_text (String.◌∷◌ c s) (String.◌∷◌ d t) =
    let rest = less_text s t in
    if ltb (code c) (code d) then true else (if ltb (code d) (code c) then false else rest)

less_text-asym : (a b : String) → less_text a b ≡ true → less_text b a ≡ false
unfolding less_text
less_text-asym String.[] String.[] h = refl
less_text-asym String.[] (String.◌∷◌ d t) h = refl
less_text-asym (String.◌∷◌ c s) String.[] h = ground arith
less_text-asym (String.◌∷◌ c s) (String.◌∷◌ d t) h = ground (arith, less_text-asym s t)

same_code : (c d : Char) → code c ≡ code d → c ≡ d
same_code c d h = codes_equal c d (rw h (compare_self (code d)))

less_text-total : (a b : String) → less_text a b ≡ false → less_text b a ≡ false → a ≡ b
unfolding less_text
less_text-total String.[] String.[] h k = refl
less_text-total String.[] (String.◌∷◌ d t) h k = ground arith
less_text-total (String.◌∷◌ c s) String.[] h k = ground arith
less_text-total (String.◌∷◌ c s) (String.◌∷◌ d t) h k =
    let e : code c ≡ code d = ground arith in
    let r : s ≡ t = less_text-total s t (ground arith) (ground arith) in
    ap₂ String.◌∷◌ (same_code c d e) r
