-- ===== src/Upstream/Arbiter/Order.antt =====
-- internal/upstream/arbiter_cache.go, the order of use against the map.
use mathlib.Core.List.{◌++◌ as append_list}
use text.Mathlib.Text.{◌==◌ as str_eq}
use nexus_proxy.Shared.{
  ◌<◌, ◌≡◌, refl, sym, ◌∙◌, String, true, false, List, [], ◌∷◌, Option, none, some, length, arith,
  Bool-cases, inl, inr, if◌then◌else◌,
}
use nexus_proxy.Shared.Assoc.{
  string_eq, lookup, insert, lookup-insert, lookup-delete, length-delete_present,
}
use nexus_proxy.Upstream.Arbiter.{
  ArbiterCache, ArbiterCacheEntry, member, without, present, touch, evict_first, remove,
}

-- No key stands twice.
unfoldable pub Distinct : List String → Type 0
Distinct [] = Unit {0}
Distinct (j ∷ js) = (member j js ≡ false) × Distinct js

pub member-append :
    (k j : String) (js : List String)
    → member k (append_list js (j ∷ [])) ≡ (if str_eq j k then true else member k js)
member-append k j [] = refl
member-append k j (i ∷ js) = ground (arith, member-append k j js)

member-without :
    (k j : String) (js : List String)
    → Distinct js
    → member k (without j js) ≡ (if str_eq j k then false else member k js)
unfolding Distinct
member-without k j [] d = ground arith
member-without k j (i ∷ js) (d, ds) = ground (
  arith,
  member-without k j js ds,
  string_eq.beq_iff i j,
  string_eq.beq_iff i k,
  string_eq.beq_iff j k,
)

Distinct-without : (j : String) (js : List String) → Distinct js → Distinct (without j js)
unfolding Distinct
Distinct-without j [] d = tt
Distinct-without j (i ∷ js) (d, ds) = elim (Bool-cases (str_eq i j)) [
  | inl same ↦ rw same ds
  | inr other ↦ rw other (ground (arith, member-without i j js ds), Distinct-without j js ds)
]

pub Distinct-append :
    (j : String) (js : List String)
    → member j js ≡ false
    → Distinct js
    → Distinct (append_list js (j ∷ []))
unfolding Distinct
Distinct-append j [] h d = (refl, tt)
Distinct-append j (i ∷ js) h (d, ds) = (
  ground (arith, member-append i j js, string_eq.beq_iff i j, string_eq.beq_iff j i),
  Distinct-append j js (ground arith) ds,
)

-- The order lists each key of the map once, and nothing else.
pub record Tidy (c : ArbiterCache) : Type 0 where
  pub distinct : Distinct c.lru
  pub matches : (k : String) → member k c.lru ≡ present (lookup k c.items)

-- The same but for one key, which may be missing from the order.
pub record TidyBut (key : String) (c : ArbiterCache) : Type 0 where
  pub distinct : Distinct c.lru
  pub matches : (k : String) → str_eq key k ≡ false → member k c.lru ≡ present (lookup k c.items)

pub str_eq_refl : (k : String) → str_eq k k ≡ true
str_eq_refl k = (string_eq.beq_iff k k).1 refl

pub Tidy-touch :
    (key : String) (c : ArbiterCache)
    → TidyBut key c
    → present (lookup key c.items) ≡ true
    → Tidy (touch c key)
unfolding touch
Tidy-touch key c v h = rw h (record {
  distinct =
      Distinct-append key (without key c.lru)
        (member-without key key c.lru v.distinct ∙ rw (str_eq_refl key))
        (Distinct-without key c.lru v.distinct);
  matches = λ k. elim (Bool-cases (str_eq key k)) [
    | inl same ↦
        rw (member-append k key (without key c.lru), same)
          (rw (← ((string_eq.beq_iff key k).0 same)) (sym h))
    | inr other ↦
        rw (member-append k key (without key c.lru), other)
          (rw (member-without k key c.lru v.distinct, other) (v.matches k other))
  ];
})

pub TidyBut-weaken : (key : String) (c : ArbiterCache) → Tidy c → TidyBut key c
TidyBut-weaken key c v = record { distinct = v.distinct; matches = λ k h. v.matches k }

pub Tidy-evict_first :
    (c : ArbiterCache) (keys : List String) → c.lru ≡ keys → Tidy c → Tidy (evict_first keys c)
unfolding evict_first Distinct
Tidy-evict_first c [] e v = v
Tidy-evict_first c (key ∷ rest) e v =
    let (alone, d) : Distinct (key ∷ rest) = rw e at v.distinct in
    record {
      distinct = d;
      matches = λ k.
          let m : member k (key ∷ rest) ≡ present (lookup k c.items) = rw e at (v.matches k) in
          rw (lookup-delete key k c.items) (ground (arith, m, alone, string_eq.beq_iff key k));
    }

pub Tidy-remove : (c : ArbiterCache) (key : String) → Tidy c → Tidy (remove c key)
unfolding remove
Tidy-remove c key v = record {
  distinct = Distinct-without key c.lru v.distinct;
  matches = λ k.
      member-without k key c.lru v.distinct
      ∙ rw (lookup-delete key k c.items) (ground (arith, v.matches k));
}

some_key :
    (items : List (String × ArbiterCacheEntry))
    → 0 < length items
    → (k : String) × (present (lookup k items) ≡ true)
unfolding lookup
some_key [] h = ground arith
some_key ((k, e) ∷ items) h = (k, rw (str_eq_refl k))

present-some :
    (o : Option ArbiterCacheEntry) → present o ≡ true → (e : ArbiterCacheEntry) × (o ≡ some e)
present-some none h = ground arith
present-some (some e) h = (e, refl)

-- An eviction takes an entry out of a map that is not empty.
pub evict_first-shorter :
    (c : ArbiterCache) (keys : List String)
    → c.lru ≡ keys
    → Tidy c
    → 0 < length c.items
    → length (evict_first keys c).items < length c.items
unfolding evict_first
evict_first-shorter c [] e v h =
    let (k, found) = some_key c.items h in
    let m : member k [] ≡ present (lookup k c.items) = rw e at (v.matches k) in
    ground (arith, m, found)
evict_first-shorter c (key ∷ rest) e v h =
    let m : member key (key ∷ rest) ≡ present (lookup key c.items) = rw e at (v.matches key) in
    let (w, found) = present-some (lookup key c.items) (ground (arith, m, str_eq_refl key)) in
    length-delete_present key w c.items found

pub TidyBut-insert :
    (c : ArbiterCache) (key : String) (e : ArbiterCacheEntry)
    → Tidy c
    → TidyBut key (record c { items = insert key e c.items })
TidyBut-insert c key e v = record {
  distinct = v.distinct;
  matches = λ k other. rw (lookup-insert key k e c.items, other) (v.matches k);
}
