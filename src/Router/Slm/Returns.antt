-- ===== src/Router/Slm/Returns.antt =====
-- internal/router/slm.go: when the reading of the routing model's answer returns.
use nexus_proxy.Shared.{
  ℕ, suc, ◌+◌, ◌≡◌, ◌≢◌, ◌≤◌, ◌⊎◌, inl, inr, refl, sym, ap, ◌∙◌, true, false, Option, some, [], ◌∷◌,
  ◌==◌, ==→eq, ltb, length, arith, Bool-cases, Option-cases,
}
use nexus_proxy.Router.Types.{Route}
use nexus_proxy.Router.Slm.Scan.{Bytes, extract_first_json_object}
use nexus_proxy.Router.Slm.Parse.{
  Library, has_prefix, index, fence, json_fence, Fenced, no_block, block, out_of_range, Parsed,
  decision, unparseable, panicked, Exchange, call_failed, reply, SlmError, Decided, decided,
  crashed, block_from, try_opener, extract_fenced_json, or_else, skip_break, drop, decided_by,
  parse_object, parse_block, decide_body, parse_slm_decision, decide_content, slm_decide,
}
use nexus_proxy.Router.Slm.Answers.{List-cases}

Fenced-cases : (f : Fenced) → (f ≡ no_block) ⊎ (((t : Bytes) × (f ≡ block t)) ⊎ (f ≡ out_of_range))
Fenced-cases no_block = inl refl
Fenced-cases (block t) = inr (inl (t, refl))
Fenced-cases out_of_range = inr (inr refl)

Decided-cases :
    (x : Decided) → ((r : Route) × ((e : Option SlmError) × (x ≡ decided r e))) ⊎ (x ≡ crashed)
Decided-cases (decided r e) = inl (r, (e, refl))
Decided-cases crashed = inr refl

has_prefix-le : (cs p : Bytes) → has_prefix cs p ≡ true → length p ≤ length cs
unfolding has_prefix
has_prefix-le cs [] h = omega arith
has_prefix-le [] (p ∷ ps) h = ground arith
has_prefix-le (c ∷ cs) (p ∷ ps) h = elim (Bool-cases (has_prefix cs ps)) [
  | inl e ↦ omega (arith, has_prefix-le cs ps e)
  | inr e ↦ ground arith
]

index-le : (cs p : Bytes) (i : ℕ) → index cs p ≡ some i → i + length p ≤ length cs
unfolding index
index-le [] p i h = elim (Bool-cases (has_prefix [] p)) [
  | inl e ↦ let l = has_prefix-le [] p e in let z : i ≡ 0 = ground arith in omega arith
  | inr e ↦ ground arith
]
index-le (c ∷ cs) p i h = elim (Bool-cases (has_prefix (c ∷ cs) p)) [
  | inl e ↦ let l = has_prefix-le (c ∷ cs) p e in let z : i ≡ 0 = ground arith in omega arith
  | inr e ↦ elim (Option-cases (index cs p)) [
    | inl n ↦ ground arith
    | inr (j, n) ↦ let l = index-le cs p j n in let z : i ≡ suc j = ground arith in omega arith
  ]
]

module _ (lib : Library) where
  block_from-safe :
      (content : Bytes) (start : ℕ)
      → start ≤ length content
      → block_from lib content start ≢ out_of_range
  unfolding block_from
  block_from-safe content start h e =
      let z : ltb (length content) start ≡ false = ground arith in
      elim (Option-cases (index (skip_break (drop start content)) fence)) [
        | inl n ↦ ground arith
        | inr (i, n) ↦ ground arith
      ]

  -- An opener found in a lowered text that is not longer than the text lies inside of the text.
  try_opener-safe :
      (content opener : Bytes)
      → length (lib.to_lower content) ≤ length content
      → try_opener lib content opener ≢ out_of_range
  unfolding try_opener
  try_opener-safe content opener h e = elim (Option-cases (index (lib.to_lower content) opener)) [
    | inl n ↦ ground arith
    | inr (i, n) ↦
        let l = index-le (lib.to_lower content) opener i n in
        let z : try_opener lib content opener ≡ block_from lib content (i + length opener) =
          rw (n, try_opener) refl in
        block_from-safe content (i + length opener) (omega arith) (sym z ∙ e)
  ]

  extract_fenced_json-safe :
      (content : Bytes)
      → length (lib.to_lower content) ≤ length content
      → extract_fenced_json lib content ≢ out_of_range
  unfolding extract_fenced_json
  extract_fenced_json-safe content h e =
      let a = try_opener-safe content json_fence h in
      let b = try_opener-safe content fence h in
      elim (Fenced-cases (try_opener lib content json_fence)) [
        | inl n ↦ b (sym (rw (n, extract_fenced_json) refl) ∙ e)
        | inr (inl (t, n)) ↦ ground (arith, n)
        | inr (inr n) ↦ a n
      ]

  parse_object-safe : (content d : Bytes) → parse_object lib content d ≢ panicked
  unfolding parse_object or_else
  parse_object-safe content d e = elim (Option-cases (extract_first_json_object content)) [
    | inl n ↦ ground arith
    | inr (o, n) ↦ ground arith
  ]

  parse_block-safe :
      (content d : Bytes) (f : Fenced) → f ≢ out_of_range → parse_block lib content d f ≢ panicked
  unfolding parse_block or_else
  parse_block-safe content d no_block n e = parse_object-safe content d e
  parse_block-safe content d (block []) n e = parse_object-safe content d e
  parse_block-safe content d (block (c ∷ cs)) n e =
      let f = parse_object-safe content (lib.unmarshal d (c ∷ cs)).0 in ground (arith, f)
  parse_block-safe content d out_of_range n e = n refl

  -- Lowering leaves the trimmed text no longer than it is.
  abbrev pub Lowers : Bytes → Type 0
  Lowers content = length (lib.to_lower (lib.trim_space content)) ≤ length (lib.trim_space content)

  parse_slm_decision-safe :
      (content : Bytes) → Lowers content → parse_slm_decision lib content ≢ panicked
  unfolding parse_slm_decision or_else
  parse_slm_decision-safe content h e =
      let t = lib.trim_space content in
      let d = (lib.unmarshal [] t).0 in
      let f = parse_block-safe t d (extract_fenced_json lib t) (extract_fenced_json-safe t h) in
      ground arith

  decided_by-safe : (p : Parsed) → p ≢ panicked → decided_by lib p ≢ crashed
  unfolding decided_by
  decided_by-safe (decision d) n e = ground arith
  decided_by-safe unparseable n e = ground arith
  decided_by-safe panicked n e = n refl

  decide_content-safe :
      (content : Bytes) → Lowers (lib.trim_space content) → decide_content lib content ≢ crashed
  unfolding decide_content
  decide_content-safe content h e = elim (List-cases (lib.trim_space content)) [
    | inl m ↦ ground arith
    | inr (c, (cs, m)) ↦
        decided_by-safe _ (parse_slm_decision-safe (c ∷ cs) (rw m at h))
          (sym (rw (m, decide_content) refl) ∙ e)
  ]

  -- The message in a reply, if it has one.
  abbrev pub Says : Exchange → Bytes → Type 0
  Says x content = (body : Bytes) × ((x ≡ reply 200 body) × (lib.decode body ≡ some content))

  slm_decide-safe :
      (x : Exchange)
      → ((content : Bytes) → Says x content → Lowers (lib.trim_space content))
      → slm_decide lib x ≢ crashed
  unfolding slm_decide decide_body
  slm_decide-safe call_failed h e = ground arith
  slm_decide-safe (reply status body) h e = elim (Bool-cases (status == 200)) [
    | inl s ↦ elim (Option-cases (lib.decode body)) [
      | inl m ↦ ground arith
      | inr (content, m) ↦
          decide_content-safe content
            (h content (body, (ap (λ k. reply k body) (==→eq status 200 s), m)))
            (sym (rw (s, m) refl) ∙ e)
    ]
    | inr s ↦ ground arith
  ]

  -- `decide` returns a route for every outcome of its call, without a slice out of range, if the trimmed
  -- content of the message in that reply, should it have one, is not longer in lower case than it is.
  pub slm_decide_returns :
      (x : Exchange)
      → ((content : Bytes) → Says x content → Lowers (lib.trim_space content))
      → (r : Route) × ((e : Option SlmError) × (slm_decide lib x ≡ decided r e))
  slm_decide_returns x h = elim (Decided-cases (slm_decide lib x)) [
    | inl (r, (e, n)) ↦ (r, (e, n))
    | inr n ↦ absurd (slm_decide-safe x h n)
  ]
