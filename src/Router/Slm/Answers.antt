-- ===== src/Router/Slm/Answers.antt =====
-- internal/router/slm.go: what the reading of the routing model's answer can come to.
use nexus_proxy.Shared.{
  ℕ, ◌≡◌, ◌≢◌, ◌⊎◌, inl, inr, refl, sym, ap, ◌∙◌, true, false, Option, none, some, [], ◌∷◌, ◌++◌,
  ◌==◌, ==→eq, arith, Bool-cases, Option-cases,
}
use nexus_proxy.Router.Types.{Route, local, frontier, fusion}
use nexus_proxy.Router.Slm.Scan.{Bytes}
use nexus_proxy.Router.Slm.Balanced.{Body, IsBody, object, Braceless}
use nexus_proxy.Router.Slm.First.{first-found}
use nexus_proxy.Router.Slm.Parse.{
  Library, has_prefix, index, fence, json_fence, no_block, Parsed, decision, unparseable, panicked,
  Exchange, call_failed, reply, SlmError, decided, try_opener, extract_fenced_json, or_else,
  decided_by, parse_object, parse_block, decide_body, parse_slm_decision, route_of, decide_content,
  slm_decide, same_text, local_name, fusion_name,
}

pub List-cases : (cs : Bytes) → (cs ≡ []) ⊎ ((c : ℕ) × ((ds : Bytes) × (cs ≡ c ∷ ds)))
List-cases [] = inl refl
List-cases (c ∷ ds) = inr (c, (ds, refl))

same_text-eq : (cs ds : Bytes) → same_text cs ds ≡ true → cs ≡ ds
unfolding same_text
same_text-eq [] [] h = refl
same_text-eq [] (d ∷ ds) h = ground arith
same_text-eq (c ∷ cs) [] h = ground arith
same_text-eq (c ∷ cs) (d ∷ ds) h = elim (Bool-cases (c == d)) [
  | inl e ↦ let rest = same_text-eq cs ds (rw e at h) in rw (==→eq c d e, rest) refl
  | inr e ↦ ground arith
]

-- The fence of a JSON block starts with the bare fence.
json_fence-prefix : (cs : Bytes) → has_prefix cs fence ≡ false → has_prefix cs json_fence ≡ false
unfolding has_prefix
json_fence-prefix [] h = refl
json_fence-prefix (a ∷ []) h = ground arith
json_fence-prefix (a ∷ b ∷ []) h = ground arith
json_fence-prefix (a ∷ b ∷ c ∷ cs) h = ground arith

index-json_fence : (cs : Bytes) → index cs fence ≡ none → index cs json_fence ≡ none
unfolding index
index-json_fence [] h = refl
index-json_fence (c ∷ cs) h = elim (Bool-cases (has_prefix (c ∷ cs) fence)) [
  | inl e ↦ ground arith
  | inr e ↦ elim (Option-cases (index cs fence)) [
    | inl n ↦ rw (json_fence-prefix (c ∷ cs) e, index-json_fence cs n) refl
    | inr (j, n) ↦ ground arith
  ]
]

module _ (lib : Library) where
  -- The decision, in lower case, is the name of the route.
  abbrev pub Names : Bytes → Route → Type 0
  Names d r =
      ((r ≡ local) × (lib.to_lower d ≡ local_name))
      ⊎ ((r ≡ fusion) × (lib.to_lower d ≡ fusion_name))

  route_of-Names : (d : Bytes) (r : Route) → route_of lib d ≡ r → r ≢ frontier → Names d r
  unfolding route_of
  route_of-Names d r h n =
      let lower = lib.to_lower d in
      elim (Bool-cases (same_text lower local_name)) [
        | inl a ↦ inl (sym h ∙ rw a refl, same_text-eq lower local_name a)
        | inr a ↦ elim (Bool-cases (same_text lower fusion_name)) [
          | inl b ↦ inr (sym h ∙ rw (a, b) refl, same_text-eq lower fusion_name b)
          | inr b ↦ absurd (n (sym h ∙ rw (a, b) refl))
        ]
      ]

  -- What the reply must be for a route that is not the frontier's.
  abbrev pub FromDecision : Exchange → Route → Type 0
  FromDecision x r =
      (body : Bytes) × ((content : Bytes) × ((d : Bytes) × ((x ≡ reply 200 body)
            × ((lib.decode body ≡ some content)
                × ((parse_slm_decision lib (lib.trim_space content) ≡ decision d) × Names d r)))))

  decided_by-cases :
      (p : Parsed) (r : Route) (e : Option SlmError)
      → decided_by lib p ≡ decided r e
      → r ≢ frontier
      → (e ≡ none) × ((d : Bytes) × ((p ≡ decision d) × (route_of lib d ≡ r)))
  unfolding decided_by
  decided_by-cases (decision d) r e h n = (ground arith, (d, (refl, ground arith)))
  decided_by-cases unparseable r e h n = ground arith
  decided_by-cases panicked r e h n = ground arith

  decide_content-cases :
      (content : Bytes) (r : Route) (e : Option SlmError)
      → decide_content lib content ≡ decided r e
      → r ≢ frontier
      → (e ≡ none)
        × ((d : Bytes) × ((parse_slm_decision lib (lib.trim_space content) ≡ decision d)
              × (route_of lib d ≡ r)))
  unfolding decide_content
  decide_content-cases content r e h n = elim (List-cases (lib.trim_space content)) [
    | inl m ↦ ground arith
    | inr (c, (cs, m)) ↦
        let z : decide_content lib content
            ≡ decided_by lib (parse_slm_decision lib (lib.trim_space content)) =
          rw (m, decide_content) refl in
        decided_by-cases (parse_slm_decision lib (lib.trim_space content)) r e (sym z ∙ h) n
  ]

  -- A route other than the frontier comes without an error, from a reply of status 200 whose message holds a
  -- decision which in lower case is "local" or "fusion", the name of that route.
  pub slm_decide_safe :
      (x : Exchange) (r : Route) (e : Option SlmError)
      → slm_decide lib x ≡ decided r e
      → r ≢ frontier
      → (e ≡ none) × FromDecision x r
  unfolding slm_decide decide_body
  slm_decide_safe call_failed r e h n = ground arith
  slm_decide_safe (reply status body) r e h n = elim (Bool-cases (status == 200)) [
    | inl s ↦ elim (Option-cases (lib.decode body)) [
      | inl m ↦ ground arith
      | inr (content, m) ↦
          let z : slm_decide lib (reply status body) ≡ decide_content lib content =
            rw (s, m) refl in
          let (f, (d, g)) = decide_content-cases content r e (sym z ∙ h) n in
          let (parsed, named) = g in
          (
            f,
            (
              body,
              (
                content,
                (
                  d,
                  (
                    ap (λ k. reply k body) (==→eq status 200 s),
                    (m, (parsed, route_of-Names d r named n)),
                  ),
                ),
              ),
            ),
          )
    ]
    | inr s ↦ ground arith
  ]

  try_opener-none :
      (content opener : Bytes)
      → index (lib.to_lower content) opener ≡ none
      → try_opener lib content opener ≡ no_block
  unfolding try_opener
  try_opener-none content opener h = rw (h, try_opener) refl

  no_fence :
      (content : Bytes)
      → index (lib.to_lower content) fence ≡ none
      → extract_fenced_json lib content ≡ no_block
  unfolding extract_fenced_json
  no_fence content h =
      let a = try_opener-none content json_fence (index-json_fence (lib.to_lower content) h) in
      let b = try_opener-none content fence h in rw (a, extract_fenced_json) b

  -- A trimmed answer that is not JSON as a whole and has no fence is read by its first balanced object: what
  -- stands before it without an opening brace, and all that follows it, other objects included, changes
  -- nothing.
  pub parse_prose :
      (pre post d r : Bytes) (b : Body)
      → Braceless pre
      → IsBody b
      → lib.trim_space (pre ++ (object b ++ post)) ≡ pre ++ (object b ++ post)
      → lib.unmarshal [] (pre ++ (object b ++ post)) ≡ (d, false)
      → index (lib.to_lower (pre ++ (object b ++ post))) fence ≡ none
      → lib.unmarshal d (object b) ≡ (r, true)
      → parse_slm_decision lib (pre ++ (object b ++ post)) ≡ decision r
  unfolding parse_slm_decision parse_block parse_object or_else
  parse_prose pre post d r b p g t u i v =
      let content = pre ++ (object b ++ post) in
      let o = first-found content (object b) (pre, (b, (post, (refl, (p, (g, refl)))))) in
      let f = no_fence content i in
      ap
        (λ s.
          or_else lib (lib.unmarshal [] s) (λ e. parse_block lib s e (extract_fenced_json lib s)))
        t
      ∙ ap (λ s. or_else lib s (λ e. parse_block lib content e (extract_fenced_json lib content))) u
      ∙ ap (parse_block lib content d) f
      ∙ (rw (o, parse_object) (rw v refl))
