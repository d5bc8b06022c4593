-- ===== src/RateLimit/ClientIp.antt =====
-- internal/ratelimit/clientip.go: the address that a request is counted for. The functions of the packages
-- net and strings that it calls are given; an address is what `ParseIP` returns.
use text.Mathlib.Text.{◌==◌ as str_eq}
use nexus_proxy.Shared.{
  ◌≡◌, refl, ap, String, Bool, true, false, ◌||◌, List, [], ◌∷◌, ◌++◌, Option, none, some, arith,
  ◌⊎◌, ◌↔◌, inl, inr, Bool-cases, Option-cases, if◌then◌else◌,
}

-- What is used of net and strings.
pub record NetLib (Ip Net : Type 0) : Type 0 where
  pub parse_ip : String → Option Ip
  pub parse_cidr : String → Option Net
  pub host_net : Ip → Net  -- the network of one address, with the mask of its length
  pub ip_string : Ip → String
  pub contains : Net → Ip → Bool
  pub split_comma : String → List String
  pub trim_space : String → String
  pub split_host_port : String → Option String

pub record Request : Type 0 where
  pub remote_addr : String
  pub forwarded_for : String  -- X-Forwarded-For
  pub real_ip : String  -- X-Real-IP

module _ {Ip Net : Type 0} (lib : NetLib Ip Net) where
  open lib use {
    parse_ip, parse_cidr, host_net, ip_string, contains, split_comma, trim_space, split_host_port,
  }

  -- `peerIP`.
  unfoldable pub peer_ip : String → String
  peer_ip addr =
      if str_eq addr "" then "" else elim (split_host_port addr) [ some host ↦ host | none ↦ addr ]

  abbrev pub any_contains : List Net → Ip → Bool
  any_contains [] ip = false
  any_contains (n ∷ ns) ip = if contains n ip then true else any_contains ns ip

  abbrev pub trusts : List Net → Option Ip → Bool
  trusts trusted none = false
  trusts trusted (some ip) = any_contains trusted ip

  -- `anyTrusted`.
  unfoldable pub any_trusted : List Net → String → Bool
  any_trusted trusted ip = trusts trusted (parse_ip ip)

  -- What the walk takes a hop for: an address that is not trusted, or something to step over.
  unfoldable pub untrusted_hop : List Net → String → Option String
  unfolding any_trusted
  untrusted_hop trusted hop =
      let tok = trim_space hop in
      if str_eq tok "" then none else elim (parse_ip tok) [
        | none ↦ none
        | some ip ↦ if any_trusted trusted (ip_string ip) then none else some (ip_string ip)
      ]

  abbrev pub first_hop : Option String → String → String
  first_hop (some ip) rest = ip
  first_hop none rest = rest

  -- `leftmostUntrusted`, of the hops.
  unfoldable pub leftmost_untrusted : List Net → List String → String
  leftmost_untrusted trusted [] = ""
  leftmost_untrusted trusted (hop ∷ hops) =
      first_hop (untrusted_hop trusted hop) (leftmost_untrusted trusted hops)

  -- The part of `Resolve` behind X-Forwarded-For.
  unfoldable pub real_ip_or : String → Request → String
  real_ip_or peer req =
      let xrip = trim_space req.real_ip in
      if str_eq xrip "" then peer else elim (parse_ip xrip) [ none ↦ peer | some ip ↦ ip_string ip ]

  -- `Resolve` for a trusted peer.
  unfoldable pub resolve_forwarded : List Net → String → Request → String
  unfolding real_ip_or
  resolve_forwarded trusted peer req =
      let ip = leftmost_untrusted trusted (split_comma req.forwarded_for) in
      if str_eq req.forwarded_for "" || str_eq ip "" then real_ip_or peer req else ip

  -- `Resolve`; a resolver that is nil trusts nobody, as the empty list does.
  unfoldable pub resolve : List Net → Request → String
  unfolding peer_ip any_trusted resolve_forwarded
  resolve trusted req =
      let peer = peer_ip req.remote_addr in
      if any_trusted trusted peer then resolve_forwarded trusted peer req else peer

  -- The loop of `ParseTrustedCIDRs`; none is its error.
  unfoldable pub parse_entries : List String → Option (List Net)
  parse_entries [] = some []
  parse_entries (part ∷ parts) =
      let p = trim_space part in
      let rest = parse_entries parts in
      if str_eq p "" then rest else elim (parse_cidr p) [
        | some net ↦ elim rest [ none ↦ none | some nets ↦ some (net ∷ nets) ]
        | none ↦ elim (parse_ip p) [
          | none ↦ none
          | some ip ↦ elim rest [ none ↦ none | some nets ↦ some (host_net ip ∷ nets) ]
        ]
      ]

  -- `ParseTrustedCIDRs`.
  unfoldable pub parse_trusted_cidrs : String → Option (List Net)
  unfolding parse_entries
  parse_trusted_cidrs raw =
      if str_eq (trim_space raw) "" then some [] else parse_entries (split_comma (trim_space raw))

  -- For a peer that is not trusted the headers change nothing: the request is counted for the peer.
  pub resolve_untrusted :
      (trusted : List Net) (req : Request)
      → any_trusted trusted (peer_ip req.remote_addr) ≡ false
      → resolve trusted req ≡ peer_ip req.remote_addr
  unfolding resolve
  resolve_untrusted trusted req h = rw h

  -- One of the networks holds the address.
  abbrev pub Held : List Net → Ip → Type 0
  Held [] ip = ⊥
  Held (n ∷ ns) ip = (contains n ip ≡ true) ⊎ Held ns ip

  any_contains-Held : (ns : List Net) (ip : Ip) → (any_contains ns ip ≡ true) ↔ Held ns ip
  any_contains-Held [] ip = ((λ h. ground arith), (λ h. elim h [ ]))
  any_contains-Held (n ∷ ns) ip = elim (Bool-cases (contains n ip)) [
    | inl c ↦ ((λ h. inl c), (λ h. rw c refl))
    | inr c ↦ (
      (λ h. inr ((any_contains-Held ns ip).0 (rw c at h))),
      (λ h. elim h [ inl d ↦ ground arith | inr d ↦ rw c ((any_contains-Held ns ip).1 d) ]),
    )
  ]

  -- An address in a trusted network.
  abbrev pub Trusted : List Net → String → Type 0
  Trusted trusted s = (ip : Ip) × ((parse_ip s ≡ some ip) × Held trusted ip)

  any_trusted-Trusted :
      (trusted : List Net) (s : String) → (any_trusted trusted s ≡ true) ↔ Trusted trusted s
  unfolding any_trusted
  any_trusted-Trusted trusted s = elim (Option-cases (parse_ip s)) [
    | inl n ↦ ((λ h. ground arith), (λ (ip, (e, m)). ground arith))
    | inr (ip, n) ↦ (
      (λ h. (ip, (n, (any_contains-Held trusted ip).0 (rw n at h)))),
      (λ (i, (e, m)).
          let same : i ≡ ip = ground arith in
          rw n ((any_contains-Held trusted ip).1 (rw same at m))),
    )
  ]

  -- A hop is stepped over: it is blank, it is no address, or the address in it is trusted.
  abbrev pub SteppedOver : List Net → String → Type 0
  SteppedOver trusted hop =
      (str_eq (trim_space hop) "" ≡ true)
      ⊎ ((parse_ip (trim_space hop) ≡ none)
          ⊎ ((ip : Ip) × ((parse_ip (trim_space hop) ≡ some ip) × Trusted trusted (ip_string ip))))

  -- A hop is an address that is not trusted.
  abbrev pub Names : List Net → String → String → Type 0
  Names trusted hop name =
      (ip : Ip) × ((str_eq (trim_space hop) "" ≡ false)
        × ((parse_ip (trim_space hop) ≡ some ip)
            × ((ip_string ip ≡ name) × (Trusted trusted name → ⊥))))

  stepped_over :
      (trusted : List Net) (hop : String)
      → SteppedOver trusted hop
      → untrusted_hop trusted hop ≡ none
  unfolding untrusted_hop
  stepped_over trusted hop (inl blank) = rw blank refl
  stepped_over trusted hop (inr (inl n)) = elim (Bool-cases (str_eq (trim_space hop) "")) [
    | inl b ↦ rw b refl
    | inr b ↦ rw b (rw n refl)
  ]
  stepped_over trusted hop (inr (inr (ip, (n, t)))) =
      let held = (any_trusted-Trusted trusted (ip_string ip)).1 t in
      elim (Bool-cases (str_eq (trim_space hop) "")) [
        | inl b ↦ rw b refl
        | inr b ↦ rw b (rw n (rw held refl))
      ]

  named :
      (trusted : List Net) (hop name : String)
      → Names trusted hop name
      → untrusted_hop trusted hop ≡ some name
  unfolding untrusted_hop
  named trusted hop name (ip, (s, (n, (e, t)))) =
      elim (Bool-cases (any_trusted trusted (ip_string ip))) [
        | inl held ↦ absurd (t ((any_trusted-Trusted trusted name).0 (rw e at held)))
        | inr out ↦ rw s (rw n (rw out (ap (λ x. some x) e)))
      ]

  abbrev pub Skipped : List Net → List String → Type 0
  Skipped trusted [] = Unit {0}
  Skipped trusted (hop ∷ hops) = SteppedOver trusted hop × Skipped trusted hops

  leftmost_prefix :
      (trusted : List Net) (front : List String) (hop : String) (hops : List String) (ip : String)
      → Skipped trusted front
      → untrusted_hop trusted hop ≡ some ip
      → leftmost_untrusted trusted (front ++ (hop ∷ hops)) ≡ ip
  unfolding leftmost_untrusted
  leftmost_prefix trusted [] hop hops ip s h = rw h
  leftmost_prefix trusted (f ∷ front) hop hops ip (s, ss) h =
      rw (stepped_over trusted f s) (leftmost_prefix trusted front hop hops ip ss h)

  leftmost_none :
      (trusted : List Net) (hops : List String)
      → Skipped trusted hops
      → leftmost_untrusted trusted hops ≡ ""
  unfolding leftmost_untrusted
  leftmost_none trusted [] s = refl
  leftmost_none trusted (f ∷ front) (s, ss) =
      rw (stepped_over trusted f s) (leftmost_none trusted front ss)

  -- Behind a peer in a trusted network, with the header X-Forwarded-For, a request is counted for the first
  -- hop from the left that is an address outside of the trusted networks, if each hop before it is blank, no
  -- address or in a trusted network, and whatever stands behind it.
  pub resolve_leftmost :
      (trusted : List Net) (req : Request) (front : List String) (hop : String) (hops : List String)
      (ip : String)
      → Trusted trusted (peer_ip req.remote_addr)
      → str_eq req.forwarded_for "" ≡ false
      → split_comma req.forwarded_for ≡ front ++ (hop ∷ hops)
      → Skipped trusted front
      → Names trusted hop ip
      → str_eq ip "" ≡ false
      → resolve trusted req ≡ ip
  unfolding resolve
  resolve_leftmost trusted req front hop hops ip peer sent split s h shown =
      rw ((any_trusted-Trusted trusted (peer_ip req.remote_addr)).1 peer) (
        rw (
          resolve_forwarded,
          split,
          leftmost_prefix trusted front hop hops ip s (named trusted hop ip h),
          sent,
          shown,
        ))

  -- Behind a trusted peer, when no hop is an address that is not trusted, the request is counted for the
  -- address in X-Real-IP, or else for the peer.
  pub resolve_all_trusted :
      (trusted : List Net) (req : Request)
      → any_trusted trusted (peer_ip req.remote_addr) ≡ true
      → Skipped trusted (split_comma req.forwarded_for)
      → resolve trusted req ≡ real_ip_or (peer_ip req.remote_addr) req
  unfolding resolve resolve_forwarded
  resolve_all_trusted trusted req peer s =
      rw peer (rw (leftmost_none trusted (split_comma req.forwarded_for) s) (ground arith))
