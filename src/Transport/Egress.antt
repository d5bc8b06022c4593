-- ===== src/Transport/Egress.antt =====
-- internal/transport/egressguard.go: which connections the guard lets through.
use text.Mathlib.Text.{◌==◌ as str_eq}
use mathlib.Core.Path.{subst}
use mathlib.Core.Option.{none-ne-some, some-ne-none, some-injective}
use nexus_proxy.Shared.{
  ◌+◌, ◌≡◌, ◌↔◌, ◌⊎◌, refl, sym, inl, inr, Bool, true, false, not, leb, suc, String, Option, none,
  some, List, [], ◌∷◌, arith, Bool-cases, if◌then◌else◌,
}
use nexus_proxy.Transport.{
  Net, EgressGuard, is_host_blocked, EgressError, EgressCall, redirect, dial, keep_cidr,
  parse_allowed, new_egress_guard, octet_zero, is_private_or_loopback, in_allowed, is_ip_blocked,
  check_redirect, dial_ip, dial_host, dial_control, ask_guard, ask_all,
}

module _ {Ip Cidr : Type 0} (net : Net Ip Cidr) where
  -- An entry of the configuration that is not blank and names a network with the address in it.
  unfoldable pub Permits : String → Ip → Type 0
  Permits cidr ip =
      (n : Cidr) × ((str_eq (net.trim_space cidr) "" ≡ false)
        × ((net.parse_cidr (net.trim_space cidr) ≡ some n) × (net.contains n ip ≡ true)))

  unfoldable pub Permitted : List String → Ip → Type 0
  unfolding Permits
  Permitted [] ip = ⊥
  Permitted (cidr ∷ cidrs) ip = Permits cidr ip ⊎ Permitted cidrs ip

  -- The settings are those of a guard, and each block is counted once under its reason.
  record Counted (enabled : Bool) (nets : List Cidr) (g : EgressGuard Cidr) : Type 0 where
    same_enabled : g.enabled ≡ enabled
    same_nets : g.allowed_nets ≡ nets
    sums : g.blocked_count ≡ g.blocked_redirect + g.blocked_dial

  Counted-dial_ip :
      (e : Bool) (nets : List Cidr) (g : EgressGuard Cidr) (o : Option Ip)
      → Counted e nets g
      → Counted e nets (dial_ip net g o).0
  unfolding dial_ip
  Counted-dial_ip e nets g none v = v
  Counted-dial_ip e nets g (some ip) v = elim (Bool-cases (is_ip_blocked net g ip)) [
    | inl b ↦ rw b record {
      same_enabled = v.same_enabled;
      same_nets = v.same_nets;
      sums = ground (arith, v.sums);
    }
    | inr b ↦ rw b v
  ]

  Counted-choice :
      (e : Bool) (nets : List Cidr) (b : Bool) (p q : EgressGuard Cidr × Option EgressError)
      → Counted e nets p.0
      → Counted e nets q.0
      → Counted e nets (if b then p else q).0
  Counted-choice e nets true p q v w = v
  Counted-choice e nets false p q v w = w

  Counted-dial_host :
      (e : Bool) (nets : List Cidr) (g : EgressGuard Cidr) (o : Option String)
      → Counted e nets g
      → Counted e nets (dial_host net g o).0
  unfolding dial_host
  Counted-dial_host e nets g none v = v
  Counted-dial_host e nets g (some host) v = Counted-dial_ip e nets g (net.parse_ip host) v

  Counted-redirected :
      (e : Bool) (nets : List Cidr) (g : EgressGuard Cidr)
      → Counted e nets g
      → Counted e nets (record g {
        blocked_count = suc g.blocked_count;
        blocked_redirect = suc g.blocked_redirect;
      })
  Counted-redirected e nets g v = record {
    same_enabled = v.same_enabled;
    same_nets = v.same_nets;
    sums = ground (arith, v.sums);
  }

  Counted-ask_guard :
      (e : Bool) (nets : List Cidr) (g : EgressGuard Cidr) (call : EgressCall Ip)
      → Counted e nets g
      → Counted e nets (ask_guard net g call).0
  unfolding ask_guard check_redirect dial_control
  Counted-ask_guard e nets g (redirect via host answer) v =
      Counted-choice e nets (not g.enabled) (g, none) _ v
        (Counted-choice e nets (leb 10 via) (g, some EgressError.too_many_redirects) _ v
          (Counted-choice e nets (str_eq host "") (g, none) _ v
            (Counted-choice e nets (is_host_blocked net g (net.parse_ip host) answer) _ (g, none)
              (Counted-redirected e nets g v) v)))
  Counted-ask_guard e nets g (dial address) v =
      Counted-choice e nets (not g.enabled) (g, none) _ v
        (Counted-dial_host e nets g (net.split_host address) v)

  Counted-ask_all :
      (e : Bool) (nets : List Cidr) (g : EgressGuard Cidr) (calls : List (EgressCall Ip))
      → Counted e nets g
      → Counted e nets (ask_all net g calls)
  unfolding ask_all
  Counted-ask_all e nets g [] v = v
  Counted-ask_all e nets g (call ∷ calls) v =
      Counted-ask_all e nets (ask_guard net g call).0 calls (Counted-ask_guard e nets g call v)

  in_allowed-keep_cidr :
      (blank : Bool) (parsed : Option Cidr) (nets : List Cidr) (ip : Ip) (P : Type 0)
      → ((in_allowed net nets ip ≡ true) ↔ P)
      → (in_allowed net (keep_cidr net blank parsed nets) ip ≡ true)
        ↔ (((n : Cidr) × ((blank ≡ false) × ((parsed ≡ some n) × (net.contains n ip ≡ true)))) ⊎ P)
  unfolding in_allowed keep_cidr
  in_allowed-keep_cidr true parsed nets ip P (f, g) =
      ((λ h. inr (f h)), (λ m. elim m [ inl (n, (b, rest)) ↦ ground arith | inr p ↦ g p ]))
  in_allowed-keep_cidr false none nets ip P (f, g) = (
    (λ h. inr (f h)),
    (λ m. elim m [ inl (n, (b, (e, c))) ↦ elim (none-ne-some n e) [ ] | inr p ↦ g p ]),
  )
  in_allowed-keep_cidr false (some n) nets ip P (f, g) = (
    (λ h. elim (Bool-cases (net.contains n ip)) [
      | inl c ↦ inl (n, (refl, (refl, c)))
      | inr c ↦ inr (f (rw c at h))
    ]),
    (λ m. elim m [
      | inl (k, (b, (e, c))) ↦
          let same = subst (λ x. net.contains x ip ≡ true) (sym (some-injective n k e)) c in
          rw same refl
      | inr p ↦ let held = g p in ground (arith, held)
    ]),
  )

  in_allowed-parse_allowed :
      (cidrs : List String) (ip : Ip)
      → (in_allowed net (parse_allowed net cidrs) ip ≡ true) ↔ Permitted cidrs ip
  unfolding in_allowed parse_allowed Permitted
  in_allowed-parse_allowed [] ip = ((λ h. ground arith), (λ m. elim m [ ]))
  in_allowed-parse_allowed (cidr ∷ cidrs) ip =
      let trimmed = net.trim_space cidr in
      in_allowed-keep_cidr (str_eq trimmed "") (net.parse_cidr trimmed) (parse_allowed net cidrs) ip
        (Permitted cidrs ip) (in_allowed-parse_allowed cidrs ip)

  -- An address in none of the ranges that are blocked.
  unfoldable pub Public : Ip → Type 0
  Public ip =
      (net.is_loopback ip ≡ false)
      × ((net.is_link_local_unicast ip ≡ false)
          × ((net.is_private ip ≡ false)
              × ((net.is_unspecified ip ≡ false) × (octet_zero net (net.first_octet ip) ≡ false))))

  decided :
      (allowed : Bool) (ip : Ip) (P : Type 0)
      → ((allowed ≡ true) ↔ P)
      → ((if allowed then false else is_private_or_loopback net ip) ≡ false) ↔ (P ⊎ Public ip)
  unfolding is_private_or_loopback Public
  decided true ip P (f, g) = ((λ h. inl (f refl)), (λ m. refl))
  decided false ip P (f, g) = (
    (λ h. inr (ground arith, (ground arith, (ground arith, (ground arith, ground arith))))),
    (λ m. elim m [
      | inl p ↦ let clash = g p in ground arith
      | inr (a, (b, (c, (d, e)))) ↦ ground arith
    ]),
  )

  through :
      (g : EgressGuard Cidr) (ip : Ip) (P : Type 0)
      → ((is_ip_blocked net g ip ≡ false) ↔ P)
      → ((dial_ip net g (some ip)).1 ≡ none) ↔ P
  unfolding dial_ip
  through g ip P (f, k) = (
    (λ h. elim (Bool-cases (is_ip_blocked net g ip)) [
      | inl b ↦ elim (some-ne-none EgressError.connection_refused (rw b at h)) [ ]
      | inr b ↦ f b
    ]),
    (λ p. rw (k p) refl),
  )

  dialled :
      (g : EgressGuard Cidr) (address host : String) (ip : Ip) (P : Type 0)
      → g.enabled ≡ true
      → net.split_host address ≡ some host
      → net.parse_ip host ≡ some ip
      → (((dial_ip net g (some ip)).1 ≡ none) ↔ P)
      → ((dial_control net g address).1 ≡ none) ↔ P
  unfolding dial_control dial_host
  dialled g address host ip P e s p t =
      subst
        (λ b.
          ((if not b then (g, none) else dial_host net g (net.split_host address)).1 ≡ none) ↔ P)
        (sym e) (rw s (rw p t))

  -- A guard that is enabled, after any redirects and connections: to an address whose host is the text of an IP,
  -- the connection goes through exactly if an entry of the configured list permits the IP or the IP is in none
  -- of the blocked ranges; and the count of blocks is the sum of those of the two reasons.
  pub egress_exact :
      (cidrs : List String) (calls : List (EgressCall Ip)) (address host : String) (ip : Ip)
      → net.split_host address ≡ some host
      → net.parse_ip host ≡ some ip
      → let g = ask_all net (new_egress_guard net true cidrs) calls in
        (((dial_control net g address).1 ≡ none) ↔ (Permitted cidrs ip ⊎ Public ip))
        × (g.blocked_count ≡ g.blocked_redirect + g.blocked_dial)
  unfolding new_egress_guard is_ip_blocked
  egress_exact cidrs calls address host ip s p =
      let g = ask_all net (new_egress_guard net true cidrs) calls in
      let v =
        Counted-ask_all true (parse_allowed net cidrs) (new_egress_guard net true cidrs) calls
          (record { same_enabled = refl; same_nets = refl; sums = omega arith }) in
      let verdict : (is_ip_blocked net g ip ≡ false) ↔ (Permitted cidrs ip ⊎ Public ip) =
        rw v.same_enabled (
          rw v.same_nets (
            decided (in_allowed net (parse_allowed net cidrs) ip) ip (Permitted cidrs ip)
              (in_allowed-parse_allowed cidrs ip))) in
      (
        dialled g address host ip (Permitted cidrs ip ⊎ Public ip) v.same_enabled s p
            (through g ip (Permitted cidrs ip ⊎ Public ip) verdict),
        v.sums,
      )
