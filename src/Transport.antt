-- ===== src/Transport.antt =====
-- internal/transport/egressguard.go: which addresses the outgoing connections may reach. What package net
-- makes of a text or an address is a record of functions; the answer of a lookup is given to each call that
-- makes one. The log is left out.
pub mod Egress
mod Examples
use nexus_proxy.Shared.{
  ℕ, suc, Bool, true, false, not, ◌&&◌, ◌||◌, String, Option, none, some, List, [], ◌∷◌, leb, ◌==◌,
  if◌then◌else◌,
}
use text.Mathlib.Text.{◌==◌ as str_eq}

-- The functions of net and strings. `first_octet` is the first byte of `To4`.
pub record Net (Ip Cidr : Type 0) : Type 0 where
  pub parse_ip : String → Option Ip
  pub split_host : String → Option String
  pub parse_cidr : String → Option Cidr
  pub trim_space : String → String
  pub contains : Cidr → Ip → Bool
  pub is_loopback : Ip → Bool
  pub is_link_local_unicast : Ip → Bool
  pub is_private : Ip → Bool
  pub is_unspecified : Ip → Bool
  pub first_octet : Ip → Option ℕ

-- The counters are not held to their 64 bits.
pub record EgressGuard (Cidr : Type 0) : Type 0 where
  pub enabled : Bool
  pub allowed_nets : List Cidr
  pub blocked_count : ℕ
  pub blocked_redirect : ℕ
  pub blocked_dial : ℕ

pub data EgressError : Type 0 where
  too_many_redirects : EgressError
  redirect_blocked : EgressError
  connection_refused : EgressError

-- What the HTTP client asks the guard: before a redirect, with the number of requests behind it, the host and
-- what a lookup of it answers; before a connection, with its address.
pub data EgressCall (Ip : Type 0) : Type 0 where
  redirect : ℕ → String → Option (List Ip) → EgressCall Ip
  dial : String → EgressCall Ip

module _ {Ip Cidr : Type 0} (net : Net Ip Cidr) where
  unfoldable pub keep_cidr : Bool → Option Cidr → List Cidr → List Cidr
  keep_cidr true parsed nets = nets
  keep_cidr false none nets = nets
  keep_cidr false (some n) nets = n ∷ nets

  -- `NewEgressGuard`, its loop.
  unfoldable pub parse_allowed : List String → List Cidr
  unfolding keep_cidr
  parse_allowed [] = []
  parse_allowed (cidr ∷ cidrs) =
      let trimmed = net.trim_space cidr in
      keep_cidr (str_eq trimmed "") (net.parse_cidr trimmed) (parse_allowed cidrs)

  unfoldable pub new_egress_guard : Bool → List String → EgressGuard Cidr
  unfolding parse_allowed
  new_egress_guard enabled cidrs = record {
    enabled = enabled;
    allowed_nets = parse_allowed cidrs;
    blocked_count = 0;
    blocked_redirect = 0;
    blocked_dial = 0;
  }

  unfoldable pub octet_zero : Option ℕ → Bool
  octet_zero none = false
  octet_zero (some b) = b == 0

  -- `isPrivateOrLoopback`, of an address that is not nil.
  unfoldable pub is_private_or_loopback : Ip → Bool
  unfolding octet_zero
  is_private_or_loopback ip =
      (net.is_loopback ip
        || (net.is_link_local_unicast ip || (net.is_private ip || net.is_unspecified ip)))
      || octet_zero (net.first_octet ip)

  unfoldable pub in_allowed : List Cidr → Ip → Bool
  in_allowed [] ip = false
  in_allowed (n ∷ nets) ip = net.contains n ip || in_allowed nets ip

  -- `isIPBlocked`.
  unfoldable pub is_ip_blocked : EgressGuard Cidr → Ip → Bool
  unfolding is_private_or_loopback in_allowed
  is_ip_blocked g ip =
      if not g.enabled
      then false
      else (if in_allowed g.allowed_nets ip then false else is_private_or_loopback ip)

  unfoldable pub all_blocked : EgressGuard Cidr → List Ip → Bool
  unfolding is_ip_blocked
  all_blocked g [] = true
  all_blocked g (ip ∷ ips) = is_ip_blocked g ip && all_blocked g ips

  -- `isHostBlocked`, of what the lookup of a name answers.
  unfoldable pub names_blocked : EgressGuard Cidr → Option (List Ip) → Bool
  unfolding all_blocked
  names_blocked g none = false
  names_blocked g (some []) = false
  names_blocked g (some (ip ∷ ips)) = all_blocked g (ip ∷ ips)

  unfoldable pub is_host_blocked : EgressGuard Cidr → Option Ip → Option (List Ip) → Bool
  unfolding is_ip_blocked names_blocked
  is_host_blocked g none answer = names_blocked g answer
  is_host_blocked g (some ip) answer = is_ip_blocked g ip

  -- `CheckRedirect`.
  unfoldable pub check_redirect :
      EgressGuard Cidr → ℕ → String → Option (List Ip) → EgressGuard Cidr × Option EgressError
  unfolding is_host_blocked
  check_redirect g via host answer =
      if not g.enabled
      then (g, none)
      else (if leb 10 via
          then (g, some EgressError.too_many_redirects)
          else (if str_eq host ""
              then (g, none)
              else (if is_host_blocked g (net.parse_ip host) answer
                  then (
                    record g {
                      blocked_count = suc g.blocked_count;
                      blocked_redirect = suc g.blocked_redirect;
                    },
                    some EgressError.redirect_blocked,
                  )
                  else (g, none))))

  -- `DialControl`, behind the parsing of the address.
  unfoldable pub dial_ip : EgressGuard Cidr → Option Ip → EgressGuard Cidr × Option EgressError
  unfolding is_ip_blocked
  dial_ip g none = (g, none)
  dial_ip g (some ip) =
      if is_ip_blocked g ip
      then (
        record g { blocked_count = suc g.blocked_count; blocked_dial = suc g.blocked_dial },
        some EgressError.connection_refused,
      )
      else (g, none)

  unfoldable pub dial_host :
      EgressGuard Cidr → Option String → EgressGuard Cidr × Option EgressError
  unfolding dial_ip
  dial_host g none = (g, none)
  dial_host g (some host) = dial_ip g (net.parse_ip host)

  -- `DialControl`.
  unfoldable pub dial_control : EgressGuard Cidr → String → EgressGuard Cidr × Option EgressError
  unfolding dial_host
  dial_control g address = if not g.enabled then (g, none) else dial_host g (net.split_host address)

  -- One question of the client, and several.
  unfoldable pub ask_guard :
      EgressGuard Cidr → EgressCall Ip → EgressGuard Cidr × Option EgressError
  unfolding check_redirect dial_control
  ask_guard g (redirect via host answer) = check_redirect g via host answer
  ask_guard g (dial address) = dial_control g address

  unfoldable pub ask_all : EgressGuard Cidr → List (EgressCall Ip) → EgressGuard Cidr
  unfolding ask_guard
  ask_all g [] = g
  ask_all g (call ∷ calls) = ask_all (ask_guard g call).0 calls
