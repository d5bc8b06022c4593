-- ===== src/Transport/Examples.antt =====
-- internal/transport/egressguard.go: the guard over a small network, whose addresses are numbers.
use text.Mathlib.Text.{◌==◌ as str_eq}
use nexus_proxy.Shared.{
  ℕ, ◌+◌, ◌≡◌, ◌↔◌, ◌⊎◌, refl, true, false, String, Option, none, some, List, [], ◌∷◌, ◌==◌,
  if◌then◌else◌,
}
use nexus_proxy.Transport.{
  Net, EgressCall, redirect, dial, new_egress_guard, check_redirect, dial_control, ask_all,
}
use nexus_proxy.Transport.Egress.{Permitted, Public, egress_exact}

-- 1 is a loopback address, 2 a private one, 9 a public one.
abbrev small_parse : String → Option ℕ
small_parse s =
    if str_eq s "127.0.0.1"
    then some 1
    else (if str_eq s "10.0.0.1" then some 2 else (if str_eq s "9.9.9.9" then some 9 else none))

abbrev small : Net ℕ ℕ
small = record {
  parse_ip = small_parse;
  split_host = λ s.
      if str_eq s "10.0.0.1:80"
      then some "10.0.0.1"
      else (if str_eq s "127.0.0.1:80" then some "127.0.0.1" else none);
  parse_cidr = λ s. if str_eq s "127.0.0.0/8" then some 1 else none;
  trim_space = λ s. s;
  contains = ◌==◌;
  is_loopback = λ ip. ip == 1;
  is_link_local_unicast = λ ip. false;
  is_private = λ ip. ip == 2;
  is_unspecified = λ ip. ip == 0;
  first_octet = λ ip. none;
}

abbrev three_calls : List (EgressCall ℕ)
three_calls =
    redirect 1 "mixed.example" (some (2 ∷ [])) ∷ dial "10.0.0.1:80" ∷ dial "127.0.0.1:80" ∷ []

-- A name that has a private and a public address is not blocked before the redirect.
mixed_passes :
    (check_redirect small (new_egress_guard small true []) 1 "mixed.example" (some (2 ∷ 9 ∷ []))).1
    ≡ none
unfolding check_redirect new_egress_guard
mixed_passes = refl

-- The zero value of the guard blocks nothing.
zero_value_passes :
    (dial_control small
      (record {
        enabled = false;
        allowed_nets = [];
        blocked_count = 0;
        blocked_redirect = 0;
        blocked_dial = 0;
      })
      "10.0.0.1:80").1
    ≡ none
unfolding dial_control
zero_value_passes = refl

counts_two :
    (ask_all small (new_egress_guard small true ("127.0.0.0/8" ∷ [])) three_calls).blocked_count ≡ 2
unfolding ask_all new_egress_guard
counts_two = refl

egress_exact_example :
    (((dial_control small
          (ask_all small (new_egress_guard small true ("127.0.0.0/8" ∷ [])) three_calls)
          "10.0.0.1:80").1
        ≡ none)
      ↔ (Permitted small ("127.0.0.0/8" ∷ []) 2 ⊎ Public small 2))
    × ((ask_all small (new_egress_guard small true ("127.0.0.0/8" ∷ [])) three_calls).blocked_count
        ≡ (ask_all small
            (new_egress_guard small true ("127.0.0.0/8" ∷ []))
            three_calls).blocked_redirect
          + (ask_all small
              (new_egress_guard small true ("127.0.0.0/8" ∷ []))
              three_calls).blocked_dial)
egress_exact_example =
    egress_exact small ("127.0.0.0/8" ∷ []) three_calls "10.0.0.1:80" "10.0.0.1" 2 refl refl
