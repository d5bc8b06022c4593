-- ===== src/Router/Dsl/Lowering.antt =====
-- internal/router/dsl.go, `toUnicodeLower`.
use Prim.Native.String.{String}
use text.Mathlib.TextEquality.{Char-path}
use nexus_proxy.Shared.{◌≡◌, refl, ap, sym, false, Bool-cases, inl, inr, arith}
use nexus_proxy.Router.Types.{Env}
use nexus_proxy.Router.Dsl.{has_upper_unicode, lower_runes, to_unicode_lower}

pub lower_runes_unchanged :
    (env : Env) (s : String) → has_upper_unicode env s ≡ false → lower_runes env s ≡ s
unfolding has_upper_unicode lower_runes
lower_runes_unchanged env String.[] h = refl
lower_runes_unchanged env (String.◌∷◌ r s) h =
    let same : r ≡ env.to_lower r = Char-path r (env.to_lower r) (ground arith) in
    rw (← same) (ap (String.◌∷◌ r) (lower_runes_unchanged env s (ground arith)))

-- Skipping the copy for a text without upper-case runes changes nothing: for every text the result is the
-- text with each rune lowered.
pub to_unicode_lower-lower_runes :
    (env : Env) (s : String) → to_unicode_lower env s ≡ lower_runes env s
unfolding to_unicode_lower
to_unicode_lower-lower_runes env s = elim (Bool-cases (has_upper_unicode env s)) [
  | inl upper ↦ rw upper refl
  | inr none_upper ↦ rw none_upper (sym (lower_runes_unchanged env s none_upper))
]
