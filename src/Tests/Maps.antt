-- ===== src/Tests/Maps.antt =====
-- Concrete maps that take the place of `tsl::robin_map` in the tests.
use text.Mathlib.Text
use text.Mathlib.TextEquality
use enoki_jit.Prelude.{ℕ, Bool, true, ◌&&◌, ◌≡◌, ◌↔◌, ◌==◌, arith}
use enoki_jit.RobinMap.{RobinMap}
use enoki_jit.RobinMap.Assoc.{assoc_map}
use enoki_jit.Registry.{DomainKey}
use enoki_jit.Var.Key.{Deps, VariableKey}

abbrev same_domain : DomainKey → DomainKey → Bool
same_domain (a, b) (c, d) = Text.◌==◌ a c && Text.◌==◌ b d

pub same_domain_iff : (a b : DomainKey) → (same_domain a b ≡ true) ↔ (a ≡ b)
same_domain_iff (a, b) (c, d) = (
  λ h. ground (arith, TextEquality.eq_iff a c, TextEquality.eq_iff b d),
  λ h. ground (arith, TextEquality.eq_iff a c, TextEquality.eq_iff b d),
)

unfoldable pub domain_map : RobinMap DomainKey ℕ
unfolding assoc_map
domain_map = assoc_map same_domain same_domain_iff

abbrev same_deps : Deps → Deps → Bool
same_deps a b = (a.d0 == b.d0) && ((a.d1 == b.d1) && ((a.d2 == b.d2) && (a.d3 == b.d3)))

pub same_deps_iff : (a b : Deps) → (same_deps a b ≡ true) ↔ (a ≡ b)
same_deps_iff a b = (λ h. ground arith, λ h. ground arith)

abbrev same_key : VariableKey → VariableKey → Bool
same_key a b =
    (a.size == b.size)
    && (same_deps a.dep b.dep
        && ((a.kind == b.kind)
            && ((a.backend == b.backend)
                && ((a.type == b.type)
                    && ((a.write_ptr == b.write_ptr)
                        && ((a.scope_lo == b.scope_lo) && (a.literal == b.literal)))))))

pub same_key_iff : (a b : VariableKey) → (same_key a b ≡ true) ↔ (a ≡ b)
same_key_iff a b =
    (λ h. ground (arith, same_deps_iff a.dep b.dep), λ h. ground (arith, same_deps_iff a.dep b.dep))

unfoldable pub key_map : RobinMap VariableKey ℕ
unfolding assoc_map
key_map = assoc_map same_key same_key_iff
