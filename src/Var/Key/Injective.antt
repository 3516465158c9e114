-- ===== src/Var/Key/Injective.antt =====
-- src/internal.h: `VariableKey` keeps apart any two variables whose dependencies are below 2 ^ 28.
use enoki_jit.Prelude.{ℕ, ◌+◌, ◌*◌, ◌/◌, ◌%◌, ◌^◌, ◌<◌, Bool, ◌≡◌, refl, ap, arith}
use enoki_jit.Bits.{bit_xor_high, bit_and_high, bit_and_fifteen}
use enoki_jit.Types.{type_code_injective, backend_code_injective}
use enoki_jit.Types.Kind.{kind_code_injective}
use enoki_jit.Var.Key.{Variable, VariableKey, flag, mix, variable_key}

mix_lem : (d s : ℕ) → d < 2 ^ 28 → mix d s ≡ d + s / 2 ^ 28 % 16 * 2 ^ 28
unfolding mix
mix_lem d s h =
    rw (bit_and_high 28 15 s, bit_and_fifteen (s / 2 ^ 28)) (bit_xor_high 28 (s / 2 ^ 28 % 16) d h)

mix_parts :
    (d e s t : ℕ)
    → d < 2 ^ 28
    → e < 2 ^ 28
    → mix d s ≡ mix e t
    → (d ≡ e) × (s / 2 ^ 28 % 16 ≡ t / 2 ^ 28 % 16)
mix_parts d e s t p q h =
    let a = mix_lem d s p in let b = mix_lem e t q in (omega arith, omega arith)

-- Four bits from each round and the low sixteen make up the scope.
scope_parts :
    (s t : ℕ)
    → s < 2 ^ 32
    → t < 2 ^ 32
    → s / 2 ^ 28 % 16 ≡ t / 2 ^ 28 % 16
    → s * 16 % 2 ^ 32 / 2 ^ 28 % 16 ≡ t * 16 % 2 ^ 32 / 2 ^ 28 % 16
    → s * 16 % 2 ^ 32 * 16 % 2 ^ 32 / 2 ^ 28 % 16 ≡ t * 16 % 2 ^ 32 * 16 % 2 ^ 32 / 2 ^ 28 % 16
    → s * 16 % 2 ^ 32 * 16 % 2 ^ 32 * 16 % 2 ^ 32 / 2 ^ 28 % 16
      ≡ t * 16 % 2 ^ 32 * 16 % 2 ^ 32 * 16 % 2 ^ 32 / 2 ^ 28 % 16
    → s % 2 ^ 16 ≡ t % 2 ^ 16
    → s ≡ t
scope_parts s t p q a b c d e = omega arith

-- The dependency indices fit below the four bits that carry the scope, and the scope is 32 bits wide.
pub record Fits (v : Variable) : Type 0 where
  pub d0 : v.dep.d0 < 2 ^ 28
  pub d1 : v.dep.d1 < 2 ^ 28
  pub d2 : v.dep.d2 < 2 ^ 28
  pub d3 : v.dep.d3 < 2 ^ 28
  pub scope : v.scope < 2 ^ 32

flag_injective : (a b : Bool) → flag a ≡ flag b → a ≡ b
flag_injective a b h = ground arith

-- All that value numbering compares.
pub record SameValue (v w : Variable) : Type 0 where
  pub size : v.size ≡ w.size
  pub dep : v.dep ≡ w.dep
  pub kind : v.kind ≡ w.kind
  pub backend : v.backend ≡ w.backend
  pub type : v.type ≡ w.type
  pub write_ptr : v.write_ptr ≡ w.write_ptr
  pub scope : v.scope ≡ w.scope
  pub literal : v.literal ≡ w.literal

-- Two variables that fit and have the same packed key agree in all that value numbering compares.
pub variable_key_injective :
    (v w : Variable) → Fits v → Fits w → variable_key v ≡ variable_key w → SameValue v w
unfolding variable_key
variable_key_injective v w f g h =
    let (d0, s0) = mix_parts _ _ _ _ f.d0 g.d0 (ap (λ (k : VariableKey). k.dep.d0) h) in
    let (d1, s1) = mix_parts _ _ _ _ f.d1 g.d1 (ap (λ (k : VariableKey). k.dep.d1) h) in
    let (d2, s2) = mix_parts _ _ _ _ f.d2 g.d2 (ap (λ (k : VariableKey). k.dep.d2) h) in
    let (d3, s3) = mix_parts _ _ _ _ f.d3 g.d3 (ap (λ (k : VariableKey). k.dep.d3) h) in
    record {
      size = ap (λ (k : VariableKey). k.size) h;
      dep = λ i. record { d0 = d0 i; d1 = d1 i; d2 = d2 i; d3 = d3 i };
      kind = kind_code_injective v.kind w.kind (ap (λ (k : VariableKey). k.kind) h);
      backend = backend_code_injective v.backend w.backend (ap (λ (k : VariableKey). k.backend) h);
      type = type_code_injective v.type w.type (ap (λ (k : VariableKey). k.type) h);
      write_ptr = flag_injective v.write_ptr w.write_ptr (ap (λ (k : VariableKey). k.write_ptr) h);
      scope =
          scope_parts v.scope w.scope f.scope g.scope s0 s1 s2 s3
            (ap (λ (k : VariableKey). k.scope_lo) h);
      literal = ap (λ (k : VariableKey). k.literal) h;
    }

-- A change of the counts changes neither.
pub counted-Fits :
    (v : Variable) (a b : ℕ) → Fits v → Fits (record v { ref_count = a; ref_count_se = b })
counted-Fits v a b f = record { d0 = f.d0; d1 = f.d1; d2 = f.d2; d3 = f.d3; scope = f.scope }

pub counted-key :
    (v : Variable) (a b : ℕ)
    → variable_key (record v { ref_count = a; ref_count_se = b }) ≡ variable_key v
unfolding variable_key
counted-key v a b = refl
