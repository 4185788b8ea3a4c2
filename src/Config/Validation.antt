-- ===== src/Config/Validation.antt =====
-- Which configurations `Load` accepts.
use ratelimiter.Base.{
  ℕ, ◌≤◌, ◌≡◌, refl, ◌≢◌, ◌↔◌, inl, inr, String, List, [], ◌∷◌, Option, none, some, arith, false,
  All, Option-cases,
}
use ratelimiter.Base.Int.{ℤ, pos, negsuc, is_below}
use ratelimiter.Config.{Config, loaded, first_bad_rate, validate, load}

-- z is at least k.
abbrev pub IsAtLeast : ℕ → ℤ → Type 0
IsAtLeast k (pos n) = k ≤ n
IsAtLeast k (negsuc n) = ⊥

-- The configurations that the documentation allows.
pub record IsUsable (c : Config) : Type 0 where
  pub size : IsAtLeast 1 c.lease.size
  pub duration : IsAtLeast 100 c.lease.duration_ms
  pub some_tenant : c.tenants ≢ []
  pub rates : All (λ tenant. IsAtLeast 1 tenant.1) c.tenants

pub IsAtLeast-is_below : (k : ℕ) (z : ℤ) → is_below z k ≡ false → IsAtLeast k z
IsAtLeast-is_below k (pos n) h = ground arith
IsAtLeast-is_below k (negsuc n) h = cc

pub is_below-IsAtLeast : (k : ℕ) (z : ℤ) → IsAtLeast k z → is_below z k ≡ false
is_below-IsAtLeast k (pos n) h = ground arith
is_below-IsAtLeast k (negsuc n) h = absurd h

first_bad_rate-none :
    (ts : List (String × ℤ)) → first_bad_rate ts ≡ none → All (λ tenant. IsAtLeast 1 tenant.1) ts
unfolding first_bad_rate
first_bad_rate-none [] h = tt
first_bad_rate-none ((name, rate) ∷ ts) h =
    ground (arith, IsAtLeast-is_below 1 rate, first_bad_rate-none ts)

All-first_bad_rate :
    (ts : List (String × ℤ)) → All (λ tenant. IsAtLeast 1 tenant.1) ts → first_bad_rate ts ≡ none
unfolding first_bad_rate
All-first_bad_rate [] h = refl
All-first_bad_rate ((name, rate) ∷ ts) h =
    ground (arith, is_below-IsAtLeast 1 rate, All-first_bad_rate ts)

validate-IsUsable : (c d : Config) → validate c ≡ loaded d → (c ≡ d) × IsUsable c
unfolding validate
validate-IsUsable c d h = ground (
  arith,
  IsAtLeast-is_below 1 c.lease.size,
  IsAtLeast-is_below 100 c.lease.duration_ms,
  first_bad_rate-none c.tenants,
)

IsUsable-validate : (c : Config) → IsUsable c → validate c ≡ loaded c
unfolding validate
IsUsable-validate c u = ground (
  arith,
  is_below-IsAtLeast 1 c.lease.size,
  is_below-IsAtLeast 100 c.lease.duration_ms,
  All-first_bad_rate c.tenants,
)

-- `Load` returns a configuration exactly when the file can be read and decoded to it and it is
-- usable: a lease size of at least 1, a duration of at least 100 ms, some tenant, and no rate that
-- is 0 or negative. It never changes what it decoded.
pub load_iff :
    (unmarshal : String → Option Config) (file : Option String) (c : Config)
    → (load unmarshal file ≡ loaded c)
      ↔ ((raw : String) × (file ≡ some raw) × (unmarshal raw ≡ some c) × IsUsable c)
unfolding load
load_iff unmarshal none c = (λ h. cc, λ h. cc (h.1))
load_iff unmarshal (some raw) c = elim (Option-cases (unmarshal raw)) [
  | inl e ↦ rw (e, load) (λ h. cc, λ h. ground (arith, h.0, h.1, h.2))
  | inr (d, e) ↦
      rw (e, load)
        (
          λ h. (
            raw,
            refl,
            ground (arith, validate-IsUsable d c h),
            ground (arith, validate-IsUsable d c h),
          ),
          λ h. ground (arith, IsUsable-validate c h.3, h.1, h.2),
        )
]
