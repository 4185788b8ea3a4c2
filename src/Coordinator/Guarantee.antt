-- ===== src/Coordinator/Guarantee.antt =====
-- The global limit of a tenant, over any history of lease calls of all tenants.
use ratelimiter.Base.{
  ℕ, ◌+◌, ◌-◌, ◌*◌, ◌≤◌, ◌<◌, ◌≡◌, refl, ◌≢◌, String, List, [], ◌∷◌, Option, none, some, arith, All,
  str_eq, eq_iff, Bool-cases, inl, inr, mul-sub, mul_mono, ◌⊎◌, ◌∙◌, ap,
}
use ratelimiter.Base.Int.{ℤ, to_nat}
use ratelimiter.Base.Dict.{lookup, lookup-insert_self}
use ratelimiter.Bucket
use ratelimiter.Bucket.{token, refill}
use ratelimiter.Bucket.Bounds.{refill-Refilled, take_up_to_lem}
use ratelimiter.Config.{Config}
use ratelimiter.Coordinator.{
  TenantState, Server, new_tenant, new, LeaseRequest, Answer, lease_tenant, handle_lease, serve,
}
use ratelimiter.Coordinator.Accounts.{
  IsAccounted, lease_tenant-IsAccounted, lease_tenant-bucket, new_tenant-IsAccounted,
}
use ratelimiter.Coordinator.Tenants.{
  lookup-new_tenants, undecoded, unnamed, handle_lease_refused, handle_lease_served,
  handle_lease_isolated,
}

-- Tenant `t` of a server: its books are in order and its bucket is not ahead of `end`.
pub record IsServed (cfg : Config) (t : String) (rate cap since end : ℕ) (s : Server) : Type 0 where
  pub same_cfg : s.cfg ≡ cfg
  pub state : TenantState
  pub found : lookup t s.tenants ≡ some state
  pub books : IsAccounted rate cap since (to_nat cfg.lease.size) state
  pub present : state.bucket.last ≤ end

lease_tenant-present :
    (cfg : Config) (ts : TenantState) (now end : ℕ)
    → ts.bucket.last ≤ end
    → now ≤ end
    → (lease_tenant cfg ts now).0.bucket.last ≤ end
lease_tenant-present cfg ts now end h k = ground (
  arith,
  lease_tenant-bucket cfg ts now,
  take_up_to_lem ts.bucket (to_nat cfg.lease.size) now,
  refill-Refilled ts.bucket now,
)

-- Two names are equal or they are not.
String-cases : (a b : String) → (a ≡ b) ⊎ (a ≢ b)
String-cases a b = elim (Bool-cases (str_eq a b)) [
  | inl e ↦ inl ((eq_iff a b).0 e)
  | inr e ↦ inr (λ h. ground (arith, eq_iff a b))
]

handle_lease-cfg :
    (s : Server) (req : Option LeaseRequest) (now : ℕ) → (handle_lease s req now).0.cfg ≡ s.cfg
unfolding handle_lease
handle_lease-cfg s none now = refl
handle_lease-cfg s (some r) now = ground arith

module _ {cfg : Config} {t : String} {rate cap since end : ℕ} where
  -- A call of another tenant, or one that is refused, leaves the tenant as it is.
  untouched :
      {s s' : Server}
      → IsServed cfg t rate cap since end s
      → s'.cfg ≡ s.cfg
      → lookup t s'.tenants ≡ lookup t s.tenants
      → IsServed cfg t rate cap since end s'
  untouched v c e = record {
    same_cfg = c ∙ v.same_cfg;
    state = v.state;
    found = e ∙ v.found;
    books = v.books;
    present = v.present;
  }

  own_call :
      (s : Server) (r : LeaseRequest) (now : ℕ)
      → now ≤ end
      → IsServed cfg t rate cap since end s
      → r.tenant ≡ t
      → r.tenant ≢ ""
      → IsServed cfg t rate cap since end (handle_lease s (some r) now).0
  own_call s r now h v same named =
      rw (handle_lease_served s r now {ts = v.state} named (rw same v.found)) (record {
        same_cfg = v.same_cfg;
        state = (lease_tenant s.cfg v.state now).0;
        found = rw same (lookup-insert_self t (lease_tenant s.cfg v.state now).0 s.tenants);
        books = rw v.same_cfg (lease_tenant-IsAccounted cfg v.state now v.books);
        present = rw v.same_cfg (lease_tenant-present cfg v.state now end v.present h);
      })

  handle_lease-IsServed :
      (s : Server) (req : Option LeaseRequest) (now : ℕ)
      → now ≤ end
      → IsServed cfg t rate cap since end s
      → IsServed cfg t rate cap since end (handle_lease s req now).0
  handle_lease-IsServed s none now h v = untouched v (handle_lease-cfg s none now) (
      ap (λ (q : Server × Answer). lookup t q.0.tenants)
        (handle_lease_refused s none now (undecoded refl refl)))
  handle_lease-IsServed s (some r) now h v = elim (String-cases r.tenant t) [
    | inr other ↦
        untouched v (handle_lease-cfg s (some r) now) (handle_lease_isolated s r now t other)
    | inl same ↦ elim (String-cases r.tenant "") [
      | inl empty ↦ untouched v (handle_lease-cfg s (some r) now) (
          ap (λ (q : Server × Answer). lookup t q.0.tenants)
            (handle_lease_refused s (some r) now (unnamed r refl empty refl)))
      | inr named ↦ own_call s r now h v same named
    ]
  ]

  serve-IsServed :
      (s : Server) (calls : List (Option LeaseRequest × ℕ))
      → All (λ call. call.1 ≤ end) calls
      → IsServed cfg t rate cap since end s
      → IsServed cfg t rate cap since end (serve s calls)
  unfolding serve
  serve-IsServed s [] h v = v
  serve-IsServed s ((req, now) ∷ calls) h v =
      serve-IsServed (handle_lease s req now).0 calls h.1 (handle_lease-IsServed s req now h.0 v)

-- A new coordinator has every configured tenant's books in order.
new-IsServed :
    (cfg : Config) (started now end : ℕ) (t : String) (rate : ℤ)
    → now ≤ end
    → lookup t cfg.tenants ≡ some rate
    → IsServed cfg t (to_nat rate) (to_nat rate * 1_000_000_000) now end (new cfg started now)
unfolding new new_tenant Bucket.new
new-IsServed cfg started now end t rate h e = record {
  same_cfg = refl;
  state = new_tenant now rate;
  found = rw (lookup-new_tenants now cfg.tenants t, e) refl;
  books = new_tenant-IsAccounted now (to_nat cfg.lease.size) rate;
  present = h;
}

-- For a coordinator started at `now` and any history of lease calls of all tenants handled by `end`:
-- a tenant with a configured rate is there, and the tokens granted to it are at most one second of
-- its rate, the burst, plus the rate times the time since the start.
pub granted_within_limit :
    (cfg : Config) (started now end : ℕ) (t : String) (rate : ℤ)
    (calls : List (Option LeaseRequest × ℕ))
    → now ≤ end
    → lookup t cfg.tenants ≡ some rate
    → All (λ call. call.1 ≤ end) calls
    → (ts : TenantState) × (lookup t (serve (new cfg started now) calls).tenants ≡ some ts)
      × (token * ts.tokens_granted ≤ to_nat rate * 1_000_000_000 + to_nat rate * (end - now))
granted_within_limit cfg started now end t rate calls h e k =
    let v : IsServed cfg t (to_nat rate) (to_nat rate * 1_000_000_000) now end
        (serve (new cfg started now) calls) =
      serve-IsServed (new cfg started now) calls k (new-IsServed cfg started now end t rate h e) in
    (
      v.state,
      v.found,
      omega (
        arith,
        v.books.covered,
        mul-sub (to_nat rate) now end h,
        mul_mono (to_nat rate) v.state.bucket.last end v.present,
      ),
    )

-- A tenant whose limit is below one token per second, which the configuration allows, is never
-- granted a token, whatever the history of lease calls: one second of its rate is less than a token.
pub slow_tenant_starves :
    (cfg : Config) (started now end : ℕ) (t : String) (rate : ℤ)
    (calls : List (Option LeaseRequest × ℕ))
    → now ≤ end
    → lookup t cfg.tenants ≡ some rate
    → to_nat rate < 1000
    → All (λ call. call.1 ≤ end) calls
    → (ts : TenantState) × (lookup t (serve (new cfg started now) calls).tenants ≡ some ts)
      × (ts.tokens_granted ≡ 0)
slow_tenant_starves cfg started now end t rate calls h e slow k =
    let v : IsServed cfg t (to_nat rate) (to_nat rate * 1_000_000_000) now end
        (serve (new cfg started now) calls) =
      serve-IsServed (new cfg started now) calls k (new-IsServed cfg started now end t rate h e) in
    (v.state, v.found, v.books.starved (omega arith))
