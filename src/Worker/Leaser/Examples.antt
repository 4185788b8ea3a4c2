-- ===== src/Worker/Leaser/Examples.antt =====
-- Runs of the lease client on responses of the coordinator.
use ratelimiter.Base.{◌≡◌, refl, none, some}
use ratelimiter.Worker.Pool.{grant, no_such_tenant, failed}
use ratelimiter.Worker.Leaser.{lease, response, no_response}

timed_out : lease no_response ≡ failed
unfolding lease
timed_out = refl

not_found : lease (response 404 none) ≡ no_such_tenant
unfolding lease
not_found = refl

garbled : lease (response 200 none) ≡ failed
unfolding lease
garbled = refl

zero_grant :
    lease (response 200 (some (record { granted = 0; ttl_ms = 2000; retry_after_ms = 3 })))
    ≡ grant (record { tokens = 0; ttl = 2_000_000_000; retry_after = 3_000_000 })
unfolding lease
zero_grant = refl
