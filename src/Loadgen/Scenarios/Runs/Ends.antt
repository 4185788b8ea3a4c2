-- ===== src/Loadgen/Scenarios/Runs/Ends.antt =====
-- Every scenario ends, with an error or with its checks.
use ratelimiter.Config.{Config}
use ratelimiter.Loadgen.Kube.Objects.{Kube}
use ratelimiter.Loadgen.Kube.Client.{Client}
