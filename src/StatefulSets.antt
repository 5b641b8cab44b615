-- ===== src/StatefulSets.antt =====
-- services/controller/internal/infra/k8s/operator/statefulset/handler.go: the size of a StatefulSet is
-- the pool's expected size.
--
-- A type assertion that does not hold and a nil pointer panic: `none`. The replicas of a StatefulSet,
-- an int32, are not negative: the API server validates it.
use k8s_swarm.Prelude.{Option, none, ◌>>=◌}
use k8s_swarm.Objects.{StatefulSet, Object}
use k8s_swarm.Pool.{Pool, update_expected_size}

unfoldable pub resize_to : Pool → StatefulSet → Option Pool
resize_to p s = s.replicas >>= λ replicas. update_expected_size p replicas

unfoldable pub created : Pool → Object → Option Pool
created p (Object.stateful_set s) = resize_to p s
created p (Object.pod pd) = none
created p (Object.swarm s) = none
created p Object.unknown = none

unfoldable pub updated : Pool → Object → Object → Option Pool
updated p (Object.stateful_set new) old = resize_to p new
updated p (Object.pod pd) old = none
updated p (Object.swarm s) old = none
updated p Object.unknown old = none

unfoldable pub deleted : Pool → Object → Option Pool
deleted p (Object.stateful_set s) = update_expected_size p 0
deleted p (Object.pod pd) = none
deleted p (Object.swarm s) = none
deleted p Object.unknown = none
