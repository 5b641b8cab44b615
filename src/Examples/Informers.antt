-- ===== src/Examples/Informers.antt =====
-- An informer for Swarms, asked for in a new factory.
use k8s_swarm.Prelude.{ℕ, [], none, some, ◌≡◌, ◌≤◌, refl, codes, lookup}
use k8s_swarm.Informers.{
  Informer, Factory, new_factory, new_factory_with_options, apply_options, informer_for, start,
}
use k8s_swarm.Informers.Starting.{count}
use k8s_swarm.Informers.Running.{fresh, asked, runs_once}

abbrev new_informer : ℕ → Informer (Unit {0})
new_informer period = record { namespace = []; resync_period = period; tweak_list_options = none }

abbrev factory : Factory (Unit {0})
factory = (informer_for (codes "Swarm") new_informer (new_factory 30)).0

informer_known : lookup (codes "Swarm") factory.informers ≡ some 0
unfolding informer_for new_factory new_factory_with_options apply_options
informer_known = refl

runs_once_example :
    (count 0 factory.running ≤ 1)
    × (count 0 (start factory).running ≡ 1)
    × (informer_for (codes "Swarm") new_informer factory ≡ (factory, 0))
runs_once_example =
    runs_once (codes "Swarm") 0 new_informer (asked (codes "Swarm") new_informer (fresh 30))
      informer_known
