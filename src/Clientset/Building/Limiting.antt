-- ===== src/Clientset/Building/Limiting.antt =====
-- When a clientset is made, and of which configuration: NewForConfigAndClient of clientset.go.
use k8s_swarm.Prelude.{
  ℕ, ◌<◌, [], if◌then◌else◌, bytes_eq, codes, none, some, ◌≡◌, ◌↔◌, ◌⊎◌, inl, inr, refl, subst,
  false, arith, Bytes, leb, Option-cases, Bool-cases,
}
use k8s_swarm.Clientset.Building.{
  Result, ok, error, and_then, RestConfig, Packages, ClientSet, set_config_defaults,
  new_swarm_client_with, build_clients, new_client_set_with,
}

module _ {L X H R D E : Type 0} (packages : Packages L X H R D E) (gv : Bytes × Bytes) where
  -- The configuration that both clients are made of: the given one, or with a new rate limiter where it
  -- has none, but a QPS; then the burst has to be positive.
  abbrev pub IsLimited : RestConfig L X → RestConfig L X → Type 0
  IsLimited c c' =
      ((c' ≡ c) × (((l : L) × (c.rate_limiter ≡ some l)) ⊎ (c.qps ≡ none)))
      ⊎ ((c.rate_limiter ≡ none)
          × ((qps : ℕ) × (c.qps ≡ some qps)
              × (0 < c.burst)
              × (c' ≡ record c { rate_limiter = some (packages.new_rate_limiter qps c.burst) })))

  -- What the group's client is made of, field by field: everything but what `New` has to set is that of
  -- the given configuration, its rate limiter, QPS and burst among them.
  abbrev pub group_config : RestConfig L X → RestConfig L X
  group_config c = record {
    rate_limiter = c.rate_limiter;
    qps = c.qps;
    burst = c.burst;
    group_version = some gv;
    api_path = codes "/apis";
    user_agent = if bytes_eq c.user_agent [] then packages.default_user_agent else c.user_agent;
    other = packages.without_conversion c.other;
  }

  abbrev pub AreMadeOf : ClientSet R D → RestConfig L X → H → Type 0
  AreMadeOf s c h =
      (packages.rest_client_for (group_config c) h ≡ ok s.k8slab_v1alpha1)
      × (packages.discovery_client_for c h ≡ ok s.discovery_client)

  Result-cases : {A : Type 0} (r : Result E A) → ((a : A) × (r ≡ ok a)) ⊎ ((e : E) × (r ≡ error e))
  Result-cases (ok a) = inl (a, refl)
  Result-cases (error e) = inr (e, refl)

  build_clients-AreMadeOf :
      (c : RestConfig L X) (h : H) (s : ClientSet R D)
      → (build_clients packages gv c h ≡ ok s) ↔ AreMadeOf s c h
  unfolding build_clients new_swarm_client_with and_then set_config_defaults
  build_clients-AreMadeOf c h s =
      elim (Result-cases (packages.rest_client_for (group_config c) h)) [
        | inr (e, failed) ↦ (λ made. absurd (ground arith), λ made. absurd (ground arith))
        | inl (client, made) ↦ elim (Result-cases (packages.discovery_client_for c h)) [
          | inr (e, failed) ↦ (λ made. absurd (ground arith), λ made. absurd (ground arith))
          | inl (discovery, found) ↦ (λ e. (ground arith, ground arith), λ (e, f). ground arith)
        ]
      ]

  IsLimited-of_ok :
      (c : RestConfig L X) (h : H) (s : ClientSet R D)
      → new_client_set_with packages gv c h ≡ ok s
      → (c' : RestConfig L X) × IsLimited c c' × AreMadeOf s c' h
  unfolding new_client_set_with
  IsLimited-of_ok c h s e = elim (Option-cases c.rate_limiter) [
    | inr (l, given) ↦
        (c, inl (refl, inl (l, given)), (build_clients-AreMadeOf c h s).0 (ground arith))
    | inl lacking ↦ elim (Option-cases c.qps) [
      | inl unset ↦ (c, inl (refl, inr unset), (build_clients-AreMadeOf c h s).0 (ground arith))
      | inr (qps, set) ↦ elim (Bool-cases (leb c.burst 0)) [
        | inl bad ↦ absurd (ground arith)
        | inr good ↦
            let limiter = packages.new_rate_limiter qps c.burst in
            (
              record c { rate_limiter = some limiter },
              inr (lacking, (qps, set, ground arith, refl)),
              (build_clients-AreMadeOf (record c { rate_limiter = some limiter }) h s).0
                  (ground arith),
            )
      ]
    ]
  ]

  ok-of_IsLimited :
      (c c' : RestConfig L X) (h : H) (s : ClientSet R D)
      → IsLimited c c'
      → build_clients packages gv c' h ≡ ok s
      → new_client_set_with packages gv c h ≡ ok s
  unfolding new_client_set_with
  ok-of_IsLimited c c' h s (inl (e, inl (l, given))) made =
      rw (given, new_client_set_with) (subst (λ x. build_clients packages gv x h ≡ ok s) e made)
  ok-of_IsLimited c c' h s (inl (e, inr unset)) made = elim (Option-cases c.rate_limiter) [
    | inl lacking ↦
        rw (lacking, unset, new_client_set_with)
          (subst (λ x. build_clients packages gv x h ≡ ok s) e made)
    | inr (l, given) ↦
        rw (given, new_client_set_with) (subst (λ x. build_clients packages gv x h ≡ ok s) e made)
  ]
  ok-of_IsLimited c c' h s (inr (lacking, (qps, set, positive, e))) made =
      let large : leb c.burst 0 ≡ false = ground arith in
      rw (lacking, set, large, new_client_set_with)
        (subst (λ x. build_clients packages gv x h ≡ ok s) e made)

  -- The two clients of a clientset are made of one configuration and share its rate limiter, which is a new
  -- one if the caller gives a QPS and none; and a clientset is made exactly if there is such a configuration,
  -- so not for a QPS whose burst is not positive, and both clients can be made of it.
  pub new_client_set_with_iff :
      (c : RestConfig L X) (h : H) (s : ClientSet R D)
      → (new_client_set_with packages gv c h ≡ ok s)
        ↔ ((c' : RestConfig L X) × IsLimited c c' × AreMadeOf s c' h)
  new_client_set_with_iff c h s = (
    IsLimited-of_ok c h s,
    λ (c', limited, made).
        ok-of_IsLimited c c' h s limited ((build_clients-AreMadeOf c' h s).1 made),
  )
