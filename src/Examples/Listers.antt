-- ===== src/Examples/Listers.antt =====
-- An indexer with one Swarm.
use k8s_swarm.Prelude.{
  List, [], ◌∷◌, ◌++◌, none, ◌≡◌, inl, inr, ◌↔◌, refl, sym, ap, subst, ◌≢◌, ◌∙◌, arith, Bytes,
  codes, bytes_eq, bytes_eq_iff, Bool-cases, map, if◌then◌else◌,
}
use k8s_swarm.Text.RoundTrip.{Lacks}
use k8s_swarm.Storage.Swarms.{Swarm}
use k8s_swarm.Listers.{
  swarm_item, ByKey, missing, found, Indexer, listed, got, list_in_namespace, get_in_namespace,
}
use k8s_swarm.Listers.Found.{Holds, IndexerLaws, got_iff_listed}
use k8s_swarm.Examples.Clientset.{stored_swarm}

abbrev everything : Unit {0}
everything = tt

abbrev Errors : Type 0
Errors = Unit {0}

abbrev key_of : Swarm → Bytes
key_of s = s.namespace ++ b'/' ∷ s.name

-- The indexer holds one Swarm.
abbrev of_namespace : Swarm → Bytes → List Swarm
of_namespace s ns = if bytes_eq s.namespace ns then s ∷ [] else []

abbrev cache : Indexer Swarm (Unit {0}) Errors
cache = record {
  list_all = λ s selector. (swarm_item s ∷ [], none);
  list_all_by_namespace = λ s ns selector. (map swarm_item (of_namespace s ns), none);
  get_by_key = λ s key. if bytes_eq (key_of s) key then found (swarm_item s) else missing;
}

found_same :
    (s t : Swarm) → ◌≡◌ {A = ByKey Errors} (found (swarm_item s)) (found (swarm_item t)) → s ≡ t
found_same s t e = ground arith

missing_found : (t : Swarm) → ◌≢◌ {A = ByKey Errors} missing (found (swarm_item t))
missing_found t e = ground arith

by_key_iff :
    (s t : Swarm) (key : Bytes)
    → (cache.get_by_key s key ≡ found (swarm_item t)) ↔ (Holds t (s ∷ []) × (key ≡ key_of t))
by_key_iff s t key = elim (Bool-cases (bytes_eq (key_of s) key)) [
  | inl same ↦ rw same (
    λ e. (
      inl (found_same s t e),
      sym ((bytes_eq_iff (key_of s) key).0 same) ∙ ap key_of (found_same s t e),
    ),
    λ (h, e). elim h [ inl eq ↦ ap (λ x. found (swarm_item x)) eq | inr never ↦ elim never [ ] ],
  )
  | inr other ↦ rw other (
    λ e. absurd (missing_found t e),
    λ (h, e). elim h [
      | inl eq ↦ absurd (ground (arith, other, bytes_eq_iff (key_of s) key, ap key_of eq, e))
      | inr never ↦ elim never [ ]
    ],
  )
]

of_namespace_iff :
    (s t : Swarm) (ns : Bytes)
    → Holds t (of_namespace s ns) ↔ (Holds t (s ∷ []) × (t.namespace ≡ ns))
of_namespace_iff s t ns = elim (Bool-cases (bytes_eq s.namespace ns)) [
  | inl same ↦ rw same (
    λ h. (
      h,
      elim h [
        | inl eq ↦ ap (λ (x : Swarm). x.namespace) (sym eq) ∙ (bytes_eq_iff s.namespace ns).0 same
        | inr never ↦ elim never [ ]
      ],
    ),
    λ (h, e). h,
  )
  | inr other ↦ rw other (
    λ h. elim h [ ],
    λ (h, e). elim h [
      | inl eq ↦ absurd (
          ground (arith, other, bytes_eq_iff s.namespace ns, ap (λ (x : Swarm). x.namespace) eq, e))
      | inr never ↦ elim never [ ]
    ],
  )
]

cache-Laws : IndexerLaws cache stored_swarm everything
cache-Laws = record {
  contents = stored_swarm ∷ [];
  no_slash = no_slash;
  by_key = λ key s. by_key_iff stored_swarm s key;
  namespaced = namespaced;
  in_namespace =
      λ ns given. (of_namespace stored_swarm ns, refl, λ s. of_namespace_iff stored_swarm s ns);
}
  where
    no_slash : (s : Swarm) → Holds s (stored_swarm ∷ []) → Lacks b'/' s.namespace
    no_slash s (inl e) = subst (λ (x : Swarm). Lacks b'/' x.namespace) e (refl, (refl, tt))
    no_slash s (inr never) = elim never [ ]

    namespaced : (s : Swarm) → Holds s (stored_swarm ∷ []) → s.namespace ≢ []
    namespaced s (inl e) none_given =
        absurd (ground (arith, ap (λ (x : Swarm). x.namespace) e, none_given))
    namespaced s (inr never) none_given = elim never [ ]

got_iff_listed_example :
    (get_in_namespace cache
        (codes "swarm")
        (record { indexer = stored_swarm; namespace = codes "ns" })
      ≡ got stored_swarm)
    ↔ ((xs : List Swarm) × (list_in_namespace cache everything
            (record { indexer = stored_swarm; namespace = codes "ns" })
          ≡ listed xs none)
        × Holds stored_swarm xs
        × (stored_swarm.name ≡ codes "swarm"))
got_iff_listed_example =
    got_iff_listed cache everything (record { indexer = stored_swarm; namespace = codes "ns" })
      cache-Laws (λ e. absurd (ground (arith, e))) (refl, (refl, tt)) (codes "swarm") stored_swarm
