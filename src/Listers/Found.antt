-- ===== src/Listers/Found.antt =====
-- What the lister of a namespace gets, beside what it lists.
use k8s_swarm.Prelude.{
  List, [], ◌∷◌, ◌++◌, none, some, ◌≡◌, ◌≢◌, ◌⊎◌, ◌↔◌, refl, sym, ap, subst, ◌∙◌, arith, Bytes, map,
}
use mathlib.Core.List.{append-nil, append_assoc}
use k8s_swarm.Text.RoundTrip.{Lacks}
use k8s_swarm.Storage.Swarms.{Swarm}
use k8s_swarm.Listers.{
  swarm_item, other_item, ByKey, failed, missing, found, Indexer, Listing, listed, got,
  SwarmNamespaceLister, append_swarms, listed_items, list_in_namespace, got_by_key,
  get_in_namespace,
}
use k8s_swarm.Listers.Keys.{cut}

abbrev pub Holds : Swarm → List Swarm → Type 0
Holds s [] = ⊥
Holds s (x ∷ xs) = (x ≡ s) ⊎ Holds s xs

-- What package cache documents of an indexer with MetaNamespaceKeyFunc, here of Swarms, none of whose
-- namespaces is empty (a Swarm is a namespaced resource) or has a slash: GetByKey gives the Swarm of a key,
-- and ListAllByNamespace with the selector of everything those of a namespace. For the empty namespace,
-- which stands for all of them, nothing is asked here.
pub record IndexerLaws {I L E : Type 0} (cache : Indexer I L E) (i : I) (everything : L)
    : Type 0 where
  pub contents : List Swarm
  pub no_slash : (s : Swarm) → Holds s contents → Lacks b'/' s.namespace
  pub by_key :
      (key : Bytes) (s : Swarm)
      → (cache.get_by_key i key ≡ found (swarm_item s))
        ↔ (Holds s contents × (key ≡ s.namespace ++ b'/' ∷ s.name))
  pub namespaced : (s : Swarm) → Holds s contents → s.namespace ≢ []
  pub in_namespace :
      (ns : Bytes)
      → ns ≢ []
      → (xs : List Swarm) × (cache.list_all_by_namespace i ns everything
          ≡ (map swarm_item xs, none))
        × ((s : Swarm) → Holds s xs ↔ (Holds s contents × (s.namespace ≡ ns)))

append_swarms-map : (xs ret : List Swarm) → append_swarms (map swarm_item xs) ret ≡ some (ret ++ xs)
unfolding append_swarms
append_swarms-map [] ret = ap some (sym (append-nil ret))
append_swarms-map (x ∷ xs) ret =
    append_swarms-map xs (ret ++ x ∷ []) ∙ ap some (append_assoc ret (x ∷ []) xs)

listed_items-map :
    {E : Type 0} (xs : List Swarm) → listed_items {E = E} (map swarm_item xs, none) ≡ listed xs none
unfolding listed_items
listed_items-map xs = rw (append_swarms-map xs [], listed_items) refl

same_list :
    {E : Type 0} {xs ys : List Swarm}
    → ◌≡◌ {A = Listing E} (listed xs none) (listed ys none)
    → xs ≡ ys
same_list e = ground arith

key_of_names :
    (s : Swarm) (ns name : Bytes)
    → s.namespace ≡ ns
    → s.name ≡ name
    → ns ++ b'/' ∷ name ≡ s.namespace ++ b'/' ∷ s.name
key_of_names s ns name e f =
    ap (λ x. x ++ b'/' ∷ name) (sym e) ∙ ap (λ y. s.namespace ++ b'/' ∷ y) (sym f)

module _ {I L E : Type 0} (cache : Indexer I L E) where
  found_of_got :
      (name : Bytes) (k : ByKey E) (s : Swarm)
      → got_by_key cache name k ≡ got s
      → k ≡ found (swarm_item s)
  unfolding got_by_key
  found_of_got name (failed e) s g = absurd (ground arith)
  found_of_got name missing s g = absurd (ground arith)
  found_of_got name (found (swarm_item t)) s g = ground arith
  found_of_got name (found other_item) s g = absurd (ground arith)

  module _ (everything : L) (l : SwarmNamespaceLister I)
      (laws : IndexerLaws cache l.indexer everything) (given : l.namespace ≢ [])
      (no_slash : Lacks b'/' l.namespace) where
    -- `Get` and `List` of a namespace's lister agree, over an indexer of Swarms with the usual keys and
    -- for a namespace that is not empty and has no slash: `Get` gives a Swarm exactly if `List` with the selector of
    -- everything lists it and it has the name.
    pub got_iff_listed :
        (name : Bytes) (s : Swarm)
        → (get_in_namespace cache name l ≡ got s) ↔ (
            (xs : List Swarm) × (list_in_namespace cache everything l ≡ listed xs none)
            × Holds s xs
            × (s.name ≡ name))
    unfolding get_in_namespace list_in_namespace got_by_key
    got_iff_listed name s =
        let (xs, lists, holds) = laws.in_namespace l.namespace given in
        let all : list_in_namespace cache everything l ≡ listed xs none =
          ap listed_items lists ∙ listed_items-map xs in
        (
          λ g.
              let by_key =
                found_of_got name (cache.get_by_key l.indexer (l.namespace ++ b'/' ∷ name)) s g in
              let (held, key) = (laws.by_key (l.namespace ++ b'/' ∷ name) s).0 by_key in
              let (same, named) =
                cut b'/' l.namespace s.namespace name s.name no_slash (laws.no_slash s held) key in
              (xs, all, (holds s).1 (held, sym same), sym named),
          λ (ys, lists', h, named).
              let (held, same) = (holds s).0 (subst (Holds s) (same_list (sym lists' ∙ all)) h) in
              ap (got_by_key cache name) (
                (laws.by_key (l.namespace ++ b'/' ∷ name) s).1
                  (held, key_of_names s l.namespace name same named)),
        )
