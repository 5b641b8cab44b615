-- ===== src/Pool/Conciliation.antt =====
-- `conciliate` and `requestRestart`: which workers are restarted, and when.
use mathlib.Core.List.{Permᴰ}
use mathlib.Core.List.Permᴰ
use native.Mathlib.Decide.{ℕ_discrete}
use k8s_swarm.Prelude.{
  ℕ, List, [], ◌∷◌, ◌++◌, none, some, true, false, ◌||◌, ◌≡◌, ◌≢◌, ◌↔◌, ◌⊎◌, inl, inr, refl, sym,
  ap, ◌∙◌, subst, arith, Bytes, Dict, lookup, bytes_eq, bytes_eq_iff, get_elem?, ◌==◌, Bool-cases,
  Option-cases, KeysUnique,
}
use k8s_swarm.Worker.{Worker, is_to_refresh}
use k8s_swarm.Pool.{Pool, collect, get_all_workers, to_restart, among_restarts, conciliate}
use k8s_swarm.Pool.Order.{get_all_workers-IsSorted, collect-cons_known, collect-cons_none}

pub conciliate_idle :
    (p : Pool) → (p.expected_size ≡ 0) ⊎ (p.under_variation ≡ false) → conciliate p ≡ p
unfolding conciliate
conciliate_idle p (inl e) = ground arith
conciliate_idle p (inr e) = elim (Bool-cases (p.expected_size == 0)) [
  | inl empty ↦ ground arith
  | inr sized ↦ ground arith
]

pub conciliate_busy :
    (p : Pool)
    → p.expected_size ≢ 0
    → p.under_variation ≡ true
    → conciliate p ≡ record p {
      restarting = p.restarting ++ to_restart (get_all_workers p);
      under_variation = false;
    }
unfolding conciliate
conciliate_busy p sized varies = ground arith

-- The worker stands in the list under that pointer.
pub data Listed (ptr : ℕ) (w : Worker) : List (ℕ × Worker) → Type 0 where
  first : {x : ℕ × Worker} {ws : List (ℕ × Worker)} → x ≡ (ptr, w) → Listed ptr w (x ∷ ws)
  later : {x : ℕ × Worker} {ws : List (ℕ × Worker)} → Listed ptr w ws → Listed ptr w (x ∷ ws)

Listed-perm :
    {ptr : ℕ} {w : Worker} {xs ys : List (ℕ × Worker)}
    → Permᴰ xs ys
    → Listed ptr w xs
    → Listed ptr w ys
Listed-perm Permᴰ.nil l = l
Listed-perm (Permᴰ.cons e r) (first q) = first (sym e ∙ q)
Listed-perm (Permᴰ.cons e r) (later l) = later (Listed-perm r l)
Listed-perm (Permᴰ.swap e f) (first q) = later (first (sym e ∙ q))
Listed-perm (Permᴰ.swap e f) (later (first q)) = first (sym f ∙ q)
Listed-perm (Permᴰ.swap e f) (later (later l)) = later (later l)
Listed-perm (Permᴰ.trans r q) l = Listed-perm q (Listed-perm r l)

to_restart_sound :
    (ptr : ℕ) (ws : List (ℕ × Worker))
    → among_restarts ptr (to_restart ws) ≡ true
    → (w : Worker) × Listed ptr w ws × (is_to_refresh w ≡ true)
unfolding to_restart among_restarts
to_restart_sound ptr [] h = absurd (ground arith)
to_restart_sound ptr ((q, v) ∷ ws) h = elim (Bool-cases (is_to_refresh v)) [
  | inl stale ↦ elim (ℕ_discrete q ptr) [
    | yes e ↦ (v, first (λ i. (e i, v)), stale)
    | no ne ↦ let (w, l, s) = to_restart_sound ptr ws (ground arith) in (w, later l, s)
  ]
  | inr fresh ↦ let (w, l, s) = to_restart_sound ptr ws (ground arith) in (w, later l, s)
]

to_restart_complete :
    (ptr : ℕ) (w : Worker) (ws : List (ℕ × Worker))
    → is_to_refresh w ≡ true
    → Listed ptr w ws
    → among_restarts ptr (to_restart ws) ≡ true
unfolding to_restart among_restarts
to_restart_complete ptr w [] s l = elim l [ ]
to_restart_complete ptr w ((q, v) ∷ ws) s (first e) =
    let same : q ≡ ptr = ap (λ x. x.0) e in
    let stale : is_to_refresh v ≡ true = rw (ap (λ x. x.1) e) s in ground arith
to_restart_complete ptr w ((q, v) ∷ ws) s (later l) =
    let rest = to_restart_complete ptr w ws s l in ground arith

collect_sound :
    (heap : List Worker) (index : Dict ℕ) (ptr : ℕ) (w : Worker)
    → KeysUnique index
    → Listed ptr w (collect heap index)
    → (name : Bytes) × (lookup name index ≡ some ptr) × (get_elem? heap ptr ≡ some w)
unfolding collect
collect_sound heap [] ptr w u l = elim l [ ]
collect_sound heap ((k, q) ∷ index) ptr w u l = elim (Option-cases (get_elem? heap q)) [
  | inl dangling ↦ behind (
      collect_sound heap index ptr w u.1
        (subst (Listed ptr w) (collect-cons_none heap (k, q) index dangling) l))
  | inr (v, at) ↦
      from_cons v at (collect_sound heap index ptr w u.1)
        (subst (Listed ptr w) (collect-cons_known heap (k, q) index v at) l)
]
  where
    behind :
        ((name : Bytes) × (lookup name index ≡ some ptr) × (get_elem? heap ptr ≡ some w))
        → (name : Bytes) × (lookup name ((k, q) ∷ index) ≡ some ptr) × (get_elem? heap ptr ≡ some w)
    behind (name, e, found) = (
      name,
      ground (arith, bytes_eq_iff k name, u.0, ap (λ x. lookup x index) {x = k} {y = name}),
      found,
    )

    from_cons :
        (v : Worker)
        → get_elem? heap q ≡ some v
        → (Listed ptr w (collect heap index)
            → (name : Bytes) × (lookup name index ≡ some ptr) × (get_elem? heap ptr ≡ some w))
        → Listed ptr w ((q, v) ∷ collect heap index)
        → (name : Bytes) × (lookup name ((k, q) ∷ index) ≡ some ptr) × (get_elem? heap ptr ≡ some w)
    from_cons v at ih (first e) = (
      k,
      ground (arith, bytes_eq_iff k k, ap (λ x. x.0) e),
      subst (λ j. get_elem? heap j ≡ some w) (ap (λ x. x.0) e) (at ∙ ap (λ x. some (x.1)) e),
    )
    from_cons v at ih (later r) = behind (ih r)

collect_complete :
    (heap : List Worker) (index : Dict ℕ) (name : Bytes) (ptr : ℕ) (w : Worker)
    → lookup name index ≡ some ptr
    → get_elem? heap ptr ≡ some w
    → Listed ptr w (collect heap index)
unfolding collect
collect_complete heap [] name ptr w e at = absurd (ground arith)
collect_complete heap ((k, q) ∷ index) name ptr w e at = elim (Bool-cases (bytes_eq k name)) [
  | inl hit ↦
      let same : q ≡ ptr = ground arith in
      let found : get_elem? heap q ≡ some w = ap (get_elem? heap) same ∙ at in
      rw (collect-cons_known heap (k, q) index w found) (first (λ i. (same i, w)))
  | inr miss ↦
      skip (Option-cases (get_elem? heap q))
        (collect_complete heap index name ptr w (ground arith) at)
]
  where
    skip :
        (get_elem? heap q ≡ none) ⊎ ((v : Worker) × (get_elem? heap q ≡ some v))
        → Listed ptr w (collect heap index)
        → Listed ptr w (collect heap ((k, q) ∷ index))
    skip (inl dangling) l = rw (collect-cons_none heap (k, q) index dangling) l
    skip (inr (v, found)) l = rw (collect-cons_known heap (k, q) index v found) (later l)

among_restarts-append :
    (ptr : ℕ) (xs ys : List ℕ)
    → among_restarts ptr (xs ++ ys) ≡ among_restarts ptr xs || among_restarts ptr ys
unfolding among_restarts
among_restarts-append ptr [] ys = refl
among_restarts-append ptr (x ∷ xs) ys = ground (arith, among_restarts-append ptr xs ys)

-- The pointer is that of a worker of the index which is marked to refresh.
pub record Marked (p : Pool) (ptr : ℕ) : Type 0 where
  pub name : Bytes
  pub held : Worker
  pub indexed : lookup name p.index ≡ some ptr
  pub points : get_elem? p.heap ptr ≡ some held
  pub stale : is_to_refresh held ≡ true

-- In a variation, `conciliate` starts a restart for exactly those workers of the index that are marked
-- to refresh: a restart that runs afterwards ran before, or is for such a worker, and the other way
-- round. The variation is over then, and a second call starts nothing.
pub conciliate-Marked :
    (p : Pool) (ptr : ℕ)
    → KeysUnique p.index
    → p.expected_size ≢ 0
    → p.under_variation ≡ true
    → ((among_restarts ptr (conciliate p).restarting ≡ true)
        ↔ ((among_restarts ptr p.restarting ≡ true) ⊎ Marked p ptr))
      × (conciliate (conciliate p) ≡ conciliate p)
conciliate-Marked p ptr u sized varies =
    rw (conciliate_busy p sized varies) ((sound, complete), conciliate_idle _ (inr refl))
  where
    sound :
        among_restarts ptr (p.restarting ++ to_restart (get_all_workers p)) ≡ true
        → (among_restarts ptr p.restarting ≡ true) ⊎ Marked p ptr
    sound h = elim (Bool-cases (among_restarts ptr p.restarting)) [
      | inl ran ↦ inl ran
      | inr new ↦
          let (w, l, stale) = to_restart_sound ptr (get_all_workers p) (
            ground
              (arith, among_restarts-append ptr p.restarting (to_restart (get_all_workers p)))) in
          let (name, e, at) =
            collect_sound p.heap p.index ptr w u (Listed-perm (get_all_workers-IsSorted p).1 l) in
          inr (record { name = name; held = w; indexed = e; points = at; stale = stale })
    ]

    complete :
        (among_restarts ptr p.restarting ≡ true) ⊎ Marked p ptr
        → among_restarts ptr (p.restarting ++ to_restart (get_all_workers p)) ≡ true
    complete (inl ran) =
        ground (arith, among_restarts-append ptr p.restarting (to_restart (get_all_workers p)))
    complete (inr m) =
        let listed =
          Listed-perm (Permᴰ.symm (get_all_workers-IsSorted p).1)
            (collect_complete p.heap p.index m.name ptr m.held m.indexed m.points) in
        let started = to_restart_complete ptr m.held (get_all_workers p) m.stale listed in
        ground (arith, among_restarts-append ptr p.restarting (to_restart (get_all_workers p)))
