-- ===== src/State/Shares.antt =====
-- Which jobs each worker gets: the arithmetic of `BalanceWorkload`.
use native.Mathlib.Nat.{div-add-mod, mod-lt, mul-le-mul_right}
use k8s_swarm.Prelude.{
  ℕ, zero, suc, ◌+◌, ◌-◌, ◌*◌, ◌/◌, ◌%◌, ◌≤◌, ◌<◌, List, [], ◌∷◌, some, ◌≡◌, inl, inr, refl, ap,
  ◌∙◌, arith, length, get_elem?, take, drop, length-take, length-drop, ltb, if◌then◌else◌,
  Bool-cases,
}
use k8s_swarm.Config.{Job, Workload}
use k8s_swarm.State.{worker_size, slice}

-- How many of `n` jobs worker `i` of `t` gets.
abbrev pub share_size : ℕ → ℕ → ℕ → ℕ
share_size n t i = worker_size (n / t) (n % t) i

early_fits : (q r t i : ℕ) → i < r → r < t → (i + 1) * (q + 1) ≤ t * q + r
early_fits q r t i h k = omega (
  arith,
  mul-le-mul_right {m = i + 1} {n = r} (q + 1) (omega arith),
  mul-le-mul_right {m = r} {n = t} q (omega arith),
)

late_fits : (q r t i : ℕ) → i < t → (i + 1) * q ≤ t * q + r
late_fits q r t i h = omega (arith, mul-le-mul_right {m = i + 1} {n = t} q (omega arith))

-- A share never ends behind the list.
pub share_fits : (n t i : ℕ) → i < t → (i + 1) * share_size n t i ≤ n
unfolding worker_size
share_fits n t i h =
    let whole = div-add-mod n t in
    let below = mod-lt n {m = t} (omega arith) in
    elim (Bool-cases (ltb i (n % t))) [
      | inl early ↦
          rw early (omega (arith, early_fits (n / t) (n % t) t i (ground arith) below, whole))
      | inr late ↦ rw late (omega (arith, late_fits (n / t) (n % t) t i h, whole))
    ]

-- Worker `i`'s jobs: `share_size` of them from position `i * share_size`.
abbrev pub share : List Job → ℕ → ℕ → List Job
share jobs t i = take (share_size (length jobs) t i) (drop (i * share_size (length jobs) t i) jobs)

pub length-share :
    (jobs : List Job) (t i : ℕ) → i < t → length (share jobs t i) ≡ share_size (length jobs) t i
length-share jobs t i h =
    let size = share_size (length jobs) t i in
    omega (
      arith,
      length-take size (drop (i * size) jobs),
      length-drop (i * size) jobs,
      share_fits (length jobs) t i h,
    )

-- The shares of the workers `i`, `i + 1`, and so on.
unfoldable pub shares : List Job → ℕ → ℕ → ℕ → List Workload
shares jobs t zero i = []
shares jobs t (suc rounds) i =
    record { jobs = share jobs t i; version = 0 } ∷ shares jobs t rounds (suc i)

pub length-shares : (jobs : List Job) (t rounds i : ℕ) → length (shares jobs t rounds i) ≡ rounds
unfolding shares
length-shares jobs t zero i = refl
length-shares jobs t (suc rounds) i = ap suc (length-shares jobs t rounds (suc i))

pub get_elem?-shares :
    (jobs : List Job) (t rounds i j : ℕ)
    → j < rounds
    → get_elem? (shares jobs t rounds i) j
      ≡ some (record { jobs = share jobs t (i + j); version = 0 })
unfolding shares
get_elem?-shares jobs t zero i j h = elim h [ ]
get_elem?-shares jobs t (suc rounds) i zero h =
    ap (λ k. some (record { jobs = share jobs t k; version = 0 })) (omega arith)
get_elem?-shares jobs t (suc rounds) i (suc j) h =
    get_elem?-shares jobs t rounds (suc i) j (omega arith)
    ∙ ap (λ k. some (record { jobs = share jobs t k; version = 0 })) (omega arith)

-- The slice expression of the loop does not panic, and is the share.
pub slice-share :
    (jobs : List Job) (t i : ℕ)
    → i < t
    → let size = share_size (length jobs) t i in
      let end : ℕ = if ltb (length jobs) ((i + 1) * size) then length jobs else (i + 1) * size in
      slice (i * size) end jobs ≡ some (share jobs t i)
unfolding slice
slice-share jobs t i h =
    let size = share_size (length jobs) t i in
    let fits = share_fits (length jobs) t i h in
    ground (
      arith,
      fits,
      ap (λ k. take k (drop (i * size) jobs)) {x = (i + 1) * size - i * size} {y = size},
    )
