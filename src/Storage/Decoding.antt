-- ===== src/Storage/Decoding.antt =====
-- What a Swarm's spec decodes to.
use mathlib.Core.List.{append-nil, append_assoc}
use k8s_swarm.Prelude.{
  ℕ, List, [], ◌∷◌, ◌++◌, none, false, ◌≡◌, refl, sym, ap, ◌∙◌, arith, Bytes, Dict, lookup, insert,
  KeysUnique, bytes_eq, bytes_eq_iff,
}
use k8s_swarm.Config.{Job, Workload, Workloads}
use k8s_swarm.Storage.Swarms.{
  Member, Swarm, phase_running, adapt_jobs_to_alpha, adapt_jobs_from_alpha, append_members, fill,
  decode_members, decode,
}

-- The assignment without the versions of the single workloads.
abbrev pub unversioned_entries : Dict Workload → Dict Workload
unversioned_entries [] = []
unversioned_entries ((n, s) ∷ rest) = (n, record s { version = 0 }) ∷ unversioned_entries rest

abbrev pub unversioned : Workloads → Workloads
unversioned a = record a { workloads = unversioned_entries a.workloads }

adapt_jobs : (j : List Job) → adapt_jobs_from_alpha (adapt_jobs_to_alpha j) ≡ j
unfolding adapt_jobs_from_alpha adapt_jobs_to_alpha
adapt_jobs [] = refl
adapt_jobs (job ∷ j) = ap (◌∷◌ job) (adapt_jobs j)

-- No key of the first is one of the second.
abbrev Apart : Dict Workload → Dict Workload → Type 0
Apart [] c = Unit
Apart ((n, s) ∷ rest) c = (lookup n c ≡ none) × Apart rest c

lookup-append_one :
    (j k : Bytes) (v : Workload) (c : Dict Workload)
    → lookup j c ≡ none
    → bytes_eq k j ≡ false
    → lookup j (c ++ (k, v) ∷ []) ≡ none
lookup-append_one j k v [] e f = ground arith
lookup-append_one j k v ((i, x) ∷ c) e f = ground (arith, lookup-append_one j k v c)

Apart-append_one :
    (k : Bytes) (v : Workload) (d c : Dict Workload)
    → lookup k d ≡ none
    → Apart d c
    → Apart d (c ++ (k, v) ∷ [])
Apart-append_one k v [] c e a = tt
Apart-append_one k v ((n, s) ∷ d) c e (f, a) =
    (lookup-append_one n k v c f other, Apart-append_one k v d c rest a)
  where
    other : bytes_eq k n ≡ false
    other = ground (arith, bytes_eq_iff k n, bytes_eq_iff n k)

    rest : lookup k d ≡ none
    rest = ground arith

insert-absent :
    (k : Bytes) (v : Workload) (c : Dict Workload)
    → lookup k c ≡ none
    → insert k v c ≡ c ++ (k, v) ∷ []
insert-absent k v [] e = refl
insert-absent k v ((j, w) ∷ c) e = ground (arith, insert-absent k v c)

module _ (clock : Bytes → ℕ) where
  abbrev member_of : Bytes → Workload → Member
  member_of n s = record {
    name = n;
    jobs = adapt_jobs_to_alpha s.jobs;
    state = record { phase = phase_running };
    created_at = clock n;
  }

  abbrev members_of : Dict Workload → List Member
  members_of [] = []
  members_of ((n, s) ∷ rest) = member_of n s ∷ members_of rest

  append_members_lem :
      (d : Dict Workload) (ms : List Member) → append_members clock d ms ≡ ms ++ members_of d
  unfolding append_members
  append_members_lem [] ms = sym (append-nil ms)
  append_members_lem ((n, s) ∷ rest) ms =
      append_members_lem rest (ms ++ member_of n s ∷ [])
      ∙ append_assoc ms (member_of n s ∷ []) (members_of rest)

  decode_members_lem :
      (d c : Dict Workload)
      → KeysUnique d
      → Apart d c
      → decode_members (members_of d) c ≡ c ++ unversioned_entries d
  unfolding decode_members
  decode_members_lem [] c u a = sym (append-nil c)
  decode_members_lem ((n, s) ∷ rest) c (fresh, u) (absent, a) =
      ap (decode_members (members_of rest)) inserted
      ∙ decode_members_lem rest (c ++ (n, record s { version = 0 }) ∷ []) u
          (Apart-append_one n (record s { version = 0 }) rest c fresh a)
      ∙ append_assoc c ((n, record s { version = 0 }) ∷ []) (unversioned_entries rest)
    where
      inserted :
          insert n
            (record { jobs = adapt_jobs_from_alpha (adapt_jobs_to_alpha s.jobs); version = 0 })
            c
          ≡ c ++ (n, record s { version = 0 }) ∷ []
      inserted =
          ap (λ j. insert n (record { jobs = j; version = 0 }) c) (adapt_jobs s.jobs)
          ∙ insert-absent n (record s { version = 0 }) c absent

  Apart-nil : (d : Dict Workload) → Apart d []
  Apart-nil [] = tt
  Apart-nil ((n, s) ∷ d) = (refl, Apart-nil d)

  -- The spec of a Swarm into which an assignment with unique names was written decodes to that assignment,
  -- but with version 0 for each worker's own workload: the resource does not hold those versions.
  pub decode-fill :
      (a : Workloads) (sw : Swarm)
      → KeysUnique a.workloads
      → decode (fill clock a sw).spec ≡ unversioned a
  unfolding decode fill
  decode-fill a sw u =
      ap (λ d. record { workloads = d; version = a.version })
        (ap (λ ms. decode_members ms []) (append_members_lem a.workloads [])
          ∙ decode_members_lem a.workloads [] u (Apart-nil a.workloads))
