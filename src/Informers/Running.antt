-- ===== src/Informers/Running.antt =====
-- How often an informer is run: Start and InformerFor of factory.go.
use k8s_swarm.Prelude.{
  ℕ, ◌≤◌, [], ◌∷◌, none, some, false, ◌≡◌, ◌≢◌, inl, inr, refl, ap, ◌∙◌, subst, arith, Bytes, Dict,
  lookup, insert, length, length-append, if◌then◌else◌, Option-cases,
}
use k8s_swarm.Informers.{
  Informer, Factory, is_started, start, informer_for, new_factory, new_factory_with_options,
  apply_options, with_custom_resync_config, with_tweak_list_options, with_namespace,
}
use k8s_swarm.Informers.Entries.{
  Lacks, Only, Lacks-insert, Only-insert, Only-insert_other, ne_of_lookup, lookup_inserted,
  lookup_not_inserted,
}
use k8s_swarm.Informers.Starting.{count, started_of_lookup, started_other, count_other, count-Only}

-- What holds of a factory between two calls.
record Kept {T : Type 0} (f : Factory T) : Type 0 where
  only : (t : Bytes) (h : ℕ) → lookup t f.informers ≡ some h → Only t h f.informers
  counted :
      (t : Bytes) (h : ℕ)
      → lookup t f.informers ≡ some h
      → count h f.running ≡ (if is_started t f.started_informers then 1 else 0)
  unknown : (t : Bytes) → lookup t f.informers ≡ none → is_started t f.started_informers ≡ false
  unmade : (h : ℕ) → length f.made ≤ h → (count h f.running ≡ 0) × Lacks h f.informers

module _ {T : Type 0} where
  Kept-start : (f : Factory T) → Kept f → Kept (start f)
  unfolding start
  Kept-start f v = record {
    only = v.only;
    counted = λ t h e.
        count-Only t h f.informers f.started_informers f.running (v.only t h e)
        ∙ ground (
          arith,
          v.counted t h e,
          started_of_lookup t h f.informers f.started_informers f.running e,
        );
    unknown = λ t e. started_other t f.informers f.started_informers f.running e ∙ v.unknown t e;
    unmade = λ h le. (
      count_other h f.informers f.started_informers f.running (v.unmade h le).1 ∙ (v.unmade h le).0,
      (v.unmade h le).1,
    );
  }

  lookup-unmade :
      (f : Factory T) (u : Bytes) (h : ℕ)
      → Kept f
      → lookup u f.informers ≡ some h
      → length f.made ≢ h
  lookup-unmade f u h v e =
      ne_of_lookup (length f.made) h u f.informers e (v.unmade (length f.made) (omega arith)).1

  Kept-informer_for :
      (f : Factory T) (t : Bytes) (new_func : ℕ → Informer T)
      → Kept f
      → Kept (informer_for t new_func f).0
  unfolding informer_for
  Kept-informer_for f t new_func v = elim (Option-cases (lookup t f.informers)) [
    | inr (h, present) ↦ rw (present, informer_for) v
    | inl absent ↦
        rw (absent, informer_for)
          (record {
            only = λ u h e. elim (lookup_inserted (length f.made) h t u f.informers e) [
              | inl (same, new) ↦
                  subst (λ x. Only x h (insert t (length f.made) f.informers)) same
                    (subst (λ x. Only t x (insert t (length f.made) f.informers)) new
                      (Only-insert (length f.made) t f.informers absent
                        (v.unmade (length f.made) (omega arith)).1))
              | inr (other, old) ↦
                  Only-insert_other (length f.made) h t u f.informers other
                    (lookup-unmade f u h v old) absent (v.only u h old)
            ];
            counted = λ u h e. elim (lookup_inserted (length f.made) h t u f.informers e) [
              | inl (same, new) ↦ ground (
                arith,
                (v.unmade (length f.made) (omega arith)).0,
                v.unknown t absent,
                ap (λ x. is_started x f.started_informers) same,
                ap (λ x. count x f.running) new,
              )
              | inr (other, old) ↦ v.counted u h old
            ];
            unknown = λ u e. v.unknown u (lookup_not_inserted (length f.made) t u f.informers e);
            unmade = λ h le.
                let older =
                  v.unmade h (omega (arith, le, length-append f.made (new_func resync ∷ []))) in
                (
                  older.0,
                  Lacks-insert h (length f.made) t f.informers
                      (λ q. omega (arith, le, length-append f.made (new_func resync ∷ []), q))
                      absent older.1,
                );
          })
  ]
    where
      resync : ℕ
      resync = elim (lookup t f.custom_resync) [ some d ↦ d | none ↦ f.default_resync ]

-- The factories that the package's functions make and its methods leave behind.
pub data Reached {T : Type 0} : Factory T → Type 0 where
  fresh : (default_resync : ℕ) → Reached (new_factory default_resync)
  resyncs :
      {f : Factory T} (config : Dict ℕ) → Reached f → Reached (with_custom_resync_config config f)
  tweaked : {f : Factory T} (tweak : T) → Reached f → Reached (with_tweak_list_options tweak f)
  scoped : {f : Factory T} (namespace : Bytes) → Reached f → Reached (with_namespace namespace f)
  asked :
      {f : Factory T} (t : Bytes) (new_func : ℕ → Informer T)
      → Reached f
      → Reached (informer_for t new_func f).0
  started : {f : Factory T} → Reached f → Reached (start f)

Reached-Kept : {T : Type 0} {f : Factory T} → Reached f → Kept f
unfolding new_factory new_factory_with_options apply_options with_custom_resync_config
    with_tweak_list_options with_namespace is_started
Reached-Kept (fresh default_resync) = record {
  only = λ t h e. cc;
  counted = λ t h e. cc;
  unknown = λ t e. refl;
  unmade = λ h le. (refl, tt);
}
Reached-Kept (resyncs config r) =
    let v = Reached-Kept r in
    record { only = v.only; counted = v.counted; unknown = v.unknown; unmade = v.unmade }
Reached-Kept (tweaked tweak r) =
    let v = Reached-Kept r in
    record { only = v.only; counted = v.counted; unknown = v.unknown; unmade = v.unmade }
Reached-Kept (scoped namespace r) =
    let v = Reached-Kept r in
    record { only = v.only; counted = v.counted; unknown = v.unknown; unmade = v.unmade }
Reached-Kept (asked {f} t new_func r) = Kept-informer_for f t new_func (Reached-Kept r)
Reached-Kept (started {f} r) = Kept-start f (Reached-Kept r)

-- However often `Start` is called between requests for informers, an informer is run at most once, and
-- every informer that was asked for runs after the next `Start`. Asked again for its type, the factory
-- returns it and makes no other.
pub runs_once :
    {T : Type 0} {f : Factory T} (t : Bytes) (h : ℕ) (new_func : ℕ → Informer T)
    → Reached f
    → lookup t f.informers ≡ some h
    → (count h f.running ≤ 1)
      × (count h (start f).running ≡ 1)
      × (informer_for t new_func f ≡ (f, h))
unfolding start informer_for
runs_once {T} {f} t h new_func r e =
    let v = Reached-Kept r in
    let w = Kept-start f v in
    (
      ground (arith, v.counted t h e),
      w.counted t h e
          ∙ ground (arith, started_of_lookup t h f.informers f.started_informers f.running e),
      rw (e, informer_for) refl,
    )
