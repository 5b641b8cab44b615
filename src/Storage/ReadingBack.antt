-- ===== src/Storage/ReadingBack.antt =====
-- What the ConfigMap gives back of an assignment that was stored in it, and when it panics.
use k8s_swarm.Prelude.{
  Option, none, some, ◌≡◌, ◌↔◌, refl, subst, arith, Bytes, Dict, insert, lookup-insert,
  bytes_eq_iff, ◌>>=◌, Option-cases, ◌⊎◌, inl, inr,
}
use k8s_swarm.Config.{Workloads}
use k8s_swarm.Storage.{Answer, answered, status_error, other_error, stored, panicked}
use k8s_swarm.Storage.ConfigMaps.{
  ConfigMap, ConfigMapClient, default_config_key, config_text, update_text, set_config_map,
  get_config_map,
}

-- What the client documents: a ConfigMap is got under its name, and an accepted update is what is got
-- next.
pub record ConfigMapClientLaws {W : Type 0} (client : ConfigMapClient W) : Type 0 where
  pub got_name :
      (namespace name : Bytes) (w : W) (cm : ConfigMap)
      → client.get namespace name w ≡ answered cm
      → cm.name ≡ name
  pub updated :
      (namespace : Bytes) (cm r : ConfigMap) (w : W)
      → (client.update namespace cm w).answer ≡ answered r
      → (c : ConfigMap) × (client.get namespace cm.name (client.update namespace cm w).cluster
          ≡ answered c)
        × (c.entries ≡ cm.entries)

Answer-cases :
    {A : Type 0} (r : Answer A)
    → ((x : A) × (r ≡ answered x)) ⊎ ((r ≡ status_error) ⊎ (r ≡ other_error))
Answer-cases (answered x) = inl (x, refl)
Answer-cases status_error = inr (inl refl)
Answer-cases other_error = inr (inr refl)

text_inserted :
    (cm : ConfigMap) (entries : Dict Bytes) (text : Bytes)
    → cm.entries ≡ some (insert default_config_key text entries)
    → config_text cm ≡ text
unfolding config_text
text_inserted cm entries text e = ground (
  arith,
  lookup-insert default_config_key default_config_key text entries,
  bytes_eq_iff default_config_key default_config_key,
)

module _ {W : Type 0} (client : ConfigMapClient W) (encode_yaml : Workloads → Option Bytes)
    (decode_yaml : Bytes → Option Workloads) (namespace name : Bytes) where
  -- What an update that was accepted leaves under the key.
  get-update_text :
      (laws : ConfigMapClientLaws client) (text : Bytes) (cm : ConfigMap) (w v : W)
      → cm.name ≡ name
      → update_text client encode_yaml decode_yaml namespace name text cm w ≡ stored v
      → (c : ConfigMap) × (client.get namespace name v ≡ answered c) × (config_text c ≡ text)
  unfolding update_text
  get-update_text laws text cm w v named h = elim (Option-cases cm.entries) [
    | inl empty ↦ absurd (ground arith)
    | inr (entries, filled) ↦
        accepted entries filled (Answer-cases (client.update namespace (written entries) w).answer)
  ]
    where
      written : Dict Bytes → ConfigMap
      written entries = record cm { entries = some (insert default_config_key text entries) }

      accepted :
          (entries : Dict Bytes)
          → cm.entries ≡ some entries
          → ((r : ConfigMap) × ((client.update namespace (written entries) w).answer ≡ answered r))
            ⊎ (((client.update namespace (written entries) w).answer ≡ status_error)
                ⊎ ((client.update namespace (written entries) w).answer ≡ other_error))
          → (c : ConfigMap) × (client.get namespace name v ≡ answered c) × (config_text c ≡ text)
      accepted entries filled (inl (r, e)) =
          let (c, found, same) = laws.updated namespace (written entries) r w e in
          let left : (client.update namespace (written entries) w).cluster ≡ v = ground arith in
          (
            c,
            subst (λ u. client.get namespace name u ≡ answered c) left
                (subst
                  (λ n.
                    client.get namespace n (client.update namespace (written entries) w).cluster
                    ≡ answered c)
                  named found),
            text_inserted c entries text same,
          )
      accepted entries filled (inr (inl e)) = absurd (ground arith)
      accepted entries filled (inr (inr e)) = absurd (ground arith)

  -- After a `Set` that returned no error the text of the assignment stands in the ConfigMap.
  pub config_text-set_config_map :
      (laws : ConfigMapClientLaws client) (a : Workloads) (w v : W)
      → set_config_map client encode_yaml decode_yaml namespace name a w ≡ stored v
      → (text : Bytes) × (c : ConfigMap) × (encode_yaml a ≡ some text)
        × (client.get namespace name v ≡ answered c)
        × (config_text c ≡ text)
  unfolding set_config_map
  config_text-set_config_map laws a w v h = elim (Answer-cases (client.get namespace name w)) [
    | inr (inl e) ↦ absurd (ground arith)
    | inr (inr e) ↦ absurd (ground arith)
    | inl (cm, found) ↦ elim (Option-cases (encode_yaml a)) [
      | inl bad ↦ absurd (ground arith)
      | inr (text, encoded) ↦
          let (c, left, kept) =
            get-update_text laws text cm w v (laws.got_name namespace name w cm found)
              (ground arith) in
          (text, c, encoded, left, kept)
    ]
  ]

  -- After a `Set` of the ConfigMap provider that returned no error, `Get` returns what the decoder makes
  -- of the text that the encoder made of the assignment. The client keeps an accepted update.
  pub get_config_map-set_config_map :
      (laws : ConfigMapClientLaws client) (a : Workloads) (w v : W)
      → set_config_map client encode_yaml decode_yaml namespace name a w ≡ stored v
      → get_config_map client encode_yaml decode_yaml namespace name v
        ≡ (encode_yaml a >>= decode_yaml)
  unfolding get_config_map
  get_config_map-set_config_map laws a w v h =
      let (text, c, encoded, left, kept) = config_text-set_config_map laws a w v h in ground arith

  -- `Set` of the ConfigMap provider panics exactly if the ConfigMap is there, without data, and the
  -- assignment can be encoded.
  pub set_config_map-panics :
      (a : Workloads) (w : W)
      → (set_config_map client encode_yaml decode_yaml namespace name a w ≡ panicked w) ↔ (
          (cm : ConfigMap) × (text : Bytes) × (client.get namespace name w ≡ answered cm)
          × (encode_yaml a ≡ some text)
          × (cm.entries ≡ none))
  unfolding set_config_map update_text
  set_config_map-panics a w = (panics, λ (cm, text, found, encoded, empty). ground arith)
    where
      panics_with :
          (cm : ConfigMap) (text : Bytes)
          → client.get namespace name w ≡ answered cm
          → encode_yaml a ≡ some text
          → set_config_map client encode_yaml decode_yaml namespace name a w ≡ panicked w
          → cm.entries ≡ none
      panics_with cm text found encoded h = elim (Option-cases cm.entries) [
        | inl empty ↦ empty
        | inr (entries, filled) ↦
            elim (Answer-cases
              (client.update namespace
                (record cm { entries = some (insert default_config_key text entries) }) w).answer) [
                  | inl (r, e) ↦ absurd (ground arith)
                  | inr (inl e) ↦ absurd (ground arith)
                  | inr (inr e) ↦ absurd (ground arith)
                ]
      ]

      panics :
          set_config_map client encode_yaml decode_yaml namespace name a w ≡ panicked w
          → (cm : ConfigMap) × (text : Bytes) × (client.get namespace name w ≡ answered cm)
            × (encode_yaml a ≡ some text)
            × (cm.entries ≡ none)
      panics h = elim (Answer-cases (client.get namespace name w)) [
        | inr (inl e) ↦ absurd (ground arith)
        | inr (inr e) ↦ absurd (ground arith)
        | inl (cm, found) ↦ elim (Option-cases (encode_yaml a)) [
          | inl bad ↦ absurd (ground arith)
          | inr (text, encoded) ↦ (cm, text, found, encoded, panics_with cm text found encoded h)
        ]
      ]
