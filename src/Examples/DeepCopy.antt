-- ===== src/Examples/DeepCopy.antt =====
-- A list with one Swarm that has one member, copied, and the old arrays overwritten.
use k8s_swarm.Prelude.{List, [], ◌∷◌, some, ◌≡◌, refl, Bytes, codes}
use k8s_swarm.DeepCopy.{
  Memory, SwarmListObject, deep_copy_list, read_pointer, read_slice, read_all, read_member,
  read_spec, read_swarm, read_swarm_list, SwarmView,
}
use k8s_swarm.DeepCopy.Extending.{IsCopy}
use k8s_swarm.DeepCopy.Independence.{deep_copy_list-IsCopy}

-- Metadata is a text.
abbrev memory : Memory Bytes
memory = record {
  job_arrays = (codes "a" ∷ codes "b" ∷ []) ∷ [];
  member_arrays =
      (record {
        meta = [];
        name = codes "w-0";
        jobs = some 0;
        state = record { phase = codes "RUNNING" };
        created_at = 7;
      }
        ∷ [])
      ∷ [];
  swarm_arrays =
      (record {
        meta = codes "swarm";
        spec = record { version = 3; expected_size = 1; size = 1; members = some 0 };
        status = record { phase = [] };
      }
        ∷ [])
      ∷ [];
}

abbrev overwritten : Memory Bytes
overwritten = record { job_arrays = [] ∷ []; member_arrays = [] ∷ []; swarm_arrays = [] ∷ [] }

abbrev swarms : SwarmListObject Bytes
swarms = record { meta = []; items = some 0 }

abbrev view : Bytes × List (SwarmView Bytes)
view = (
  [],
  (
    codes "swarm",
    record { phase = [] },
    (
      3,
      1,
      1,
      ([], codes "w-0", record { phase = codes "RUNNING" }, 7, codes "a" ∷ codes "b" ∷ []) ∷ [],
    ),
  )
      ∷ [],
)

swarms_read : read_pointer (read_swarm_list memory) (some swarms) ≡ some (some view)
unfolding read_pointer read_swarm_list read_slice read_all read_swarm read_spec read_member
swarms_read = refl

deep_copy_list-IsCopy_example :
    IsCopy
      (deep_copy_list (λ (m : Bytes). m))
      (λ mem. read_pointer (read_swarm_list mem))
      (some swarms)
      (some view)
      memory
      overwritten
deep_copy_list-IsCopy_example =
    deep_copy_list-IsCopy (λ m. m) (λ m. refl) (some swarms) (some view) memory overwritten
      (record { jobs = refl; members = refl; swarms = refl }) swarms_read
