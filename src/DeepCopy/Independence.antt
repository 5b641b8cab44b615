-- ===== src/DeepCopy/Independence.antt =====
-- What a deep copy reads, whatever the arrays of the original hold: zz_generated.deepcopy.go.
use k8s_swarm.Prelude.{List, ◌++◌, Option, none, some, ◌≡◌, refl, ap, length, ◌>>=◌}
use k8s_swarm.DeepCopy.{
  SwarmListObject, Memory, Copied, copy_member, copy_members, copy_spec, copy_swarm, copy_items,
  copy_swarm_list, deep_copy_list, copy_pointer, read_pointer, read_slice, read_all, read_member,
  read_spec, read_swarm, read_swarm_list, SwarmView, copy_member_status, copy_swarm_status,
}
use k8s_swarm.DeepCopy.Extending.{
  extend, SameSize, nothing, extend-nothing, IsCopy, Copies, >>=-eq-some,
}
use k8s_swarm.DeepCopy.Loops.{copy_all-Copies}
use k8s_swarm.DeepCopy.Arrays.{
  read_member-Stable, read_swarm-Stable, copy_jobs-Copies, member_array, swarm_array,
  copied-member_array, copied-swarm_array, read-member_array, read-swarm_array,
}

module _ {M : Type 0} (copy_meta : M → M) (same : (m : M) → copy_meta m ≡ m) where
  copy_member-Copies : Copies {M = M} (copy_member copy_meta) read_member
  unfolding copy_member read_member copy_member_status
  copy_member-Copies m v mem old s e =
      let (jobs, e1, e2) = >>=-eq-some (read_slice mem.job_arrays m.jobs) _ e in
      let (jobs', more, c, r) = copy_jobs-Copies M m.jobs jobs mem old s e1 in
      (record m { meta = copy_meta m.meta; jobs = jobs' }, more, rw c refl, rw (r, same m.meta) e2)

  copy_members-Copies :
      Copies {M = M}
        (copy_members copy_meta)
        (λ mem slice. read_slice mem.member_arrays slice >>= λ xs. read_all (read_member mem) xs)
  unfolding copy_members read_slice read_all
  copy_members-Copies none v mem old s e =
      (none, nothing, ap (λ m. some (none, m)) (extend-nothing mem), e)
  copy_members-Copies (some ptr) v mem old s e =
      let (xs, e1, e2) = >>=-eq-some (read_slice mem.member_arrays (some ptr)) _ e in
      let (xs', n, c, r) =
        copy_all-Copies (copy_member copy_meta) read_member (read_member-Stable M)
          copy_member-Copies xs v mem old s e2 in
      (
        some (length (mem.member_arrays ++ n.member_arrays)),
        extend n (member_array M xs'),
        rw (e1, c)
            (ap (λ m. some (some (length (mem.member_arrays ++ n.member_arrays)), m))
              (copied-member_array M mem n xs')),
        read-member_array M mem old n xs' v s r,
      )

  copy_spec-Copies : Copies {M = M} (copy_spec copy_meta) read_spec
  unfolding copy_spec read_spec
  copy_spec-Copies s v mem old z e =
      let (members, e1, e2) = >>=-eq-some (read_slice mem.member_arrays s.members) _ e in
      let (views, e3, e4) = >>=-eq-some (read_all (read_member mem) members) _ e2 in
      let (slice, more, c, r) = copy_members-Copies s.members views mem old z (rw e1 e3) in
      let (ms, r1, r2) = >>=-eq-some (read_slice (extend old more).member_arrays slice) _ r in
      (record s { members = slice }, more, rw c refl, rw (r1, r2) e4)

  copy_swarm-Copies : Copies {M = M} (copy_swarm copy_meta) read_swarm
  unfolding copy_swarm read_swarm copy_swarm_status
  copy_swarm-Copies s v mem old z e =
      let (spec, e1, e2) = >>=-eq-some (read_spec mem s.spec) _ e in
      let (spec', more, c, r) = copy_spec-Copies s.spec spec mem old z e1 in
      (record s { meta = copy_meta s.meta; spec = spec' }, more, rw c refl, rw (r, same s.meta) e2)

  copy_items-Copies :
      Copies {M = M}
        (copy_items copy_meta)
        (λ mem slice. read_slice mem.swarm_arrays slice >>= λ xs. read_all (read_swarm mem) xs)
  unfolding copy_items read_slice read_all
  copy_items-Copies none v mem old s e =
      (none, nothing, ap (λ m. some (none, m)) (extend-nothing mem), e)
  copy_items-Copies (some ptr) v mem old s e =
      let (xs, e1, e2) = >>=-eq-some (read_slice mem.swarm_arrays (some ptr)) _ e in
      let (xs', n, c, r) =
        copy_all-Copies (copy_swarm copy_meta) read_swarm (read_swarm-Stable M) copy_swarm-Copies xs
          v mem old s e2 in
      (
        some (length (mem.swarm_arrays ++ n.swarm_arrays)),
        extend n (swarm_array M xs'),
        rw (e1, c)
            (ap (λ m. some (some (length (mem.swarm_arrays ++ n.swarm_arrays)), m))
              (copied-swarm_array M mem n xs')),
        read-swarm_array M mem old n xs' v s r,
      )

  copy_swarm_list-Copies : Copies {M = M} (copy_swarm_list copy_meta) read_swarm_list
  unfolding copy_swarm_list read_swarm_list
  copy_swarm_list-Copies l v mem old z e =
      let (swarms, e1, e2) = >>=-eq-some (read_slice mem.swarm_arrays l.items) _ e in
      let (views, e3, e4) = >>=-eq-some (read_all (read_swarm mem) swarms) _ e2 in
      let (slice, more, c, r) = copy_items-Copies l.items views mem old z (rw e1 e3) in
      let (xs, r1, r2) = >>=-eq-some (read_slice (extend old more).swarm_arrays slice) _ r in
      (
        record l { meta = copy_meta l.meta; items = slice },
        more,
        rw c refl,
        rw (r1, r2, same l.meta) e4,
      )

  copy_pointer-Copies :
      {X V : Type 0} (copy : X → Memory M → Copied M X) (read : Memory M → X → Option V)
      → Copies copy read
      → Copies (copy_pointer copy) (λ mem. read_pointer (read mem))
  unfolding copy_pointer read_pointer
  copy_pointer-Copies copy read copies none v mem old s e =
      (none, nothing, ap (λ m. some (none, m)) (extend-nothing mem), e)
  copy_pointer-Copies copy read copies (some x) v mem old s e =
      let (w, e1, e2) = >>=-eq-some (read mem x) _ e in
      let (x', more, c, r) = copies x w mem old s e1 in (some x', more, rw c refl, rw r e2)

  -- A deep copy of a list of Swarms is independent of it: in the memory after the copy, with any arrays
  -- in place of those that there were before, the copy reads as the list did; a nil pointer is copied to
  -- nil. The copy of metadata is equal to it.
  pub deep_copy_list-IsCopy :
      (l : Option (SwarmListObject M)) (v : Option (M × List (SwarmView M))) (mem old : Memory M)
      → SameSize old mem
      → read_pointer (read_swarm_list mem) l ≡ some v
      → IsCopy (deep_copy_list copy_meta) (λ mem. read_pointer (read_swarm_list mem)) l v mem old
  unfolding deep_copy_list
  deep_copy_list-IsCopy l v mem old s e =
      copy_pointer-Copies (copy_swarm_list copy_meta) read_swarm_list copy_swarm_list-Copies l v mem
        old s e
