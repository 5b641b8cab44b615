-- ===== src/Logging.antt =====
-- pkg/log/formatter.go and pkg/log/logrusHook.go: the fields that every entry of the log gets.
--
-- The frame that runtime.Caller finds is an argument. Its line is not negative.
pub mod Trimming
use k8s_swarm.Prelude.{
  ℕ, suc, ◌+◌, List, [], ◌∷◌, ◌++◌, Option, none, some, ◌≡◌, refl, Bytes, codes, Dict, insert, drop,
  ◌==◌, if◌then◌else◌,
}
use k8s_swarm.Text.{format}

-- bytes.LastIndexAny for a set of one byte; -1 is `none`.
unfoldable pub last_index_any : ℕ → Bytes → Option ℕ
last_index_any sep [] = none
last_index_any sep (c ∷ s) = elim (last_index_any sep s) [
  | some i ↦ some (suc i)
  | none ↦ if c == sep then some 0 else none
]

-- `s[i+1:]`, where the separator was found.
unfoldable pub trim_path : ℕ → Bytes → Bytes
trim_path sep s = elim (last_index_any sep s) [ none ↦ s | some i ↦ drop (i + 1) s ]

-- What the runtime knows of a caller.
pub record Frame : Type 0 where
  pub name : Bytes
  pub file : Bytes
  pub line : ℕ

-- `CallerPrettyfier`: the function and the file.
unfoldable pub caller_prettyfier : Frame → Bytes × Bytes
unfolding trim_path last_index_any
caller_prettyfier frame =
    (trim_path b'.' frame.name, trim_path b'/' frame.file ++ b':' ∷ format frame.line)

pub record GlobalFieldHook : Type 0 where
  pub service : Bytes
  pub env : Bytes

unfoldable pub new_global_field_hook : Bytes → Bytes → GlobalFieldHook
new_global_field_hook service env = record { service = service; env = env }

-- `Fire`, on the entry's data; it returns no error.
unfoldable pub fire : GlobalFieldHook → Dict Bytes → Dict Bytes
fire h entry = insert (codes "env") h.env (insert (codes "service") h.service entry)

caller_runs :
    caller_prettyfier (record { name = codes "a/b.(*T).Run"; file = codes "/src/b/t.go"; line = 7 })
    ≡ (codes "Run", codes "t.go:7")
unfolding caller_prettyfier format
caller_runs = refl
