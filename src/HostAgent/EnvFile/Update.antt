-- ===== src/HostAgent/EnvFile/Update.antt =====
-- What an update of the environment file changes: the text is written and read again.
use wolt.Prelude.{String, ◌≡◌, refl, inl, inr, List, [], ◌∷◌, arith, Option-cases, All}
use wolt.HostAgent.EnvFile.{
  Values, lookup_value, pop_value, assignment, render, rendered, env_values, update_lines,
  split_lines, join_lines, file_values, updated_text,
}
use wolt.HostAgent.EnvFile.Lines.{Unbroken, split_lines-join_lines, split_lines-Unbroken}
use wolt.HostAgent.EnvFile.Values.{
  DistinctKeys, DistinctLines, Readable, or_else, All-pop_value, env_values-update_lines,
  lookup-member, update_lines-set,
}

-- A pair that its line gives back, on one line.
abbrev pub OneLine : String × String → Type 0
OneLine (k, v) = Unbroken (render k v)

rendered-Unbroken : (d : Values) → All OneLine d → All Unbroken (rendered d)
rendered-Unbroken [] h = tt
rendered-Unbroken ((k, v) ∷ d) (h, hs) = (h, rendered-Unbroken d hs)

update_lines-Unbroken :
    (d : Values) (lines : List String)
    → All OneLine d
    → All Unbroken lines
    → All Unbroken (update_lines d lines)
unfolding update_lines
update_lines-Unbroken d [] h k = rendered-Unbroken d h
update_lines-Unbroken d (line ∷ lines) h (k, ks) = elim (Option-cases (assignment line)) [
  | inl skip ↦ ground (arith, update_lines-Unbroken d lines h ks)
  | inr ((j, v), e) ↦ elim (Option-cases (lookup_value j d)) [
    | inl kept ↦ ground (arith, update_lines-Unbroken d lines h ks)
    | inr (w, set) ↦ ground (
      arith,
      update_lines-set line j v w lines d e set,
      lookup-member OneLine j w d h set,
      update_lines-Unbroken (pop_value j d) lines (All-pop_value OneLine j d h) ks,
    )
  ]
]

-- What is read back is what the lines say, also of the one empty line that no line makes.
env_values-join_lines :
    (k : String) (lines : List String)
    → All Unbroken lines
    → lookup_value k (env_values (split_lines (join_lines lines)))
      ≡ lookup_value k (env_values lines)
unfolding split_lines join_lines env_values assignment
env_values-join_lines k [] h = refl
env_values-join_lines k (l ∷ lines) (h, hs) = ground (arith, split_lines-join_lines l lines h hs)

-- `_env_values` after `_update_env`: a key has the value of the change, if the change has one, and
-- else the value it had. This holds of every key, where no two lines of the file set the same key,
-- the changes have distinct keys, and the line of each change is one line that is read as that change.
pub file_values-updated_text :
    (k content : String) (d : Values)
    → DistinctKeys d
    → All Readable d
    → All OneLine d
    → DistinctLines (split_lines content)
    → lookup_value k (file_values (updated_text d content))
      ≡ or_else (lookup_value k d) (lookup_value k (file_values content))
unfolding file_values updated_text
file_values-updated_text k content d u r h s = ground (
  arith,
  env_values-join_lines k (update_lines d (split_lines content))
      (update_lines-Unbroken d (split_lines content) h (split_lines-Unbroken content)),
  env_values-update_lines k (split_lines content) d u r s,
)
