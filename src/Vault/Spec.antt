-- ===== src/Vault/Spec.antt =====
-- A vault as its callers see it, for plugins/vivim-vault/src: under each namespace and id the list
-- of the versions that were appended, oldest first; revision 1 is the first of them. The writes that
-- index.ts puts on the queue run one after the other: a run is a list of commands.
use vivim_omega.Common.{
  ℕ, zero, suc, String, ◌&&◌, Option, none, some, List, [], ◌∷◌, ◌++◌, ◌==◌, if◌then◌else◌, length,
  get_elem?,
}
use vivim_omega.Vault.Canon.{canonical_json}
use vivim_omega.Vault.Store.{MetaEnvelope, ObjectRow, ObjectRecord, Vault}
use vivim_omega.Vault.Append.{AppendInput, append_object}
use vivim_omega.Vault.Json.{json_value}
use vivim_omega.Vault.Compact.{compact}

pub data Command : Type 0 where
  append : AppendInput → Command
  compaction : String → ℕ → ℕ → Command

module _ (hash : String → String) where
  -- what a write leaves behind; a throw of the transaction rolls it back
  unfoldable pub step : Command → Vault → Vault
  unfolding append_object compact
  step (append input) v = (append_object hash input v).1
  step (compaction ns keep now) v = elim (compact ns keep now v) [ none ↦ v | some done ↦ done.1 ]

  -- the write queue, in order
  unfoldable pub run : List Command → Vault → Vault
  unfolding step
  run [] v = v
  run (c ∷ cs) v = run cs (step c v)

-- the canonical text of the data; the meta, as JSON gives it back, and the refs
pub record Version : Type 0 where
  pub body : String
  pub envelope : MetaEnvelope

abbrev pub Spec : Type 0
Spec = String → String → List Version

abbrev pub version_of : AppendInput → String → Version
version_of input t = record {
  body = t;
  envelope = record { meta = json_value input.meta; refs = input.refs };
}

-- appending adds a version of one object; compaction is not visible
unfoldable pub spec_step : Command → Spec → Spec
unfolding canonical_json
spec_step (append input) s = elim (canonical_json input.data_) [
  | none ↦ s
  | some t ↦ λ ns id.
      if input.ns == ns && input.id == id then s ns id ++ version_of input t ∷ [] else s ns id
]
spec_step (compaction ns keep now) s = s

unfoldable pub spec_run : List Command → Spec → Spec
unfolding spec_step
spec_run [] s = s
spec_run (c ∷ cs) s = spec_run cs (spec_step c s)

abbrev pub empty_spec : Spec
empty_spec ns id = []

-- revision `rev`, numbered from 1
abbrev pub version? : ℕ → List Version → Option Version
version? zero vs = none
version? (suc i) vs = get_elem? vs i

module _ (hash : String → String) where
  abbrev pub record_from : ℕ → Option Version → Option ObjectRecord
  record_from rev none = none
  record_from rev (some x) = some (record {
    rev = rev;
    cid = hash x.body;
    data_ = x.body;
    meta = x.envelope.meta;
    refs = x.envelope.refs;
  })

  -- a revision by its number, or the last one
  abbrev pub spec_read : Spec → String → String → Option ℕ → Option ObjectRecord
  spec_read s ns id (some rev) = record_from rev (version? rev (s ns id))
  spec_read s ns id none = record_from (length (s ns id)) (version? (length (s ns id)) (s ns id))

  abbrev pub row_from : String → String → ℕ → Option Version → Option ObjectRow
  row_from ns id rev none = none
  row_from ns id rev (some x) =
      some (record { ns = ns; id = id; rev = rev; cid = hash x.body; meta = x.envelope })

  -- the row that stands for a revision
  abbrev pub spec_row : Spec → String → String → ℕ → Option ObjectRow
  spec_row s ns id rev = row_from ns id rev (version? rev (s ns id))
