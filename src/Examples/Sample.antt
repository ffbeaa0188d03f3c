-- ===== src/Examples/Sample.antt =====
-- Sample data: content ids are numbers, the digest is a constant, and JSON knows one prepared
-- transaction and one snapshot.
use mutsuki_distributed_host.Base.{
  ℕ, zero, suc, ◌≡◌, refl, ap, if_neg, [], ◌∷◌, Option, none, some, Text, Bytes, text_discrete,
  ℕ_discrete, ite,
}
use mutsuki_distributed_host.Base.Outcome.{ok}
use mutsuki_distributed_host.Contracts.{
  RuntimeContracts, AcceptanceMode, fast, submitted, DurableTaskRecord,
}
use mutsuki_distributed_host.Registry.Frame.{Sha256, wal_version}
use mutsuki_distributed_host.Registry.Mutation.{RegistryMutation, submit}
use mutsuki_distributed_host.Registry.Store.{
  RegistryOptions, PreparedPayload, RegistrySnapshot, Codec, MetadataReplica,
}

abbrev pub contracts : RuntimeContracts
contracts = record {
  ContentId = ℕ;
  content_discrete = ℕ_discrete;
  digest = λ n. n ∷ [];
  size = λ n. n;
  PortableTask = ℕ;
  RequirementSet = ℕ;
  TaskHandle = ℕ;
}

abbrev pub copies_of : ℕ → ℕ → Bytes
copies_of b zero = []
copies_of b (suc n) = b ∷ copies_of b n

abbrev pub sha : Sha256
sha = record { digest = λ bytes. copies_of 0 32; digest_length = λ bytes. refl }

pub acceptance_discrete : Discrete AcceptanceMode
acceptance_discrete = hlevel ℕ_discrete

abbrev pub mutation_discrete : Discrete (RegistryMutation contracts)
mutation_discrete = hlevel (ℕ_discrete, text_discrete)

abbrev prepared_discrete : Discrete (PreparedPayload contracts)
prepared_discrete = hlevel (ℕ_discrete, text_discrete, mutation_discrete)

abbrev pub task_name : Text
task_name = 116 ∷ 49 ∷ []

abbrev pub task : DurableTaskRecord contracts
task = record {
  spec = record {
    global_task_id = task_name;
    portable = 5;
    requirements = 6;
    required_inputs = [];
    requested_acceptance = fast;
  };
  state = submitted;
  acceptance = fast;
  metadata_copies = 1;
  attempts = [];
  staged_output = none;
  committed_output = none;
  conflicts = [];
  failure = none;
}

abbrev pub prepared : PreparedPayload contracts
prepared = record {
  transaction_id = copies_of 48 64;
  log_index = 1;
  previous_transaction_id = [];
  global_task_id = task_name;
  previous_version = 0;
  new_version = 1;
  mutation = submit task;
}

abbrev pub table : RegistrySnapshot contracts
table = record {
  format_version = wal_version;
  last_included_log_index = 1;
  last_transaction_id = copies_of 48 64;
  records = (task_name, task) ∷ [];
  versions = (task_name, 1) ∷ [];
}

abbrev one_byte : Bytes
one_byte = 1 ∷ []

-- One value is written as the byte 1; the others cannot be written.
abbrev pub written_as {ℓ} : {A : Type ℓ} → Discrete A → A → A → Option Bytes
written_as d a b = ite (d a b) (some one_byte) none

pub written_as-eq {ℓ} :
    {A : Type ℓ} (d : Discrete A) (a b : A) (bytes : Bytes)
    → written_as d a b ≡ some bytes
    → some a ≡ some b
written_as-eq d a b bytes h = elim (d a b) [
  | yes e ↦ ap some e
  | no n ↦ absurd (cc (if_neg (d a b) n (some one_byte) none, h))
]

abbrev table_discrete : Discrete (RegistrySnapshot contracts)
table_discrete = hlevel (ℕ_discrete, text_discrete, mutation_discrete)

abbrev pub codec : Codec contracts
codec = record {
  sha = sha;
  mutation_json = λ m. some (7 ∷ []);
  prepared_json = λ p. written_as prepared_discrete prepared p;
  read_prepared = λ bytes. some prepared;
  read-prepared_json = λ p bytes h. written_as-eq prepared_discrete prepared p bytes h;
  snapshot_json = λ s. written_as table_discrete table s;
  read_snapshot = λ bytes. some table;
  read-snapshot_json = λ s bytes h. written_as-eq table_discrete table s bytes h;
  mutation_discrete = mutation_discrete;
}

abbrev pub options : RegistryOptions
options = record {
  max_tasks = 2;
  max_record_bytes = 64;
  compact_after_records = 100;
  compact_after_bytes = 10000;
}

-- A replica that acknowledges everything, by its id.
abbrev pub replica : MetadataReplica
replica = record {
  Replica = Text;
  replica_id = λ id. id;
  commit = λ t sync id. (
    id,
    ok (record { replica_id = id; transaction_id = t.transaction_id; log_index = t.log_index }),
  );
}
