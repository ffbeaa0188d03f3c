-- ===== src/Registry/LoggedNew.antt =====
-- A new transaction of persistent_registry.rs continues the tables that it was made from.
use mutsuki_distributed_host.Base.{
  ℕ, ◌+◌, ◌≤◌, ◌≡◌, refl, subst, [], ◌++◌, Text, Bytes, arith, length, Option-cases, inl, inr,
  u64_max, some,
}
use mutsuki_distributed_host.Base.Outcome.{ok, Result-cases}
use mutsuki_distributed_host.Base.Map.{is_self, text_key}
use mutsuki_distributed_host.Base.Encoding.{le_bytes, from_utf8-hex, length-to_hex}
use mutsuki_distributed_host.Contracts.{RuntimeContracts, DurableTaskRecord}
use mutsuki_distributed_host.Registry.Frame.{prepare, commit, encode_frame}
use mutsuki_distributed_host.Registry.Mutation.{RegistryMutation, task_id, prepare_mutation}
use mutsuki_distributed_host.Registry.Store.{
  RegistryOptions, PreparedPayload, Codec, MetadataReplica, PendingTransaction, RegistryState,
  version_of, transaction_id, transaction_id_for_prepared,
}
use mutsuki_distributed_host.Registry.Log.{new_transaction}
use mutsuki_distributed_host.Registry.Logged.{IsPrepared}

module _ {r : RuntimeContracts} (c : Codec r) where
  length-transaction_id :
      (previous : Text) (index version : ℕ) (bytes : Bytes)
      → length (transaction_id c previous index version bytes) ≡ 64
  unfolding transaction_id
  length-transaction_id previous index version bytes =
      let input = previous ++ (le_bytes 8 index ++ (le_bytes 8 version ++ bytes)) in
      omega (arith, length-to_hex (c.sha.digest input), c.sha.digest_length input)

module _ {r : RuntimeContracts} {m : MetadataReplica} (c : Codec r)
    (options : RegistryOptions) where
  -- The payload that a new transaction is made of.
  abbrev prepared_of : RegistryState r m → RegistryMutation r → Bytes → ℕ → PreparedPayload r
  prepared_of s mutation bytes version = record {
    transaction_id = transaction_id c s.last_transaction_id (s.last_log_index + 1) version bytes;
    log_index = s.last_log_index + 1;
    previous_transaction_id = s.last_transaction_id;
    global_task_id = task_id mutation;
    previous_version = version;
    new_version = version + 1;
    mutation = mutation;
  }

  abbrev transaction_of :
      RegistryState r m
      → RegistryMutation r
      → Bytes
      → DurableTaskRecord r
      → ℕ
      → Bytes
      → Bytes
      → Bytes
      → PendingTransaction r
  transaction_of s mutation bytes resulting version payload prepare_frame commit_frame = record {
    metadata = record {
      transaction_id = transaction_id c s.last_transaction_id (s.last_log_index + 1) version bytes;
      log_index = s.last_log_index + 1;
      previous_version = version;
      prepare_payload = payload;
      prepare_frame = prepare_frame;
      commit_frame = commit_frame;
    };
    prepared = prepared_of s mutation bytes version;
    resulting_record = resulting;
    proofs = [];
    attempts = [];
  }

  new_transaction-eq :
      (s : RegistryState r m) (mutation : RegistryMutation r) (bytes : Bytes)
      (resulting : DurableTaskRecord r) (version : ℕ) {p : PendingTransaction r}
      → new_transaction c options s mutation bytes resulting version ≡ ok p
      → (payload : Bytes) × (prepare_frame : Bytes) × (commit_frame : Bytes) × (transaction_of s
            mutation bytes resulting version payload prepare_frame commit_frame
          ≡ p)
        × (s.last_log_index + 1 ≤ u64_max)
        × (version + 1 ≤ u64_max)
        × (c.prepared_json (prepared_of s mutation bytes version) ≡ some payload)
        × (length payload ≤ options.max_record_bytes)
        × (encode_frame c.sha prepare (s.last_log_index + 1) payload ≡ ok prepare_frame)
        × (encode_frame c.sha commit
              (s.last_log_index + 1)
              (transaction_id c s.last_transaction_id (s.last_log_index + 1) version bytes)
            ≡ ok commit_frame)
  unfolding new_transaction
  new_transaction-eq s mutation bytes resulting version h =
      elim (Option-cases (c.prepared_json (prepared_of s mutation bytes version))) [
        | inl e ↦ absurd (ground arith)
        | inr (payload, js) ↦
            elim (Result-cases (encode_frame c.sha prepare (s.last_log_index + 1) payload)) [
              | inr e ↦ absurd (ground arith)
              | inl (first, pe) ↦
                  elim (Result-cases (
                    encode_frame c.sha commit (s.last_log_index + 1) (
                      transaction_id c s.last_transaction_id (s.last_log_index + 1) version
                        bytes))) [
                          | inr e ↦ absurd (ground arith)
                          | inl (second, ce) ↦ (
                            payload,
                            first,
                            second,
                            ground arith,
                            ground arith,
                            ground arith,
                            js,
                            ground arith,
                            pe,
                            ce,
                          )
                        ]
            ]
      ]

  pub new_transaction-IsPrepared :
      (s : RegistryState r m) (mutation : RegistryMutation r) (bytes : Bytes)
      (resulting : DurableTaskRecord r) {p : PendingTransaction r}
      → 64 ≤ options.max_record_bytes
      → prepare_mutation s.records mutation options.max_tasks ≡ ok resulting
      → c.mutation_json mutation ≡ some bytes
      → new_transaction c options s mutation bytes resulting
          (version_of (task_id mutation) s.versions)
        ≡ ok p
      → IsPrepared c options s.records s.versions s.last_log_index s.last_transaction_id p
  unfolding transaction_id_for_prepared
  new_transaction-IsPrepared s mutation bytes resulting low accepted mj h =
      let version = version_of (task_id mutation) s.versions in
      let (payload, first, second, same, index_fits, version_fits, js, fits, pe, ce) =
        new_transaction-eq s mutation bytes resulting version h in
      subst (IsPrepared c options s.records s.versions s.last_log_index s.last_transaction_id) same
        (record {
          same_id = refl;
          same_index = refl;
          same_version = refl;
          task = refl;
          next_index = omega arith;
          index_fits = index_fits;
          chained = ground (arith, is_self s.last_transaction_id);
          hashed = ground (arith, mj);
          accepted = accepted;
          encoded = js;
          payload_fits = fits;
          prepare_written = pe;
          commit_written = ce;
          text = unfold transaction_id in from_utf8-hex _;
          id_fits = omega (
            arith,
            length-transaction_id c s.last_transaction_id (s.last_log_index + 1) version bytes,
          );
        })
