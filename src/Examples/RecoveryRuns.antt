-- ===== src/Examples/RecoveryRuns.antt =====
-- Runs of the session mirrors of recovery.rs.
use mutsuki_distributed_host.Base.{true, List, [], ◌∷◌, arith}
use mutsuki_distributed_host.Recovery.Mirror.{
  MirrorAdmission, MirrorCall, admit_call, release_call, serve_mirrors, IsWithin,
  serve_mirrors-IsWithin,
}

abbrev mirrors : MirrorAdmission
mirrors = record {
  budget = record {
    max_sessions = 2;
    max_compute_units = 10;
    max_memory_bytes = 100;
    max_network_bytes = 50;
  };
  sessions = [];
}

abbrev mirror_calls : List MirrorCall
mirror_calls =
    admit_call (97 ∷ []) true (4, 60, 20)
    ∷ admit_call (98 ∷ []) true (4, 60, 20)
    ∷ release_call (97 ∷ [])
    ∷ admit_call (98 ∷ []) true (4, 60, 20)
    ∷ []

serve_mirrors-IsWithin_example : IsWithin (serve_mirrors mirror_calls mirrors)
serve_mirrors-IsWithin_example =
    serve_mirrors-IsWithin mirror_calls mirrors (omega arith, omega arith, omega arith)
      (omega arith, omega arith, omega arith, omega arith)
