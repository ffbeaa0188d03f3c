-- ===== src/Control/Fencing.antt =====
-- Grants of ha_control.rs over any calls: epochs rise, and a grant that was replaced stays fenced.
use mutsuki_distributed_host.Base.{
  ℕ, ◌≤◌, ◌<◌, ◌≡◌, ◌≢◌, ap, sym, ◌∙◌, inl, inr, Bool, false, ◌||◌, List, [], ◌∷◌, Option, none,
  some, Bytes, ◌==◌, if◌then◌else◌, if-either, sat_add, u64_max, arith,
}
use mutsuki_distributed_host.Base.Outcome.{Result, ok, err, Result-cases}
use mutsuki_distributed_host.Base.Map.{get, text_key, get-insert_self, All-get}
use mutsuki_distributed_host.Contracts.{GlobalTaskId, NodeId}
use mutsuki_distributed_host.Control.Types.{
  ControlRecord, CommittedControlRecord, ExecutionGrant, durable_write, irreversible_effect,
}
use mutsuki_distributed_host.Control.Cluster.{
  ReferenceCftModel, elect, set_alive, isolate, recover, grant_discrete,
}
use mutsuki_distributed_host.Control.Authority.{
  renew_control_lease, authorize, validate_result, is_grant,
}
use mutsuki_distributed_host.Control.Propose.{propose}
use mutsuki_distributed_host.Control.Grants.{new_grant, grant_record, note_grant, issue_grant}
use mutsuki_distributed_host.Control.Calls.{
  ControlCall, elect_call, recover_call, alive_call, isolate_call, renew_call, propose_call,
  propose_from_call, grant_call, record_call, reconcile_call, serve, serve_all,
}
use mutsuki_distributed_host.Control.Epochs.{
  IsSound, IsFenced, Step, same-Step, Step-IsSound, Step-IsFenced,
}
use mutsuki_distributed_host.Control.Unchanged.{
  elect-Same, set_alive-Same, isolate-Same, recover-Same, renew-Same,
}
use mutsuki_distributed_host.Control.Steps.{
  propose-Step, propose_from-Step, grant-Step, record-Step, reconcile-Step,
}

not_grant : (new old : ExecutionGrant) → old.epoch < new.epoch → is_grant (some new) old ≡ false
not_grant new old ahead = elim (grant_discrete new old) [
  | yes e ↦ absurd (omega (arith, ap (λ g. g.epoch) e))
  | no e ↦ ground arith
]

IsFenced-refused :
    (old : ExecutionGrant) (tick : ℕ) (m : ReferenceCftModel)
    → IsFenced old m
    → validate_result old tick m ≢ ok tt
unfolding validate_result
IsFenced-refused old tick m (new, stored, ahead) h =
    let lost : is_grant (get old.global_task_id m.grants) old ≡ false =
      rw stored (not_grant new old ahead) in
    ground (arith, lost)

module _ (record_json : ControlRecord → Option Bytes) where
  pub serve-Step :
      (call : ControlCall) (m : ReferenceCftModel) → IsSound m → Step m (serve record_json call m)
  unfolding serve
  serve-Step (elect_call candidate) m s =
      same-Step m (elect candidate m).0 s (elect-Same candidate m)
  serve-Step (recover_call node) m s = same-Step m (recover node m).0 s (recover-Same node m)
  serve-Step (alive_call node alive) m s =
      same-Step m (set_alive node alive m).0 s (set_alive-Same node alive m)
  serve-Step (isolate_call node cut) m s =
      same-Step m (isolate node cut m).0 s (isolate-Same node cut m)
  serve-Step (renew_call leader issued ticks) m s =
      same-Step m (renew_control_lease leader issued ticks m).0 s (renew-Same leader issued ticks m)
  serve-Step (propose_call leader entry) m s = propose-Step record_json leader entry m s
  serve-Step (propose_from_call ingress entry tick) m s =
      propose_from-Step record_json ingress entry tick m s
  serve-Step (grant_call leader task attempt worker issued ticks irreversible) m s =
      grant-Step record_json leader task attempt worker issued ticks irreversible m s
  serve-Step (record_call observer result tick) m s =
      record-Step record_json observer result tick m s
  serve-Step (reconcile_call leader task decision tick) m s =
      reconcile-Step record_json leader task decision tick m s

  -- Any calls keep the epochs of the grants within the current one and at most as many uncommitted
  -- results as the limit.
  pub serve_all-IsSound :
      (calls : List ControlCall) (m : ReferenceCftModel)
      → IsSound m
      → IsSound (serve_all record_json calls m)
  unfolding serve_all
  serve_all-IsSound [] m s = s
  serve_all-IsSound (call ∷ calls) m s =
      serve_all-IsSound calls (serve record_json call m)
        (Step-IsSound m (serve record_json call m) s (serve-Step call m s))

  serve_all-IsFenced :
      (old : ExecutionGrant) (calls : List ControlCall) (m : ReferenceCftModel)
      → IsSound m
      → IsFenced old m
      → IsFenced old (serve_all record_json calls m)
  unfolding serve_all
  serve_all-IsFenced old [] m s f = f
  serve_all-IsFenced old (call ∷ calls) m s f =
      let step : Step m (serve record_json call m) = serve-Step call m s in
      serve_all-IsFenced old calls (serve record_json call m)
        (Step-IsSound m (serve record_json call m) s step)
        (Step-IsFenced old m (serve record_json call m) s step f)

  -- The grant that a call returned is stored with an epoch of its own.
  note_grant-stores :
      (grant new : ExecutionGrant) (x : ReferenceCftModel × Result CommittedControlRecord)
      → (note_grant grant x).1 ≡ ok new
      → (get grant.global_task_id (note_grant grant x).0.grants ≡ some grant) × (new ≡ grant)
  unfolding note_grant
  note_grant-stores grant new (n, err e) h = absurd cc
  note_grant-stores grant new (n, ok c) h =
      (get-insert_self grant.global_task_id grant n.grants, cc)

  abbrev Stored :
      GlobalTaskId → ℕ → ExecutionGrant → ReferenceCftModel × Result ExecutionGrant → Type 0
  Stored task epoch new x =
      x.1 ≡ ok new → (get task x.0.grants ≡ some new) × (new.epoch ≡ sat_add epoch 1)

  issue_grant-Stored :
      (leader : NodeId) (task : GlobalTaskId) (attempt : ℕ) (worker : NodeId) (issued ticks : ℕ)
      (irreversible : Bool) (m : ReferenceCftModel) (new : ExecutionGrant)
      → Stored task m.current_epoch new
          (issue_grant record_json leader task attempt worker issued ticks irreversible m)
  unfolding issue_grant
  issue_grant-Stored leader task attempt worker issued ticks irreversible m new =
      let grant : ExecutionGrant = new_grant task attempt worker issued ticks irreversible m in
      let operation = if irreversible then irreversible_effect else durable_write in
      let proposed : ReferenceCftModel × Result CommittedControlRecord =
        propose record_json leader (grant_record grant) m in
      let stored : Stored task m.current_epoch new (note_grant grant proposed) = λ h.
        let (found, same) : (get task (note_grant grant proposed).0.grants ≡ some grant)
            × (new ≡ grant) =
          note_grant-stores grant new proposed h in
        (found ∙ ap some (sym same), ap (λ g. g.epoch) same) in
      elim (Result-cases (authorize leader operation none issued m)) [
        | inr (bad, h) ↦
            rw (h, issue_grant)
              (if-either
                (λ (x : ReferenceCftModel × Result ExecutionGrant).
                  Stored task m.current_epoch new x)
                (attempt == 0 || ticks == 0) (λ e. absurd cc) (λ e. absurd cc))
        | inl (done, h) ↦
            rw (h, issue_grant)
              (if-either
                (λ (x : ReferenceCftModel × Result ExecutionGrant).
                  Stored task m.current_epoch new x)
                (attempt == 0 || ticks == 0) (λ e. absurd cc) stored)
      ]

  -- Where the stored grant of a task is replaced by a new one, with epochs left to count, the old
  -- one is refused at every tick, whatever calls follow.
  pub issue_grant-fences :
      (leader : NodeId) (task : GlobalTaskId) (attempt : ℕ) (worker : NodeId) (issued ticks : ℕ)
      (irreversible : Bool) (m : ReferenceCftModel) (old new : ExecutionGrant)
      (calls : List ControlCall) (tick : ℕ)
      → IsSound m
      → m.current_epoch < u64_max
      → get task m.grants ≡ some old
      → old.global_task_id ≡ task
      → (issue_grant record_json leader task attempt worker issued ticks irreversible m).1 ≡ ok new
      → validate_result old tick (
          serve_all record_json calls
            (issue_grant record_json leader task attempt worker issued ticks irreversible m).0)
        ≢ ok tt
  issue_grant-fences leader task attempt worker issued ticks irreversible m old new calls tick sound
        room had same issued_new =
      let n = (issue_grant record_json leader task attempt worker issued ticks irreversible m).0 in
      let step : Step m n =
        grant-Step record_json leader task attempt worker issued ticks irreversible m sound in
      let (found, epoch) =
        issue_grant-Stored leader task attempt worker issued ticks irreversible m new issued_new in
      let below : old.epoch ≤ m.current_epoch =
        All-get (λ e. e.1.epoch ≤ m.current_epoch) task m.grants sound.1 had in
      let fenced_now : IsFenced old n = (new, rw same found, omega (arith, epoch)) in
      IsFenced-refused old tick (serve_all record_json calls n)
        (serve_all-IsFenced old calls n (Step-IsSound m n sound step) fenced_now)
