-- ===== src/Control/Epochs.antt =====
-- How the calls of ha_control.rs may change grants, epochs and uncommitted results.
use mutsuki_distributed_host.Base.{
  ℕ, ◌≤◌, ◌<◌, ◌≡◌, ◌⊎◌, ap, sym, subst, inl, inr, [], ◌∷◌, some, length, All, u64_max, arith,
}
use mutsuki_distributed_host.Base.Map.{Map, get, insert, text_key, get-insert, All-insert, All-get}
use mutsuki_distributed_host.Contracts.{GlobalTaskId}
use mutsuki_distributed_host.Control.Types.{ExecutionGrant}
use mutsuki_distributed_host.Control.Cluster.{ReferenceCftModel}
use mutsuki_distributed_host.Control.Grants.{max_uncommitted_results}

-- What holds between calls: no epoch of a grant is ahead of the current one, and the table of
-- uncommitted results is bounded.
abbrev pub IsSound : ReferenceCftModel → Type 0
IsSound m =
    (m.current_epoch ≤ u64_max)
    × All (λ e. e.1.epoch ≤ m.current_epoch) m.grants
    × (length m.uncommitted_results ≤ max_uncommitted_results)

-- A later grant of the task is stored.
abbrev pub IsFenced : ExecutionGrant → ReferenceCftModel → Type 0
IsFenced old m =
    (new : ExecutionGrant) × (get old.global_task_id m.grants ≡ some new) × (old.epoch < new.epoch)

-- A step that leaves grants and results as they are.
abbrev pub SameGrants : ReferenceCftModel → ReferenceCftModel → Type 0
SameGrants m n =
    (n.grants ≡ m.grants)
    × (n.current_epoch ≡ m.current_epoch)
    × (n.uncommitted_results ≡ m.uncommitted_results)

-- A step that may raise the epoch, store a grant of the new epoch, or change results in bounds.
abbrev pub Step : ReferenceCftModel → ReferenceCftModel → Type 0
Step m n =
    (n.current_epoch ≤ u64_max)
    × (m.current_epoch ≤ n.current_epoch)
    × (length n.uncommitted_results ≤ max_uncommitted_results)
    × ((n.grants ≡ m.grants)
        ⊎ ((g : ExecutionGrant) × (n.grants ≡ insert g.global_task_id g m.grants)
            × (g.epoch ≡ n.current_epoch)))

pub same-Step : (m n : ReferenceCftModel) → IsSound m → SameGrants m n → Step m n
same-Step m n (fits, epochs, few) (grants, epoch, results) =
    (omega (arith, epoch), omega (arith, epoch), omega (arith, ap length results), inl grants)

All-later :
    (low high : ℕ) (grants : Map GlobalTaskId ExecutionGrant)
    → low ≤ high
    → All (λ e. e.1.epoch ≤ low) grants
    → All (λ e. e.1.epoch ≤ high) grants
All-later low high [] h a = tt
All-later low high ((task, grant) ∷ grants) h a =
    (omega (arith, a.0), All-later low high grants h a.1)

pub Step-IsSound : (m n : ReferenceCftModel) → IsSound m → Step m n → IsSound n
Step-IsSound m n (fits, epochs, few) (fits', rises, few', grants) =
    let later = All-later m.current_epoch n.current_epoch m.grants rises epochs in
    elim grants [
      | inl same ↦ (fits', subst (All (λ e. e.1.epoch ≤ n.current_epoch)) (sym same) later, few')
      | inr (g, stored, newest) ↦ (
        fits',
        subst (All (λ e. e.1.epoch ≤ n.current_epoch)) (sym stored) (
            All-insert (λ e. e.1.epoch ≤ n.current_epoch) g.global_task_id g m.grants
              (omega (arith, newest)) later),
        few',
      )
    ]

pub Step-IsFenced :
    (old : ExecutionGrant) (m n : ReferenceCftModel)
    → IsSound m
    → Step m n
    → IsFenced old m
    → IsFenced old n
Step-IsFenced old m n (fits, epochs, few) (fits', rises, few', grants) (new, stored, ahead) =
    let below : new.epoch ≤ m.current_epoch =
      All-get (λ e. e.1.epoch ≤ m.current_epoch) old.global_task_id m.grants epochs stored in
    elim grants [
      | inl same ↦ (new, rw same stored, ahead)
      | inr (g, inserted, newest) ↦ elim (text_key.discrete g.global_task_id old.global_task_id) [
        | yes e ↦ (
          g,
          rw inserted (ground (arith, get-insert g.global_task_id old.global_task_id g m.grants)),
          omega (arith, newest),
        )
        | no e ↦ (
          new,
          rw inserted (ground (arith, get-insert g.global_task_id old.global_task_id g m.grants)),
          ahead,
        )
      ]
    ]
