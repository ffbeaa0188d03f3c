-- ===== src/Recovery/Mirror.antt =====
-- `MirrorAdmission` of recovery.rs: the sessions that may have a standby, within a budget.
use mutsuki_distributed_host.Base.{
  ℕ, suc, ◌+◌, ◌≤◌, ◌<◌, ◌≡◌, refl, ◌∙◌, Bool, false, not, ◌||◌, List, [], ◌∷◌, Text, ltb, leb,
  ◌==◌, if◌then◌else◌, if-cases, if_pos, if_neg, length, min, sat_add, u64_max, arith,
}
use mutsuki_distributed_host.Base.Outcome.{
  Result, ok, err, ◌>>◌, refuse_if, invalid_config, capacity_exceeded,
}
use mutsuki_distributed_host.Base.Map.{
  Map, insert, place, remove, contains, text_key, length-insert, length-remove-le,
}

pub record MirrorBudget : Type 0 where
  pub max_sessions : ℕ
  pub max_compute_units : ℕ
  pub max_memory_bytes : ℕ
  pub max_network_bytes : ℕ

-- What a session uses: compute units, memory and network.
abbrev pub Usage : Type 0
Usage = ℕ × ℕ × ℕ

pub record MirrorAdmission : Type 0 where
  pub budget : MirrorBudget
  pub sessions : Map Text Usage

unfoldable pub new_admission : MirrorBudget → Result MirrorAdmission
new_admission budget = do
  refuse_if
      (budget.max_sessions == 0
        || budget.max_compute_units == 0
        || budget.max_memory_bytes == 0
        || budget.max_network_bytes == 0)
      invalid_config
  ok (record { budget = budget; sessions = [] })

-- The fold over the sessions, from the left.
unfoldable pub used_from : Usage → Map Text Usage → Usage
used_from used [] = used
used_from used ((id, item) ∷ sessions) =
    used_from (sat_add used.0 item.0, sat_add used.1 item.1, sat_add used.2 item.2) sessions

unfoldable pub over_budget : MirrorAdmission → Usage → Bool
unfolding used_from
over_budget m item =
    let used = used_from (0, 0, 0) m.sessions in
    leb m.budget.max_sessions (length m.sessions)
    || ltb m.budget.max_compute_units (sat_add used.0 item.0)
    || ltb m.budget.max_memory_bytes (sat_add used.1 item.1)
    || ltb m.budget.max_network_bytes (sat_add used.2 item.2)

unfoldable pub admit_session :
    Text → Bool → Usage → MirrorAdmission → MirrorAdmission × Result (Unit {0})
unfolding over_budget
admit_session session critical item m =
    if not critical || contains session m.sessions
    then (m, err invalid_config)
    else if over_budget m item
    then (m, err capacity_exceeded)
    else (record m { sessions = insert session item m.sessions }, ok tt)

unfoldable pub release_session : Text → MirrorAdmission → MirrorAdmission × Bool
release_session session m =
    (record m { sessions = remove session m.sessions }, contains session m.sessions)

-- Admissions and releases in any order.
pub data MirrorCall : Type 0 where
  admit_call : Text → Bool → Usage → MirrorCall
  release_call : Text → MirrorCall

unfoldable pub serve_mirror : MirrorCall → MirrorAdmission → MirrorAdmission
unfolding admit_session release_session
serve_mirror (admit_call session critical item) m = (admit_session session critical item m).0
serve_mirror (release_call session) m = (release_session session m).0

unfoldable pub serve_mirrors : List MirrorCall → MirrorAdmission → MirrorAdmission
serve_mirrors [] m = m
serve_mirrors (call ∷ calls) m = serve_mirrors calls (serve_mirror call m)

-- The sum over the sessions, without a limit.
abbrev pub total : (Usage → ℕ) → Map Text Usage → ℕ
total f [] = 0
total f ((id, item) ∷ sessions) = f item + total f sessions

-- The budget holds: as many sessions as allowed, and each sum within its limit.
abbrev pub IsWithin : MirrorAdmission → Type 0
IsWithin m =
    (length m.sessions ≤ m.budget.max_sessions)
    × (total (λ u. u.0) m.sessions ≤ m.budget.max_compute_units)
    × (total (λ u. u.1) m.sessions ≤ m.budget.max_memory_bytes)
    × (total (λ u. u.2) m.sessions ≤ m.budget.max_network_bytes)

-- Limits that a saturated sum does not reach.
abbrev pub IsFinite : MirrorBudget → Type 0
IsFinite b =
    (b.max_compute_units < u64_max)
    × (b.max_memory_bytes < u64_max)
    × (b.max_network_bytes < u64_max)

used_from-total :
    (used : Usage) (sessions : Map Text Usage)
    → used.0 ≤ u64_max
    → used.1 ≤ u64_max
    → used.2 ≤ u64_max
    → ((used_from used sessions).0 ≡ min (used.0 + total (λ u. u.0) sessions) u64_max)
      × ((used_from used sessions).1 ≡ min (used.1 + total (λ u. u.1) sessions) u64_max)
      × ((used_from used sessions).2 ≡ min (used.2 + total (λ u. u.2) sessions) u64_max)
unfolding used_from
used_from-total used [] a b c = (omega arith, omega arith, omega arith)
used_from-total used ((id, item) ∷ sessions) a b c =
    let (x, y, z) =
      used_from-total (sat_add used.0 item.0, sat_add used.1 item.1, sat_add used.2 item.2) sessions
        (omega arith) (omega arith) (omega arith) in
    (omega (arith, x), omega (arith, y), omega (arith, z))

total-place :
    (f : Usage → ℕ) (session : Text) (item : Usage) (sessions : Map Text Usage)
    → total f (place session item sessions) ≡ f item + total f sessions
unfolding place
total-place f session item [] = refl
total-place f session item ((k, v) ∷ sessions) = ground (arith, total-place f session item sessions)

total-insert :
    (f : Usage → ℕ) (session : Text) (item : Usage) (sessions : Map Text Usage)
    → contains session sessions ≡ false
    → total f (insert session item sessions) ≡ f item + total f sessions
unfolding insert
total-insert f session item sessions new = rw new (total-place f session item sessions)

total-remove-le :
    (f : Usage → ℕ) (session : Text) (sessions : Map Text Usage)
    → total f (remove session sessions) ≤ total f sessions
unfolding remove
total-remove-le f session [] = omega arith
total-remove-le f session ((k, v) ∷ sessions) = elim (text_key.discrete k session) [
  | yes e ↦ rw (if_pos _ e) (omega (arith, total-remove-le f session sessions))
  | no e ↦ rw (if_neg _ e) (omega (arith, total-remove-le f session sessions))
]

admitted-IsWithin :
    (session : Text) (item : Usage) (m : MirrorAdmission)
    → IsFinite m.budget
    → contains session m.sessions ≡ false
    → over_budget m item ≡ false
    → IsWithin (record m { sessions = insert session item m.sessions })
unfolding over_budget
admitted-IsWithin session item m (fc, fm, fn) new room =
    let (x, y, z) =
      used_from-total (0, 0, 0) m.sessions (omega arith) (omega arith) (omega arith) in
    let size : length (insert session item m.sessions) ≡ suc (length m.sessions) =
      length-insert session item m.sessions ∙ rw new refl in
    let (few, ca, ma, na) : (length m.sessions < m.budget.max_sessions)
        × (sat_add (used_from (0, 0, 0) m.sessions).0 item.0 ≤ m.budget.max_compute_units)
        × (sat_add (used_from (0, 0, 0) m.sessions).1 item.1 ≤ m.budget.max_memory_bytes)
        × (sat_add (used_from (0, 0, 0) m.sessions).2 item.2 ≤ m.budget.max_network_bytes) =
      (ground (arith, room), ground (arith, room), ground (arith, room), ground (arith, room)) in
    (
      omega (arith, size),
      omega (arith, total-insert (λ u. u.0) session item m.sessions new, x),
      omega (arith, total-insert (λ u. u.1) session item m.sessions new, y),
      omega (arith, total-insert (λ u. u.2) session item m.sessions new, z),
    )

serve_mirror-IsWithin :
    (call : MirrorCall) (m : MirrorAdmission)
    → IsFinite m.budget
    → IsWithin m
    → IsWithin (serve_mirror call m) × ((serve_mirror call m).budget ≡ m.budget)
unfolding serve_mirror admit_session release_session
serve_mirror-IsWithin (admit_call session critical item) m finite within =
    if-cases (λ (x : MirrorAdmission × Result (Unit {0})). IsWithin x.0 × (x.0.budget ≡ m.budget))
      (not critical || contains session m.sessions) (λ bad. (within, refl))
      (λ fresh.
        if-cases
          (λ (x : MirrorAdmission × Result (Unit {0})). IsWithin x.0 × (x.0.budget ≡ m.budget))
          (over_budget m item) (λ bad. (within, refl))
          (λ room. (admitted-IsWithin session item m finite (ground (arith, fresh)) room, refl)))
serve_mirror-IsWithin (release_call session) m finite (few, c, mem, net) = (
  (
    omega (arith, length-remove-le session m.sessions),
    omega (arith, total-remove-le (λ u. u.0) session m.sessions),
    omega (arith, total-remove-le (λ u. u.1) session m.sessions),
    omega (arith, total-remove-le (λ u. u.2) session m.sessions),
  ),
  refl,
)

-- Under a budget whose limits are below the largest 64-bit number, any admissions and releases keep
-- the number of sessions and the sums of their compute units, memory and network within it.
pub serve_mirrors-IsWithin :
    (calls : List MirrorCall) (m : MirrorAdmission)
    → IsFinite m.budget
    → IsWithin m
    → IsWithin (serve_mirrors calls m)
unfolding serve_mirrors
serve_mirrors-IsWithin [] m finite within = within
serve_mirrors-IsWithin (call ∷ calls) m finite within =
    let (after, same) : IsWithin (serve_mirror call m) × ((serve_mirror call m).budget ≡ m.budget) =
      serve_mirror-IsWithin call m finite within in
    serve_mirrors-IsWithin calls (serve_mirror call m) (rw same finite) after
