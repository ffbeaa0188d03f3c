-- ===== src/Control/Detector.antt =====
-- `FailureDetector` of ha_control.rs.
use mutsuki_distributed_host.Base.{
  ℕ, ◌-◌, Bool, true, false, not, ◌&&◌, ◌||◌, [], Option, none, some, leb, ◌==◌, if◌then◌else◌,
  length, map,
}
use mutsuki_distributed_host.Base.Outcome.{
  Result, ok, err, ◌>>◌, refuse_if, invalid_config, capacity_exceeded, worker_unavailable,
}
use mutsuki_distributed_host.Base.Map.{Map, get, insert, contains, text_key}
use mutsuki_distributed_host.Contracts.{NodeId}
use mutsuki_distributed_host.Control.Types.{
  MemberHealth, MemberPulseSummary, healthy, overloaded, draining, suspect, isolated_member, dead,
  incompatible_member,
}

pub data PulseDisposition : Type 0 where
  accepted_pulse full_snapshot_required : PulseDisposition

pub record MemberObservation : Type 0 where
  pub summary : MemberPulseSummary
  pub last_tick : ℕ

pub record FailureDetector : Type 0 where
  pub members : Map NodeId MemberObservation
  pub max_members : ℕ
  pub suspect_after_ticks : ℕ
  pub dead_after_ticks : ℕ
  pub active_interval_ticks : ℕ
  pub stable_interval_ticks : ℕ

unfoldable pub new_detector : ℕ → ℕ → ℕ → ℕ → ℕ → Result FailureDetector
new_detector max_members suspect_after dead_after active_interval stable_interval = do
  refuse_if
      (max_members == 0
        || suspect_after == 0
        || leb dead_after suspect_after
        || active_interval == 0
        || not (leb active_interval stable_interval))
      invalid_config
  ok (record {
    members = [];
    max_members = max_members;
    suspect_after_ticks = suspect_after;
    dead_after_ticks = dead_after;
    active_interval_ticks = active_interval;
    stable_interval_ticks = stable_interval;
  })

abbrev pub with_members : FailureDetector → Map NodeId MemberObservation → FailureDetector
with_members detector members = record detector { members = members }

unfoldable pub register_full :
    MemberPulseSummary → ℕ → FailureDetector → FailureDetector × Result (Unit {0})
register_full summary tick detector =
    if summary.capability_version == 0 || summary.resource_version == 0
    then (detector, err invalid_config)
    else if not (contains summary.node_id detector.members)
        && leb detector.max_members (length detector.members)
    then (detector, err capacity_exceeded)
    else (
      with_members detector (
          insert summary.node_id (record { summary = summary; last_tick = tick }) detector.members),
      ok tt,
    )

abbrev pub with_health : MemberHealth → MemberObservation → MemberObservation
with_health health member = record member { summary = record member.summary { health = health } }

-- The member after a pulse, and the answer.
unfoldable pub pulse_member :
    MemberPulseSummary → ℕ → MemberObservation → MemberObservation × PulseDisposition
pulse_member pulse tick member =
    if not (member.summary.capability_version == pulse.capability_version)
      || not (member.summary.resource_version == pulse.resource_version)
    then (with_health incompatible_member member, full_snapshot_required)
    else (
      record {
        summary = record member.summary {
          pressure_bucket = pulse.pressure_bucket;
          health = pulse.health;
        };
        last_tick = tick;
      },
      accepted_pulse,
    )

unfoldable pub pulse :
    MemberPulseSummary → ℕ → FailureDetector → FailureDetector × Result PulseDisposition
unfolding pulse_member
pulse summary tick detector = elim (get summary.node_id detector.members) [
  | none ↦ (detector, err worker_unavailable)
  | some member ↦
      let seen = pulse_member summary tick member in
      (with_members detector (insert summary.node_id seen.0 detector.members), ok seen.1)
]

unfoldable pub advance_member : FailureDetector → ℕ → MemberObservation → MemberObservation
advance_member detector tick member =
    if leb detector.dead_after_ticks (tick - member.last_tick)
    then with_health dead member
    else if leb detector.suspect_after_ticks (tick - member.last_tick)
    then with_health suspect member
    else member

unfoldable pub advance : ℕ → FailureDetector → FailureDetector
unfolding advance_member
advance tick detector =
    with_members detector (map (λ e. (e.0, advance_member detector tick e.1)) detector.members)

unfoldable pub health_of : NodeId → FailureDetector → Option MemberHealth
health_of node detector = elim (get node detector.members) [
  | none ↦ none
  | some member ↦ some member.summary.health
]

abbrev pub is_steady : MemberHealth → ℕ → Bool
is_steady healthy pressure = pressure == 0
is_steady overloaded pressure = true
is_steady draining pressure = true
is_steady suspect pressure = false
is_steady isolated_member pressure = false
is_steady dead pressure = false
is_steady incompatible_member pressure = false

unfoldable pub next_pulse_after : NodeId → FailureDetector → Option ℕ
next_pulse_after node detector = elim (get node detector.members) [
  | none ↦ none
  | some member ↦ some (
      if is_steady member.summary.health member.summary.pressure_bucket
      then detector.stable_interval_ticks
      else detector.active_interval_ticks)
]
