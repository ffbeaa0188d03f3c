-- ===== src/Control/DetectorLaws.antt =====
-- The failure detector of ha_control.rs over any calls: its bounds, and what silence leads to.
use mutsuki_distributed_host.Base.{
  ℕ, ◌+◌, ◌-◌, ◌≤◌, ◌≡◌, ◌≢◌, refl, ap, ◌∙◌, inl, inr, true, not, ◌&&◌, ◌||◌, List, [], ◌∷◌, some,
  leb, ◌==◌, length, map, length-map, arith, Option-cases, if-either, All, if_pos, if_neg,
}
use mutsuki_distributed_host.Base.Outcome.{Result, ok}
use mutsuki_distributed_host.Base.Map.{
  Map, get, insert, contains, text_key, get-insert, get-insert_self, length-insert,
}
use mutsuki_distributed_host.Contracts.{NodeId}
use mutsuki_distributed_host.Control.Types.{MemberPulseSummary, dead}
use mutsuki_distributed_host.Control.Detector.{
  MemberObservation, FailureDetector, with_members, register_full, pulse_member, pulse,
  advance_member, advance, health_of,
}

-- A caller of the detector.
pub data DetectorCall : Type 0 where
  register_call pulse_call : MemberPulseSummary → ℕ → DetectorCall
  advance_call : ℕ → DetectorCall

unfoldable pub watch : DetectorCall → FailureDetector → FailureDetector
unfolding register_full pulse advance
watch (register_call summary tick) d = (register_full summary tick d).0
watch (pulse_call summary tick) d = (pulse summary tick d).0
watch (advance_call tick) d = advance tick d

unfoldable pub watch_all : List DetectorCall → FailureDetector → FailureDetector
watch_all [] d = d
watch_all (call ∷ calls) d = watch_all calls (watch call d)

-- No call that another node makes, and no tick before `tick`.
abbrev pub IsSilent : NodeId → DetectorCall → Type 0
IsSilent node (register_call summary tick) = summary.node_id ≢ node
IsSilent node (pulse_call summary tick) = summary.node_id ≢ node
IsSilent node (advance_call tick) = Unit

-- The detector holds no more members than it may.
abbrev pub IsBounded : FailureDetector → Type 0
IsBounded d = length d.members ≤ d.max_members

get-map :
    (f : MemberObservation → MemberObservation) (node : NodeId) (m : Map NodeId MemberObservation)
    (member : MemberObservation)
    → get node m ≡ some member
    → get node (map (λ e. (e.0, f e.1)) m) ≡ some (f member)
unfolding get
get-map f node [] member h = absurd cc
get-map f node ((k, v) ∷ m) member h = elim (text_key.discrete k node) [
  | yes e ↦ let same : v ≡ member = ground arith in rw (if_pos _ e) (ap (λ u. some (f u)) same)
  | no e ↦ rw (if_neg _ e) (get-map f node m member (ground arith))
]

abbrev aged : FailureDetector → ℕ → NodeId × MemberObservation → NodeId × MemberObservation
aged d tick e = (e.0, advance_member d tick e.1)

register_full-IsBounded :
    (summary : MemberPulseSummary) (tick : ℕ) (d : FailureDetector)
    → IsBounded d
    → IsBounded (register_full summary tick d).0
unfolding register_full
register_full-IsBounded summary tick d h = ground (
  arith,
  length-insert summary.node_id (record { summary = summary; last_tick = tick }) d.members,
)

pulse-IsBounded :
    (summary : MemberPulseSummary) (tick : ℕ) (d : FailureDetector)
    → IsBounded d
    → IsBounded (pulse summary tick d).0
unfolding pulse
pulse-IsBounded summary tick d h = elim (Option-cases (get summary.node_id d.members)) [
  | inl e ↦ rw (e, pulse) h
  | inr (member, e) ↦
      let size : length (insert summary.node_id (pulse_member summary tick member).0 d.members)
          ≡ length d.members =
        ground
          (arith, length-insert summary.node_id (pulse_member summary tick member).0 d.members) in
      rw (e, pulse) (omega (arith, size))
]

watch-IsBounded :
    (call : DetectorCall) (d : FailureDetector) → IsBounded d → IsBounded (watch call d)
unfolding watch advance
watch-IsBounded (register_call summary tick) d h = register_full-IsBounded summary tick d h
watch-IsBounded (pulse_call summary tick) d h = pulse-IsBounded summary tick d h
watch-IsBounded (advance_call tick) d h =
    let size : length (map (aged d tick) d.members) ≡ length d.members =
      length-map (aged d tick) d.members in
    omega (arith, size)

-- A detector never holds more members than its bound, whatever is called.
pub watch_all-IsBounded :
    (calls : List DetectorCall) (d : FailureDetector) → IsBounded d → IsBounded (watch_all calls d)
unfolding watch_all
watch_all-IsBounded [] d h = h
watch_all-IsBounded (call ∷ calls) d h =
    watch_all-IsBounded calls (watch call d) (watch-IsBounded call d h)

-- A member that was last heard at a tick, in a detector with these limits.
abbrev pub WasHeard : NodeId → ℕ → FailureDetector → FailureDetector → Type 0
WasHeard node tick limits d =
    (member : MemberObservation) × (get node d.members ≡ some member)
    × (member.last_tick ≡ tick)
    × (d.dead_after_ticks ≡ limits.dead_after_ticks)

insert-WasHeard :
    (node other : NodeId) (tick : ℕ) (limits d : FailureDetector) (member : MemberObservation)
    → other ≢ node
    → WasHeard node tick limits d
    → WasHeard node tick limits (with_members d (insert other member d.members))
insert-WasHeard node other tick limits d member apart (seen, found, heard, same) =
    (seen, ground (arith, get-insert other node member d.members), heard, same)

aged_member-last_tick :
    (d : FailureDetector) (tick : ℕ) (member : MemberObservation)
    → (advance_member d tick member).last_tick ≡ member.last_tick
unfolding advance_member
aged_member-last_tick d tick member = ground arith

watch-WasHeard :
    (call : DetectorCall) (node : NodeId) (tick : ℕ) (limits d : FailureDetector)
    → IsSilent node call
    → WasHeard node tick limits d
    → WasHeard node tick limits (watch call d)
unfolding watch register_full pulse advance
watch-WasHeard (register_call summary now) node tick limits d silent heard =
    let stored =
      insert-WasHeard node summary.node_id tick limits d
        (record { summary = summary; last_tick = now }) silent heard in
    if-either (λ (x : FailureDetector × Result (Unit {0})). WasHeard node tick limits x.0)
      (summary.capability_version == 0 || summary.resource_version == 0) heard
      (if-either (λ (x : FailureDetector × Result (Unit {0})). WasHeard node tick limits x.0)
        (not (contains summary.node_id d.members) && leb d.max_members (length d.members)) heard
        stored)
watch-WasHeard (pulse_call summary now) node tick limits d silent heard =
    elim (Option-cases (get summary.node_id d.members)) [
      | inl e ↦ rw (e, watch, pulse) heard
      | inr (member, e) ↦
          rw (e, watch, pulse)
            (insert-WasHeard node summary.node_id tick limits d (pulse_member summary now member).0
              silent heard)
    ]
watch-WasHeard (advance_call now) node tick limits d silent (seen, found, heard, same) = (
  advance_member d now seen,
  get-map (advance_member d now) node d.members seen found,
  aged_member-last_tick d now seen ∙ heard,
  same,
)

watch_all-WasHeard :
    (calls : List DetectorCall) (node : NodeId) (tick : ℕ) (limits d : FailureDetector)
    → All (IsSilent node) calls
    → WasHeard node tick limits d
    → WasHeard node tick limits (watch_all calls d)
unfolding watch_all
watch_all-WasHeard [] node tick limits d silent heard = heard
watch_all-WasHeard (call ∷ calls) node tick limits d silent heard =
    watch_all-WasHeard calls node tick limits (watch call d) silent.1
      (watch-WasHeard call node tick limits d silent.0 heard)

register_full-WasHeard :
    (summary : MemberPulseSummary) (tick : ℕ) (d : FailureDetector)
    → (register_full summary tick d).1 ≡ ok tt
    → WasHeard summary.node_id tick d (register_full summary tick d).0
unfolding register_full
register_full-WasHeard summary tick d h =
    let entry : MemberObservation = record { summary = summary; last_tick = tick } in
    let stored : WasHeard summary.node_id tick d
        (with_members d (insert summary.node_id entry d.members)) =
      (entry, get-insert_self summary.node_id entry d.members, refl, refl) in
    if-either
      (λ (x : FailureDetector × Result (Unit {0})).
        x.1 ≡ ok tt → WasHeard summary.node_id tick d x.0)
      (summary.capability_version == 0 || summary.resource_version == 0) (λ e. absurd cc)
      (if-either
        (λ (x : FailureDetector × Result (Unit {0})).
          x.1 ≡ ok tt → WasHeard summary.node_id tick d x.0)
        (not (contains summary.node_id d.members) && leb d.max_members (length d.members))
        (λ e. absurd cc) (λ e. stored))
      h

advance-dead :
    (node : NodeId) (heard now : ℕ) (limits d : FailureDetector)
    → WasHeard node heard limits d
    → heard + limits.dead_after_ticks ≤ now
    → health_of node (advance now d) ≡ some dead
unfolding advance advance_member health_of
advance-dead node heard now limits d (seen, found, last, same) late =
    let due : leb d.dead_after_ticks (now - seen.last_tick) ≡ true = ground arith in
    rw (get-map (advance_member d now) node d.members seen found, health_of, due) refl

-- A member that was registered, and of which nothing is heard since, is dead after the tick that is
-- `dead_after_ticks` later, or any later one, whatever the other members do in between.
pub silent-dead :
    (summary : MemberPulseSummary) (tick now : ℕ) (d : FailureDetector) (calls : List DetectorCall)
    → (register_full summary tick d).1 ≡ ok tt
    → All (IsSilent summary.node_id) calls
    → tick + d.dead_after_ticks ≤ now
    → health_of summary.node_id (advance now (watch_all calls (register_full summary tick d).0))
      ≡ some dead
silent-dead summary tick now d calls registered silent late =
    let first = (register_full summary tick d).0 in
    advance-dead summary.node_id tick now d (watch_all calls first)
      (watch_all-WasHeard calls summary.node_id tick d first silent
        (register_full-WasHeard summary tick d registered))
      late
