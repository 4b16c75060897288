-- ===== src/Plan/Phases.antt =====
-- What the table of default priorities (plan.go) says about the order of a plan.
use materia.Base.{ℕ, ◌<◌, ◌≤◌, ◌≡◌, some, arith}
use materia.Actions.{
  ActionType, install, update, cleanup, start, stop, restart, reload, ensure, enable, disable,
}
use materia.Components.Kind.{ResourceType, component, host}
use materia.Plan.Priority.{
  component_row, directory_row, plain_row, file_row, quadlet_row, network_row, volume_row,
  script_row, service_row, host_row, priority_of,
}

-- the phases of a rollout
pub data Phase : Type 0 where
  stopping writing reloading ensuring running cleaning other : Phase

-- the cleanup of a component is its script
abbrev cleanup_phase : ResourceType → Phase
cleanup_phase component = other
cleanup_phase k = cleaning

abbrev reload_phase : ResourceType → Phase
reload_phase host = reloading
reload_phase k = running

abbrev pub phase : ResourceType → ActionType → Phase
phase k stop = stopping
phase k install = writing
phase k update = writing
phase k ensure = ensuring
phase k start = running
phase k restart = running
phase k enable = running
phase k disable = running
phase k reload = reload_phase k
phase k cleanup = cleanup_phase k
phase k t = other

abbrev Within : Phase → ℕ → Type 0
Within stopping n = n ≡ 1
Within writing n = (2 ≤ n) × (n ≤ 3)
Within reloading n = n ≡ 4
Within ensuring n = n ≡ 5
Within running n = n ≡ 6
Within cleaning n = n ≡ 7
Within other n = Unit

-- one phase is before another
abbrev rank : Phase → ℕ
rank stopping = 1
rank writing = 2
rank reloading = 3
rank ensuring = 4
rank running = 5
rank cleaning = 6
rank other = 0

abbrev pub Before : Phase → Phase → Type 0
Before other q = ⊥
Before p q = rank p < rank q

Within-priority_of :
    (k : ResourceType) (t : ActionType) (n : ℕ) → priority_of k t ≡ some n → Within (phase k t) n
unfolding component_row directory_row plain_row file_row quadlet_row network_row volume_row
    script_row service_row host_row priority_of
Within-priority_of k t n h = ground arith

Within-Before : (p q : Phase) (m n : ℕ) → Before p q → Within p m → Within q n → m < n
Within-Before p q m n b h k = ground arith

-- Whatever the resources, an action of an earlier phase has a smaller default priority than one of
-- a later phase, if the table has both: services stop before resources are installed or updated,
-- these before the host reloads, this before podman objects are ensured, these before services
-- start, restart, reload, are enabled or disabled, and these before anything but a component is
-- cleaned up.
pub priority_of-Before :
    (k l : ResourceType) (t u : ActionType) (m n : ℕ)
    → Before (phase k t) (phase l u)
    → priority_of k t ≡ some m
    → priority_of l u ≡ some n
    → m < n
priority_of-Before k l t u m n b h i =
    Within-Before (phase k t) (phase l u) m n b (Within-priority_of k t m h)
      (Within-priority_of l u n i)
