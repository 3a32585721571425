-- ===== src/ControlPlane/Retrieval/Partition.antt =====
-- The struct that is read splits the active machines in two.
use k0smotron.Prelude.{String, List, Bool, true, false, not, ◌≡◌, has, keep, any, if◌then◌else◌}
use k0smotron.Kube.{Upstream, VersionLib, Api, Error, Result, ok, err, and_then, Call, Machine, Kcp}
use k0smotron.ControlPlane.Scope.{World}
use k0smotron.ControlPlane.Action.{map_error}
use k0smotron.ControlPlane.Template.{Codec}
use k0smotron.ControlPlane.Scaling.Decisions.{IsPartitioned}
use k0smotron.ControlPlane.Retrieval.{
  MachineState, Found, is_up_to_date, is_only_version_outdated, add_state, calculate_machine_state,
}

-- A test on the state of a machine, if it can be computed.
abbrev pub holds : (MachineState → Bool) → Result Error MachineState → Bool
holds p (ok s) = p s
holds p (err e) = false

abbrev step :
    String → Result Error MachineState → Result Error Found → (Error → Error) → Result Error Found
step m r rest g = and_then (map_error g r) (λ s. and_then rest (λ f. ok (add_state m s f)))

module _ (u : Upstream) (v : VersionLib) (c : Codec) (k : Api) where
  -- What the test says of a machine of the struct.
  abbrev pub says : (MachineState → Bool) → Kcp → List Call → (String → Machine) → String → Bool
  says p kcp calls t m = holds p (calculate_machine_state u v c k kcp calls (t m))

  -- What the loop finds, in the order of the machines.
  AsTold : Kcp → List Call → (String → Machine) → List String → Found → Type 0
  AsTold kcp calls t ms f =
      (f.up_to_date ≡ keep (says is_up_to_date kcp calls t) ms)
      × (f.only_version_outdated ≡ any (says is_only_version_outdated kcp calls t) ms)

  -- The active machines are those that the server lists for the control plane and that are not
  -- being deleted. The up to date ones among them are those whose version, infrastructure and
  -- configuration are as asked for, and the others are the rest.
  abbrev pub IsRetrieved : World → World → Type 0
  IsRetrieved w w' =
      let ask = says is_up_to_date w.scope.kcp w.calls w'.machines in
      let s = w'.scope in
      IsPartitioned s
      × ((m : String)
          → has m s.up_to_date_machines ≡ (if ask m then has m s.active_machines else false))
      × ((m : String)
          → has m s.not_up_to_date_machines
            ≡ (if not (ask m) then has m s.active_machines else false))
      × ((m : String) → has m s.active_machines ≡ true → (w'.machines m).deleting ≡ false)
      × (s.has_machines_with_only_version_outdated
          ≡ any (says is_only_version_outdated w.scope.kcp w.calls w'.machines) s.active_machines)
