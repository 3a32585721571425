-- ===== src/ControlPlane/Retrieval/Effects.antt =====
-- Reading the state sends no requests.
use k0smotron.Prelude.{String, List, ◌≡◌, refl}
use k0smotron.Kube.{Upstream, VersionLib, Api, ApiError, Error, Result, ok, err, Machine}
use k0smotron.ControlPlane.Scope.{World}
use k0smotron.ControlPlane.Action.Frame.{Frame}
use k0smotron.ControlPlane.Machines.Effects.{OfCalls}
use k0smotron.ControlPlane.Template.{Codec}
use k0smotron.ControlPlane.Retrieval.{Found, finish, from_listed, retrieve_control_plane_state}

module _ (u : Upstream) (v : VersionLib) (c : Codec) (k : Api) where
  finish-calls :
      (w : World) (t : String → Machine) (names : List String) (r : Result Error Found)
      → (finish u v c k w t names r).1.calls ≡ w.calls
  unfolding finish
  finish-calls w t names (ok f) = refl
  finish-calls w t names (err e) = refl

  listed-calls :
      (w : World) (r : Result ApiError (List Machine)) → (from_listed u v c k r w).1.calls ≡ w.calls
  unfolding from_listed
  listed-calls w (ok os) = finish-calls w _ _ _
  listed-calls w (err a) = refl

  pub retrieve-calls : (w : World) → (retrieve_control_plane_state u v c k w).1.calls ≡ w.calls
  unfolding retrieve_control_plane_state
  retrieve-calls w = listed-calls w (k.list_machines w.calls)

  pub retrieve-Frame :
      {B : Type 0} {g : World → B} → OfCalls g → Frame g (retrieve_control_plane_state u v c k)
  retrieve-Frame b = record {
    at = λ w. b.same w (retrieve_control_plane_state u v c k w).1 (retrieve-calls w);
  }
