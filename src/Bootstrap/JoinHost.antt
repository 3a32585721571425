-- ===== src/Bootstrap/JoinHost.antt =====
-- Where a control plane machine joins: detectJoinHost, findFirstControllerIP and
-- getFirstRunningMachineExcludingMachineToBootstrap in
-- internal/controller/bootstrap/controlplane_bootstrap_controller.go.
use Prim.Native.String.{◌++◌ as push_str}
use k0smotron.Prelude.{
  String, List, [], ◌∷◌, Bool, true, false, not, ◌&&◌, ◌==◌, eq_iff, Option, none, some,
  if◌then◌else◌, keep, ◌≡◌, ◌≢◌, arith, inl, inr,
}
use k0smotron.Kube.{
  Error, plain, wrap, fault, Result, ok, err, Result-cases, and_then, map_err, Json, Fields, field,
  no_fields, text, object,
}

-- clusterv1.MachineAddress
pub record Address : Type 0 where
  pub kind : String
  pub address : String

-- What is read of a Machine of the control plane.
pub record RunningMachine : Type 0 where
  pub name : String
  pub phase : String
  pub addresses : List Address

-- What netip.ParseAddr reads of an address: Is4, Is6, String, and String without a zone.
pub record ParsedAddr : Type 0 where
  pub is4 : Bool
  pub is6 : Bool
  pub as_text : String
  pub without_zone : String

-- extAddr, intIPv4Addr and intAddr
pub record Candidates : Type 0 where
  pub external : String
  pub internal_ipv4 : String
  pub internal : String

not_initialized : List String → Error
not_initialized reason =
    wrap reason (plain ("initial controller machine has not completed its initialization" ∷ []))

-- The value under a key of a map.
value_under : String → Fields → Option Json
value_under key no_fields = none
value_under key (field k v rest) =
    let later = value_under key rest in if k == key then some v else later

is_text : String → Option Json → Bool
is_text s (some (text t)) = t == s
is_text s _ = false

module _ (parse_addr : String → Option ParsedAddr) where
  -- An internal address, and whether the loop breaks at it.
  with_internal : Option ParsedAddr → Candidates → Candidates × Bool
  with_internal none c = (c, false)
  with_internal (some ip) c =
      if ip.is4
      then (record c { internal_ipv4 = ip.as_text }, true)
      else if ip.is6
      then (record c { internal = push_str "[" (push_str ip.without_zone "]") }, false)
      else (c, false)

  or_break : Candidates × Bool → (Candidates → Candidates) → Candidates
  or_break (c, true) more = c
  or_break (c, false) more = more c

  -- The loop over the addresses of the machine.
  scan_addresses : List Address → Candidates → Candidates
  unfolding with_internal or_break
  scan_addresses [] c = c
  scan_addresses (a ∷ as') c =
      if a.kind == "ExternalIP"
      then record c { external = a.address }
      else if a.kind == "InternalIP"
      then or_break (with_internal (parse_addr a.address) c) (scan_addresses as')
      else scan_addresses as' c

  -- An address that is not a text panics.
  text_or_panic : Option Json → Result Error String
  text_or_panic (some (text s)) = ok s
  text_or_panic _ = err fault

  or_break_ok : Candidates × Bool → (Candidates → Result Error Candidates) → Result Error Candidates
  or_break_ok (c, true) more = ok c
  or_break_ok (c, false) more = more c

  -- The loop over the addresses of the infrastructure machine; what is not a map has no type.
  scan_entries : List Json → Candidates → Result Error Candidates
  unfolding with_internal or_break_ok text_or_panic value_under is_text
  scan_entries [] c = ok c
  scan_entries (object fs ∷ js) c =
      let address = text_or_panic (value_under "address" fs) in
      if is_text "ExternalIP" (value_under "type" fs)
      then and_then address (λ s. ok (record c { external = s }))
      else if is_text "InternalIP" (value_under "type" fs)
      then and_then address (λ s. or_break_ok (with_internal (parse_addr s) c) (scan_entries js))
      else scan_entries js c
  scan_entries (_ ∷ js) c = scan_entries js c

  -- By the slice at status.addresses of the infrastructure machine, which was read.
  entries_of : Candidates → Result Error (Option (List Json)) → Result Error Candidates
  unfolding scan_entries
  entries_of c (err e) = err e
  entries_of c (ok none) = ok c
  entries_of c (ok (some js)) = scan_entries js c

  candidates_of :
      RunningMachine → Result Error (Result Error (Option (List Json))) → Result Error Candidates
  unfolding scan_addresses entries_of
  candidates_of m infra =
      let c =
        scan_addresses m.addresses (record { external = ""; internal_ipv4 = ""; internal = "" }) in
      if c.external == "" && (c.internal == "" && c.internal_ipv4 == "")
      then and_then (map_err (wrap ("error getting machine implementation" ∷ [])) infra)
          (entries_of c)
      else ok c

  preferred : String → Candidates → Result Error String
  unfolding not_initialized
  preferred name c =
      if not (c.external == "")
      then ok c.external
      else if not (c.internal_ipv4 == "")
      then ok c.internal_ipv4
      else if not (c.internal == "")
      then ok c.internal
      else err (not_initialized ("no address found for machine" ∷ name ∷ []))

  -- `oldest` is Oldest of the machines; `infra` is how the infrastructure machine is read.
  module _ (oldest : List RunningMachine → Option RunningMachine)
      (infra : RunningMachine → Result Error (Result Error (Option (List Json)))) where
    pub get_first_running_machine_excluding_machine_to_bootstrap :
        String → List RunningMachine → Option RunningMachine
    get_first_running_machine_excluding_machine_to_bootstrap config_name machines =
        oldest (keep (λ m. not (m.name == config_name) && not (m.phase == "Pending")) machines)

    ip_of : Option RunningMachine → Result Error String
    unfolding candidates_of preferred not_initialized
    ip_of none = err (not_initialized ("no running controller machine to join" ∷ []))
    ip_of (some m) = and_then (candidates_of m (infra m)) (preferred m.name)

    pub find_first_controller_ip : String → List RunningMachine → Result Error String
    unfolding ip_of get_first_running_machine_excluding_machine_to_bootstrap
    find_first_controller_ip config_name machines =
        ip_of (get_first_running_machine_excluding_machine_to_bootstrap config_name machines)

    -- `has_ca` is whether the certificate of the cluster is read; `k0s` what the k0s configuration, if
    -- there is one, has as its k0s API port, in decimal, if it is positive; `answers` whether a host
    -- serves the join API.
    api_port : Option (Result Error (Option String)) → Result Error String
    api_port none = err fault
    api_port (some (err e)) = err (wrap ("error retrieving k0sAPIPort" ∷ []) e)
    api_port (some (ok none)) = ok "9443"
    api_port (some (ok (some port))) = ok port

    url_of : String → String → String
    url_of host port = push_str "https://" (push_str host (push_str ":" port))

    pub detect_join_host :
        Bool
        → Option (Result Error (Option String))
        → (String → Bool)
        → String
        → String
        → List RunningMachine
        → Result Error String
    unfolding find_first_controller_ip api_port url_of
    detect_join_host false k0s answers endpoint_host config_name machines =
        err (plain ("failed to load cluster CA certificate for join host detection" ∷ []))
    detect_join_host true k0s answers endpoint_host config_name machines =
        and_then (api_port k0s) λ port.
          if answers (url_of endpoint_host port)
          then ok (url_of endpoint_host port)
          else and_then
              (map_err (wrap ("failed to get first controller IP" ∷ []))
                (find_first_controller_ip config_name machines))
              (λ ip. ok (url_of ip port))

    preferred-filled :
        (name : String) (c : Candidates) (a : String) → preferred name c ≡ ok a → a ≢ ""
    unfolding preferred not_initialized
    preferred-filled name c a h blank =
        ground
          (arith, h, blank, eq_iff c.external "", eq_iff c.internal_ipv4 "", eq_iff c.internal "")

    ip_of-filled : (o : Option RunningMachine) (a : String) → ip_of o ≡ ok a → a ≢ ""
    unfolding ip_of
    ip_of-filled none a h = cc
    ip_of-filled (some m) a h = elim (Result-cases (candidates_of m (infra m))) [
      | inl (c, e) ↦ preferred-filled m.name c a (rw e at h)
      | inr (x, e) ↦ (let no = rw e at h in cc)
    ]

    -- A machine never joins at a blank address.
    pub find_first_controller_ip-filled :
        (config_name : String) (machines : List RunningMachine) (a : String)
        → find_first_controller_ip config_name machines ≡ ok a
        → a ≢ ""
    unfolding find_first_controller_ip
    find_first_controller_ip-filled config_name machines a h =
        ip_of-filled (get_first_running_machine_excluding_machine_to_bootstrap config_name machines)
          a h
