-- ===== src/Hypervisor/Info.antt =====
-- What the vm manager asks libvirt about machines and networks: the queries of
-- resource_managers/hypervisor/vms/libvirt_wrapper.py, and `info`, `vm_status` and `load_vms_data` of
-- vm_manager.py. The texts that libvirt answers are read by parameters.
use Prim.Native.String.{◌++◌}
use habertest_backend.Base.{
  string_eq, ℕ, Bool, String, Option, none, some, List, [], ◌∷◌, if◌then◌else◌, ◌==◌, map,
}
use habertest_backend.Base.Dict.{Dict, insert}
use habertest_backend.Base.Exec.{Result, ok, err, ◌>>=◌, ◌>>◌, pure, raise}
use habertest_backend.Hypervisor.Vm.{Vm, Disk}
use habertest_backend.Hypervisor.Calls.{
  Os, Step, MachineError, failed, perform, libvirt, with_connection,
}

-- The states of a domain, as libvirt numbers them
pub data DomainState : Type 0 where
  no_state running blocked paused shutdown shutoff crashed suspended : DomainState

-- `libvirt_state_to_state`
unfoldable pub status_of : DomainState → String
status_of no_state = "unknown"
status_of running = "on"
status_of blocked = "fail"
status_of paused = "on"
status_of shutdown = "off"
status_of shutoff = "off"
status_of crashed = "fail"
status_of suspended = "on"

-- How the answers are read: the number of a state, the interfaces with their addresses, the names of the
-- domains, whether a network is active, and the metadata of a machine.
pub record Reader (Meta : Type 0) : Type 0 where
  pub state_of : String → Option DomainState
  pub leases_of : String → List (String × List String)
  pub domains_of : String → List String
  pub metadata_of : String → Option Meta

-- One disk in the answer of `info`
pub record DiskInfo : Type 0 where
  pub type : String
  pub size : ℕ
  pub serial : Option String

pub record VmInfo : Type 0 where
  pub name : String
  pub disks : List DiskInfo
  pub status : String
  pub dhcp : Dict String (List String)

disk_info : Disk → DiskInfo
disk_info disk = record { type = disk.type; size = disk.size; serial = disk.serial }

-- `result[net_info['hwaddr']] = ...`
lease_dict : Dict String (List String) → List (String × List String) → Dict String (List String)
lease_dict result [] = result
lease_dict result ((hwaddr, addrs) ∷ nets) = lease_dict (insert hwaddr addrs result) nets

-- `_result_or_default`
pub result_or_default : {A : Type 0} → Step A → A → Step A
result_or_default step default s =
    let (r, t) = step s in (elim r [ ok a ↦ ok a | err e ↦ ok default ], t)

module _ {Meta : Type 0} (os : Os) (reader : Reader Meta) (uri : String) where
  named_state : Option DomainState → Step String
  unfolding status_of
  named_state none = raise (failed "KeyError")
  named_state (some state) = pure (status_of state)

  look_up : String → Step String
  look_up name = perform os (libvirt "lookupByName" (name ∷ []))

  -- `status`
  unfoldable pub status : String → Step String
  unfolding named_state look_up with_connection
  status name = with_connection os uri (
      look_up name
      >> (perform os (libvirt "state" (name ∷ [])) >>= λ text. named_state (reader.state_of text)))

  -- `dhcp_lease_info`
  pub dhcp_lease_info : String → Step (Dict String (List String))
  unfolding look_up lease_dict
  dhcp_lease_info name =
      with_connection os uri (look_up name >> perform os (libvirt "interfaceAddresses" (name ∷ [])))
      >>= λ nets. pure (lease_dict [] (reader.leases_of nets))

  -- The metadata of one domain, before those of the domains behind it; a domain without is skipped.
  read_metadata : Result MachineError String → Step (List Meta) → Step (List Meta)
  read_metadata (err e) rest = rest
  read_metadata (ok text) rest = elim (reader.metadata_of text) [
    | none ↦ raise (failed "ExpatError")
    | some meta ↦ rest >>= λ metas. pure (meta ∷ metas)
  ]

  load_domains : List String → Step (List Meta)
  unfolding read_metadata
  load_domains [] s = (ok [], s)
  load_domains (name ∷ names) s =
      let (r, t) = perform os (libvirt "metadata" (name ∷ [])) s in
      read_metadata r (load_domains names) t

  -- `load_lab_vms`
  pub load_lab_vms : Step (List Meta)
  unfolding load_domains
  load_lab_vms =
      with_connection os uri
        (perform os (libvirt "listAllDomains" []) >>= λ text. load_domains (reader.domains_of text))

  -- `vm_status`
  pub vm_status : Vm → Step String
  unfolding result_or_default status
  vm_status vm = result_or_default (status vm.name) "Fail"

  -- `info`; the two queries, which run at the same time, have no call in common.
  pub info : Vm → Step VmInfo
  unfolding result_or_default status dhcp_lease_info disk_info
  info vm = do
    dhcp ← result_or_default (dhcp_lease_info vm.name) []
    status ← result_or_default (status vm.name) "Fail"
    pure (record { name = vm.name; disks = map disk_info vm.disks; status = status; dhcp = dhcp })

  -- `load_vms_data`
  pub load_vms_data : Step (List Meta)
  unfolding result_or_default load_lab_vms
  load_vms_data = result_or_default load_lab_vms []

module _ (os : Os) (uri : String) where
  look_up_network : String → Step String
  look_up_network network = perform os (libvirt "networkLookupByName" (network ∷ []))

  -- The entry is added, or changed if libvirt refuses a new one.
  add_or_modify : String → Step String
  add_or_modify xml s =
      let (r, t) = perform os (libvirt "add_last" (xml ∷ [])) s in
      elim r [ ok out ↦ (ok out, t) | err e ↦ perform os (libvirt "modify" (xml ∷ [])) t ]

  -- `add_dhcp_entry`
  pub add_dhcp_entry : String → String → String → Step String
  unfolding look_up_network add_or_modify
  add_dhcp_entry network ip mac = with_connection os uri (
      look_up_network network
      >> add_or_modify ("<host mac='" ++ (mac ++ ("' ip='" ++ (ip ++ "'/>")))))

  -- `remove_dhcp_entry`
  pub remove_dhcp_entry : String → String → Step String
  unfolding look_up_network
  remove_dhcp_entry network mac = with_connection os uri (
      look_up_network network
      >> perform os (libvirt "delete" (("<host mac='" ++ (mac ++ "'/>")) ∷ [])))

  network_active : String → Step Bool
  network_active network =
      perform os (libvirt "isActive" (network ∷ [])) >>= λ text. pure (text == "1")

  -- `activate_network`
  pub activate_network : String → Step String
  unfolding look_up_network network_active
  activate_network network = with_connection os uri (
      look_up_network network
      >> (network_active network >>= λ active.
          if active then pure "" else perform os (libvirt "create" (network ∷ []))))

  -- `is_network_active`
  pub is_network_active : String → Step Bool
  unfolding look_up_network network_active
  is_network_active network =
      with_connection os uri (look_up_network network >> network_active network)
