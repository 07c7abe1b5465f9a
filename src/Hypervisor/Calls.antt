-- ===== src/Hypervisor/Calls.antt =====
-- What the manager of machines asks of the operating system, of qemu and of libvirt, as the list of the
-- calls it makes: resource_managers/hypervisor/vms/libvirt_wrapper.py and `DHCPManager` of
-- dhcp_handlers.py. What a call answers is a parameter.
pub mod Quiet
pub mod Steps
use habertest_backend.Base.{
  ℕ, Bool, String, Option, List, [], ◌∷◌, if◌then◌else◌, string_eq, ◌==◌, length, none, some,
}
use habertest_backend.Base.Counts.{contains}
use habertest_backend.Base.Exec.{Result, ok, err, Exec, ◌>>=◌, ◌>>◌, pure, raise}
use habertest_backend.Hypervisor.Vm.{Vm, NetIface}

-- The calls. One that makes an image names the file beside the command; `mkisofs` is given the mounts
-- that the user data of the machine lists; a call of libvirt is the operation with its arguments.
pub data Call : Type 0 where
  make_image : String → List String → Call
  image_info : List String → Call
  remove_file : String → Call
  mkisofs : String → List (List String) → Call
  provision : String → Option String → Option String → Call
  libvirt : String → List String → Call
  request_lease : String → String → Option String → Call
  release_lease : String → String → Call

-- What can go wrong: a call fails, a base image is not there, a machine has too many disks, a disk is to
-- be mounted without a file system, or a network has a mode without a handler.
pub data MachineError : Type 0 where
  failed : String → MachineError
  image_missing : String → MachineError
  too_many_disks bad_mount : MachineError
  unknown_mode : String → MachineError

-- What the operating system answers, where a number counts the calls made before, and the functions
-- `abspath` and `join` of `os.path`.
pub record Os : Type 0 where
  pub answer : ℕ → Call → Result String String
  pub exists_file : ℕ → String → Bool
  pub time : ℕ → String
  pub uuid4 : ℕ → String
  pub abspath : String → String
  pub join : String → String → String

-- The calls so far, the last one first, and the machine object, which the steps change.
pub record Session : Type 0 where
  pub calls : List Call
  pub vm : Vm

abbrev pub Step : Type 0 → Type 0
Step A = Exec MachineError Session A

abbrev makes : Call → Option String
makes (make_image path args) = some path
makes (image_info args) = none
makes (remove_file path) = none
makes (mkisofs path entries) = none
makes (provision path fs serial) = none
makes (libvirt operation args) = none
makes (request_lease mode mac ip) = none
makes (release_lease mode mac) = none

-- The images that were made, by the calls that did not fail.
abbrev pub made_by : Option String → Result String String → List String → List String
made_by (some path) (ok out) paths = path ∷ paths
made_by (some path) (err e) paths = paths
made_by none r paths = paths

module _ (os : Os) where
  abbrev pub made : List Call → List String
  made [] = []
  made (c ∷ calls) = made_by (makes c) (os.answer (length calls) c) (made calls)

abbrev answered : Result String String → Result MachineError String
answered (ok a) = ok a
answered (err e) = err (failed e)

-- `try: ... except: ...` where the handler only logs
abbrev pub no_exception : {A : Type 0} → Step A → Step (Unit {0})
no_exception m s = (ok tt, (m s).1)

module _ (os : Os) where
  abbrev pub perform : Call → Step String
  perform c s = (answered (os.answer (length s.calls) c), record s { calls = c ∷ s.calls })

  close_after : {A : Type 0} → String → Result MachineError A → Step A
  close_after uri r = perform (libvirt "close" (uri ∷ [])) >>= λ _ s. (r, s)

  -- `_libvirt_connection`: a connection is opened, and closed again whatever happens.
  unfoldable pub with_connection : {A : Type 0} → String → Step A → Step A
  unfolding close_after
  with_connection uri body =
      perform (libvirt "open" (uri ∷ [])) >>= λ _ s. let (r, t) = body s in close_after uri r t

  -- `define_vm`
  unfoldable pub define_vm : String → String → Step String
  define_vm uri xml = with_connection uri (perform (libvirt "defineXML" (xml ∷ [])))

  unfoldable pub start_vm : String → String → Step String
  start_vm uri name =
      with_connection uri
        (perform (libvirt "lookupByName" (name ∷ [])) >> perform (libvirt "create" (name ∷ [])))

  unfoldable pub poweroff_vm : String → String → Step String
  poweroff_vm uri name =
      with_connection uri
        (perform (libvirt "lookupByName" (name ∷ [])) >> perform (libvirt "destroy" (name ∷ [])))

  is_active : String → Step Bool
  is_active name = perform (libvirt "isActive" (name ∷ [])) >>= λ text. pure (text == "1")

  destroy_if : String → Bool → Step String
  destroy_if name active = if active then perform (libvirt "destroy" (name ∷ [])) else pure ""

  undefine : String → Bool → Step String
  unfolding destroy_if
  undefine name active = destroy_if name active >> perform (libvirt "undefine" (name ∷ []))

  remove_domain : String → Step String
  unfolding is_active undefine
  remove_domain name = is_active name >>= undefine name

  kill_found : String → Result MachineError String → Step String
  unfolding remove_domain
  kill_found name (ok found) = remove_domain name
  kill_found name (err e) = pure ""

  -- A name that libvirt does not know is no error.
  look_up_and_kill : String → Step String
  unfolding kill_found
  look_up_and_kill name s =
      let (found, t) = perform (libvirt "lookupByName" (name ∷ [])) s in kill_found name found t

  -- `kill_by_name`
  unfoldable pub kill_by_name : String → String → Step String
  unfolding with_connection look_up_and_kill
  kill_by_name uri name = with_connection uri (look_up_and_kill name)

  -- `DHCPManager`, over the modes that have a handler
  unfoldable pub allocate_ip : List String → NetIface → Step String
  allocate_ip handlers net =
      if contains net.mode handlers
      then perform (request_lease net.mode net.macaddress net.ip)
      else raise (unknown_mode net.mode)

  unfoldable pub deallocate_ip : List String → NetIface → Step String
  deallocate_ip handlers net =
      if contains net.mode handlers
      then perform (release_lease net.mode net.macaddress)
      else raise (unknown_mode net.mode)

  pub reallocate_ip : List String → NetIface → Step String
  unfolding deallocate_ip allocate_ip
  reallocate_ip handlers net = no_exception (deallocate_ip handlers net) >> allocate_ip handlers net
