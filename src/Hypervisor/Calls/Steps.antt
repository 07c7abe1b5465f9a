-- ===== src/Hypervisor/Calls/Steps.antt =====
-- The steps of libvirt and of the DHCP handlers make no image and leave the machine object as it is.
use habertest_backend.Base.{
  Bool, true, false, String, List, [], ◌∷◌, refl, string_eq, ◌==◌, if◌then◌else◌,
}
use habertest_backend.Base.Counts.{contains}
use habertest_backend.Base.Exec.{Result, ok, err, ◌>>◌, pure, raise}
use habertest_backend.Hypervisor.Vm.{NetIface}
use habertest_backend.Hypervisor.Calls.{
  Os, Step, MachineError, perform, libvirt, close_after, with_connection, define_vm, start_vm,
  is_active, remove_domain, kill_found, kill_by_name, allocate_ip, deallocate_ip, unknown_mode,
  request_lease, release_lease, destroy_if, undefine, look_up_and_kill,
}
use habertest_backend.Hypervisor.Calls.Quiet.{
  Kept-refl, Kept-trans, IsQuiet, perform-IsQuiet, >>=-IsQuiet,
}

module _ (os : Os) where
  libvirt-IsQuiet :
      (operation : String) (args : List String) → IsQuiet os (perform os (libvirt operation args))
  libvirt-IsQuiet operation args = perform-IsQuiet os (libvirt operation args) refl

  with_connection-IsQuiet :
      {A : Type 0} (uri : String) (body : Step A)
      → IsQuiet os body
      → IsQuiet os (with_connection os uri body)
  unfolding with_connection close_after
  with_connection-IsQuiet uri body h =
      >>=-IsQuiet os (perform os (libvirt "open" (uri ∷ [])))
        (λ _ s. close_after os uri (body s).0 (body s).1) (libvirt-IsQuiet "open" (uri ∷ []))
        (λ _ s. Kept-trans os s (body s).1 (close_after os uri (body s).0 (body s).1).1 (h s) (
          >>=-IsQuiet os (perform os (libvirt "close" (uri ∷ []))) (λ _ t. ((body s).0, t))
            (libvirt-IsQuiet "close" (uri ∷ [])) (λ _ t. Kept-refl os t) (body s).1))

  two_calls-IsQuiet :
      (first second : String) (a b : List String)
      → IsQuiet os (perform os (libvirt first a) >> perform os (libvirt second b))
  two_calls-IsQuiet first second a b =
      >>=-IsQuiet os (perform os (libvirt first a)) (λ _. perform os (libvirt second b))
        (libvirt-IsQuiet first a) (λ _. libvirt-IsQuiet second b)

  pub define_vm-IsQuiet : (uri xml : String) → IsQuiet os (define_vm os uri xml)
  unfolding define_vm
  define_vm-IsQuiet uri xml = with_connection-IsQuiet uri _ (libvirt-IsQuiet "defineXML" (xml ∷ []))

  pub start_vm-IsQuiet : (uri name : String) → IsQuiet os (start_vm os uri name)
  unfolding start_vm
  start_vm-IsQuiet uri name =
      with_connection-IsQuiet uri _
        (two_calls-IsQuiet "lookupByName" "create" (name ∷ []) (name ∷ []))

  destroy_if-IsQuiet : (name : String) (active : Bool) → IsQuiet os (destroy_if os name active)
  unfolding destroy_if
  destroy_if-IsQuiet name true = libvirt-IsQuiet "destroy" (name ∷ [])
  destroy_if-IsQuiet name false = Kept-refl os

  undefine-IsQuiet : (name : String) (active : Bool) → IsQuiet os (undefine os name active)
  unfolding undefine
  undefine-IsQuiet name active =
      >>=-IsQuiet os (destroy_if os name active) (λ _. perform os (libvirt "undefine" (name ∷ [])))
        (destroy_if-IsQuiet name active) (λ _. libvirt-IsQuiet "undefine" (name ∷ []))

  remove_domain-IsQuiet : (name : String) → IsQuiet os (remove_domain os name)
  unfolding remove_domain is_active
  remove_domain-IsQuiet name =
      >>=-IsQuiet os (is_active os name) (undefine os name)
        (>>=-IsQuiet os (perform os (libvirt "isActive" (name ∷ []))) (λ text. pure (text == "1"))
          (libvirt-IsQuiet "isActive" (name ∷ [])) (λ _. Kept-refl os))
        (undefine-IsQuiet name)

  kill_found-IsQuiet :
      (name : String) (r : Result MachineError String) → IsQuiet os (kill_found os name r)
  unfolding kill_found
  kill_found-IsQuiet name (ok found) = remove_domain-IsQuiet name
  kill_found-IsQuiet name (err e) = Kept-refl os

  look_up_and_kill-IsQuiet : (name : String) → IsQuiet os (look_up_and_kill os name)
  unfolding look_up_and_kill
  look_up_and_kill-IsQuiet name s =
      Kept-trans os s (looked_up s).1 (kill_found os name (looked_up s).0 (looked_up s).1).1
        (libvirt-IsQuiet "lookupByName" (name ∷ []) s)
        (kill_found-IsQuiet name (looked_up s).0 (looked_up s).1)
    where
      looked_up : Step String
      looked_up = perform os (libvirt "lookupByName" (name ∷ []))

  pub kill_by_name-IsQuiet : (uri name : String) → IsQuiet os (kill_by_name os uri name)
  unfolding kill_by_name
  kill_by_name-IsQuiet uri name =
      with_connection-IsQuiet uri (look_up_and_kill os name) (look_up_and_kill-IsQuiet name)

  if_known :
      (known : Bool) (net : NetIface) (call : Step String)
      → IsQuiet os call
      → IsQuiet os (if known then call else raise (unknown_mode net.mode))
  if_known true net call h = h
  if_known false net call h = Kept-refl os

  pub allocate_ip-IsQuiet :
      (handlers : List String) (net : NetIface) → IsQuiet os (allocate_ip os handlers net)
  unfolding allocate_ip
  allocate_ip-IsQuiet handlers net =
      if_known (contains net.mode handlers) net _
        (perform-IsQuiet os (request_lease net.mode net.macaddress net.ip) refl)

  pub deallocate_ip-IsQuiet :
      (handlers : List String) (net : NetIface) → IsQuiet os (deallocate_ip os handlers net)
  unfolding deallocate_ip
  deallocate_ip-IsQuiet handlers net =
      if_known (contains net.mode handlers) net _
        (perform-IsQuiet os (release_lease net.mode net.macaddress) refl)
