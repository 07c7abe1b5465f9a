-- ===== src/Hypervisor/Machines/Destroyed.antt =====
-- The destruction of a machine calls for the removal of its images and the release of its addresses.
use habertest_backend.Hypervisor.Machines.{destroy_vm, deinit_networks, delete_storage, Manager}
use habertest_backend.Base.{string_eq, ℕ, true, String, some, ◌≡◌, ap, ◌∙◌, All, sym, List, [], ◌∷◌}
use habertest_backend.Base.Counts.{contains}
use habertest_backend.Hypervisor.Calls.{
  kill_by_name, Session, Os, made, Step, Call, remove_file, MachineError, release_lease,
}
use habertest_backend.Hypervisor.Machines.Removed.{
  IsReleased, delete_storage-IsQuiet, delete_storage-Called, deinit_networks-IsQuiet,
  delete_storage-ok, deinit_nets-IsReleased,
}
use habertest_backend.Base.Exec.{ok, ◌>>◌, Result, >>=-ok}
use habertest_backend.Hypervisor.Machines.Made.{image_in}
use habertest_backend.Hypervisor.Calls.Quiet.{
  Called, >>=-IsQuiet, IsQuiet, Called-after, Called-before, Kept,
}
use habertest_backend.Hypervisor.Calls.Steps.{kill_by_name-IsQuiet}
use habertest_backend.Hypervisor.Vm.{NetIface, Vm}
use mathlib.Core.Path.{subst}

module _ (os : Os) (manager : Manager) where
  -- The removal of each image that was made was called for, and so was the release of the addresses of all
  -- interfaces whose mode has a handler, whatever the calls answered.
  abbrev pub IsCleaned : Session → Type 0
  IsCleaned s =
      ((path : String) → contains path (made os s.calls) ≡ true → Called (remove_file path) s.calls)
      × All (IsReleased os manager s.calls) s.vm.net_ifaces

  -- libvirt can always be asked to kill a machine.
  abbrev pub CanKill : Type 0
  CanKill =
      (s : Session) → (text : String) × ((kill_by_name os manager.uri s.vm.name s).0 ≡ ok text)

  storage_and_nets : Step (Unit {0})
  storage_and_nets = delete_storage os manager >> deinit_networks os manager

  storage_and_nets-IsQuiet : IsQuiet os storage_and_nets
  unfolding storage_and_nets
  storage_and_nets-IsQuiet =
      >>=-IsQuiet os (delete_storage os manager) (λ done. deinit_networks os manager)
        (delete_storage-IsQuiet os manager) (λ done. deinit_networks-IsQuiet os manager)

  pub destroy_vm-IsQuiet : IsQuiet os (destroy_vm os manager)
  unfolding destroy_vm storage_and_nets
  destroy_vm-IsQuiet s =
      >>=-IsQuiet os (kill_by_name os manager.uri s.vm.name) (λ out. storage_and_nets)
        (kill_by_name-IsQuiet os manager.uri s.vm.name) (λ out. storage_and_nets-IsQuiet) s

  after_kill :
      (c : Call) (s : Session)
      → CanKill
      → Called c (storage_and_nets (kill_by_name os manager.uri s.vm.name s).1).1.calls
      → Called c (destroy_vm os manager s).1.calls
  unfolding destroy_vm storage_and_nets
  after_kill c s can h =
      Called-after os c (kill_by_name os manager.uri s.vm.name) (λ out. storage_and_nets) s
        (can s).0 (can s).1 h

  pub destroy_vm-Called :
      (k : ℕ) (path : String) (s : Session)
      → CanKill
      → image_in k s.vm ≡ some path
      → Called (remove_file path) (destroy_vm os manager s).1.calls
  unfolding storage_and_nets
  destroy_vm-Called k path s can h = after_kill (remove_file path) s can (
      Called-before os (remove_file path) (delete_storage os manager)
        (λ done. deinit_networks os manager) killed (λ done. deinit_networks-IsQuiet os manager)
        (delete_storage-Called os manager k path killed
          (ap (image_in k) (kill_by_name-IsQuiet os manager.uri s.vm.name s).1 ∙ h)))
    where
      killed : Session
      killed = (kill_by_name os manager.uri s.vm.name s).1

  pub Released-later :
      (nets : List NetIface) (s t : Session)
      → Kept os s t
      → All (IsReleased os manager s.calls) nets
      → All (IsReleased os manager t.calls) nets
  Released-later [] s t kept h = tt
  Released-later (net ∷ nets) s t kept h = (
    λ known. kept.2 (release_lease net.mode net.macaddress) (h.0 known),
    Released-later nets s t kept h.1,
  )

  pub destroy_vm-IsReleased :
      (s : Session)
      → CanKill
      → All (IsReleased os manager (destroy_vm os manager s).1.calls) s.vm.net_ifaces
  unfolding destroy_vm deinit_networks storage_and_nets
  destroy_vm-IsReleased s can =
      subst (λ (u : Session). All (IsReleased os manager u.calls) s.vm.net_ifaces) (sym destroyed)
        (subst
          (λ (vm : Vm).
            All (IsReleased os manager (deinit_networks os manager deleted).1.calls) vm.net_ifaces)
          same_vm (deinit_nets-IsReleased os manager deleted.vm.net_ifaces deleted))
    where
      killed : Session
      killed = (kill_by_name os manager.uri s.vm.name s).1

      deleted : Session
      deleted = (delete_storage os manager killed).1

      same_vm : deleted.vm ≡ s.vm
      same_vm =
          (delete_storage-IsQuiet os manager killed).1
          ∙ (kill_by_name-IsQuiet os manager.uri s.vm.name s).1

      destroyed : (destroy_vm os manager s).1 ≡ (deinit_networks os manager deleted).1
      destroyed =
          ap (λ (out : Result MachineError (Unit {0}) × Session). out.1)
            (>>=-ok (kill_by_name os manager.uri s.vm.name) (λ out. storage_and_nets) s
                (ap (λ (r : Result MachineError String). (r, killed)) (can s).1)
              ∙ >>=-ok (delete_storage os manager) (λ done. deinit_networks os manager) killed
                  (ap (λ (r : Result MachineError (Unit {0})). (r, deleted))
                    (delete_storage-ok os manager killed)))
