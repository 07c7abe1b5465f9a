-- ===== src/Hypervisor/Machines/Leftovers.antt =====
-- `delete_all_dangling_vms` (resource_managers/hypervisor/vms/allocator.py), which destroys what a
-- hypervisor left behind when it was stopped, through its `VMManager`.
use habertest_backend.Base.{ℕ, String, some, List, [], ◌∷◌, ◌≡◌, refl, ◌∙◌, ap, inl, inr, ◌⊎◌}
use habertest_backend.Base.Exec.{Result, ok, err, ◌>>◌, >>=-ok}
use habertest_backend.Hypervisor.Vm.{NetIface}
use habertest_backend.Hypervisor.Calls.{
  Os, Step, Session, Call, MachineError, remove_file, kill_by_name,
}
use habertest_backend.Hypervisor.Calls.Quiet.{Called, Called-after}
use habertest_backend.Hypervisor.Allocator.Restore.{VmData}
use habertest_backend.Hypervisor.Machines.{
  Manager, destroy_vm, deinit_nets, deinit_networks, delete_storage,
}
use habertest_backend.Hypervisor.Machines.Made.{image_in}
use habertest_backend.Hypervisor.Machines.Removed.{delete_storage-ok}
use habertest_backend.Hypervisor.Machines.Destroyed.{CanKill, destroy_vm-IsQuiet, destroy_vm-Called}

-- `vm_data.pop('pci', None)` finds no such key, since the data has the devices under 'pcis', so the machine
-- is made of all that was stored; its devices stay texts, `d.pcis`, which its destruction does not read.
pub with_machine : VmData → Session → Session
with_machine d s = record s { vm = d.machine }

module _ (os : Os) (manager : Manager) where
  -- `delete_all_dangling_vms`, for what `load_vms_data` returned
  pub delete_all_dangling_vms : List VmData → Step (Unit {0})
  unfolding with_machine
  delete_all_dangling_vms [] s = (ok tt, s)
  delete_all_dangling_vms (d ∷ ds) s =
      (destroy_vm os manager >> delete_all_dangling_vms ds) (with_machine d s)

  Called-result :
      (ds : List VmData) (c : Call) (r : Result MachineError (Unit {0})) (t : Session)
      → Called c t.calls
      → ((u : Session) → Called c u.calls → Called c (delete_all_dangling_vms ds u).1.calls)
      → Called c
          (let out : Result MachineError (Unit {0}) × Session = elim r [
            | ok done ↦ delete_all_dangling_vms ds t
            | err e ↦ (err e, t)
          ] in
            out).1.calls
  Called-result ds c (ok done) t h later = later t h
  Called-result ds c (err e) t h later = h

  -- What was called stays called, also when the destruction of a machine fails.
  Called-kept :
      (ds : List VmData) (c : Call) (s : Session)
      → Called c s.calls
      → Called c (delete_all_dangling_vms ds s).1.calls
  unfolding delete_all_dangling_vms with_machine
  Called-kept [] c s h = h
  Called-kept (d ∷ ds) c s h =
      Called-result ds c (destroy_vm os manager (with_machine d s)).0
        (destroy_vm os manager (with_machine d s)).1
        ((destroy_vm-IsQuiet os manager (with_machine d s)).2 c h) (λ u k. Called-kept ds c u k)

  deinit_nets-ok : (nets : List NetIface) (s : Session) → (deinit_nets os manager nets s).0 ≡ ok tt
  unfolding deinit_nets
  deinit_nets-ok [] s = refl
  deinit_nets-ok (net ∷ nets) s = deinit_nets-ok nets _

  destroy_vm-ok : (s : Session) → CanKill os manager → (destroy_vm os manager s).0 ≡ ok tt
  unfolding destroy_vm deinit_networks
  destroy_vm-ok s can =
      ap (λ (out : Result MachineError (Unit {0}) × Session). out.0)
        (>>=-ok (kill_by_name os manager.uri s.vm.name)
            (λ out. delete_storage os manager >> deinit_networks os manager) s
            (ap (λ (r : Result MachineError String). (r, killed)) (can s).1)
          ∙ >>=-ok (delete_storage os manager) (λ done. deinit_networks os manager) killed
              (ap
                (λ (r : Result MachineError (Unit {0})). (r, (delete_storage os manager killed).1))
                (delete_storage-ok os manager killed)))
      ∙ deinit_nets-ok (delete_storage os manager killed).1.vm.net_ifaces
          (delete_storage os manager killed).1
    where
      killed : Session
      killed = (kill_by_name os manager.uri s.vm.name s).1

  abbrev pub Listed : VmData → List VmData → Type 0
  Listed d [] = ⊥
  Listed d (other ∷ ds) = (other ≡ d) ⊎ Listed d ds

  -- When libvirt can always be asked to kill a machine, the hypervisor asks for the removal of every
  -- image of every machine that it finds, whatever else fails.
  pub delete_all_dangling_vms-Called :
      (ds : List VmData) (d : VmData) (k : ℕ) (path : String) (s : Session)
      → CanKill os manager
      → Listed d ds
      → image_in k d.machine ≡ some path
      → Called (remove_file path) (delete_all_dangling_vms ds s).1.calls
  unfolding delete_all_dangling_vms with_machine
  delete_all_dangling_vms-Called [] d k path s can listed h = absurd listed
  delete_all_dangling_vms-Called (other ∷ ds) d k path s can listed h =
      Called-after os (remove_file path) (destroy_vm os manager)
        (λ done. delete_all_dangling_vms ds) (with_machine other s) tt
        (destroy_vm-ok (with_machine other s) can)
        (elim listed [
          | inl here ↦
              Called-kept ds (remove_file path) (destroy_vm os manager (with_machine other s)).1 (
                destroy_vm-Called os manager k path (with_machine other s) can
                  (ap (λ (x : VmData). image_in k x.machine) here ∙ h))
          | inr there ↦
              delete_all_dangling_vms-Called ds d k path
                (destroy_vm os manager (with_machine other s)).1 can there h
        ])
