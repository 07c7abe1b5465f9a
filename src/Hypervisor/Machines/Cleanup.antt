-- ===== src/Hypervisor/Machines/Cleanup.antt =====
-- When a machine could not be made, its images are to be removed, whatever the order of its tasks.
use habertest_backend.Hypervisor.Machines.{
  allocate_vm, destroy_vm, delete_storage, Manager, clean_up, Task, vol_names, define_and_start,
  settle, start, finish, gather, networks, name_disks,
}
use habertest_backend.Base.{string_eq, ◌≡◌, ap, ◌∙◌, List, [], ◌∷◌, length}
use habertest_backend.Hypervisor.Calls.{
  Session, Os, made, remove_file, MachineError, define_vm, start_vm,
}
use habertest_backend.Hypervisor.Machines.Removed.{delete_storage-IsQuiet}
use habertest_backend.Base.Exec.{ok, Result, err, pure}
use habertest_backend.Hypervisor.Machines.Made.{image_in, places}
use habertest_backend.Hypervisor.Calls.Quiet.{>>=-IsQuiet, IsQuiet, >>=-Kept, Kept, Kept-refl}
use habertest_backend.Hypervisor.Calls.Steps.{define_vm-IsQuiet, start_vm-IsQuiet}
use habertest_backend.Hypervisor.Vm.{Vm, Disk}
use habertest_backend.Hypervisor.Machines.Recorded.{Remembered, IsSchedule, gather-Remembered}
use habertest_backend.Hypervisor.Template.{generate_xml}
use habertest_backend.Hypervisor.Machines.Destroyed.{
  IsCleaned, CanKill, destroy_vm-IsQuiet, destroy_vm-Called, destroy_vm-IsReleased, Released-later,
}

module _ (os : Os) (manager : Manager) where
  clean_up-IsCleaned :
      (e : MachineError) (late : List Task) (s : Session)
      → CanKill os manager
      → Remembered os s
      → IsCleaned os manager (clean_up os manager e late s).2
  unfolding clean_up
  clean_up-IsCleaned e late s can remembered = (
    λ path isin.
        let (k, image) = remembered path (rw (← first.0, ← second.0) isin) in
        second.2 (remove_file path) (destroy_vm-Called os manager k path s can image),
    rw (second.1, first.1)
        (Released-later os manager s.vm.net_ifaces destroyed u second
          (destroy_vm-IsReleased os manager s can)),
  )
    where
      destroyed : Session
      destroyed = (destroy_vm os manager s).1

      u : Session
      u = (clean_up os manager e late s).2

      first : Kept os s destroyed
      first = destroy_vm-IsQuiet os manager s

      second : Kept os destroyed u
      second =
          >>=-Kept os (destroy_vm os manager) (λ done. delete_storage os manager) s
            (λ done. delete_storage-IsQuiet os manager)

  pub define_and_start-IsQuiet : IsQuiet os (define_and_start os manager)
  unfolding define_and_start start
  define_and_start-IsQuiet s =
      >>=-IsQuiet os (define_vm os manager.uri (generate_xml s.vm (manager.metadata s.vm)))
        (λ out. start os manager)
        (define_vm-IsQuiet os manager.uri (generate_xml s.vm (manager.metadata s.vm)))
        (λ out t.
          >>=-IsQuiet os (start_vm os manager.uri t.vm.name) (λ done. pure tt)
            (start_vm-IsQuiet os manager.uri t.vm.name) (λ done. Kept-refl os) t)
        s

  Remembered-Kept : (s t : Session) → Kept os s t → Remembered os s → Remembered os t
  Remembered-Kept s t kept remembered path isin =
      let (k, image) = remembered path (rw (← kept.0) isin) in (k, ap (image_in k) kept.1 ∙ image)

  -- What a failure comes to, given what comes before it.
  Fails : Result MachineError Vm × List Task × Session → Type 0
  Fails out = (e : MachineError) → out.0 ≡ err e → IsCleaned os manager out.2

  started :
      (late : List Task) (t : Session) (r : Result MachineError (Unit {0}))
      → CanKill os manager
      → Remembered os t
      → Fails (
          let out : Result MachineError Vm × List Task × Session = elim r [
            | ok done ↦ (ok t.vm, late, t)
            | err e ↦ clean_up os manager e late t
          ] in
          out)
  unfolding Fails
  started late t (ok done) can remembered e h = cc
  started late t (err cause) can remembered e h = clean_up-IsCleaned cause late t can remembered

  settle-Fails :
      (out : Result MachineError (Unit {0}) × List Task × Session)
      → CanKill os manager
      → Remembered os out.2
      → Fails (settle os manager out)
  unfolding settle finish
  settle-Fails (ok done, late, s) can remembered =
      started late (define_and_start os manager s).1 (define_and_start os manager s).0 can (
        Remembered-Kept s (define_and_start os manager s).1 (define_and_start-IsQuiet s) remembered)
  settle-Fails (err cause, late, s) can remembered =
      unfold Fails in λ e h. clean_up-IsCleaned cause late s can remembered

  named :
      (order : List Disk → List Task) (t : Session) (r : Result MachineError (Unit {0}))
      (disks : List Disk)
      → CanKill os manager
      → Remembered os t
      → Remembered os (gather os manager (order disks) t).2
      → Fails (
          let out : Result MachineError Vm × List Task × Session = elim r [
            | err e ↦ clean_up os manager e (networks ∷ []) t
            | ok done ↦ settle os manager (gather os manager (order disks) t)
          ] in
          out)
  named order t (ok done) disks can before after =
      settle-Fails (gather os manager (order disks) t) can after
  named order t (err cause) disks can before after =
      unfold Fails in λ e h. clean_up-IsCleaned cause (networks ∷ []) t can before

  -- When `allocate_vm` raises, it has called for the removal of each image that was made up to then, and
  -- for the release of the addresses of all interfaces whose mode has a handler, in whatever order the tasks
  -- ran. What comes of these calls is not stated: when one fails, that is only logged. No image was made
  -- before, the tasks fill different places of the machine, and libvirt can always be asked to kill it.
  pub allocate_vm_cleans :
      (order : List Disk → List Task) (s : Session) (e : MachineError)
      → CanKill os manager
      → ((disks : List Disk) → IsSchedule (length disks) (places (order disks)))
      → made os s.calls ≡ []
      → (allocate_vm os manager order s).0 ≡ err e
      → IsCleaned os manager (allocate_vm os manager order s).2
  unfolding allocate_vm Fails
  allocate_vm_cleans order s e can schedule fresh =
      named order t (name_disks os (length s.calls) vol_names s.vm.disks).0 disks can
        (λ path isin. cc (fresh, isin))
        (gather-Remembered os manager (order disks) t (schedule disks)
          (λ path isin. cc (fresh, isin)))
        e
    where
      disks : List Disk
      disks = (name_disks os (length s.calls) vol_names s.vm.disks).1

      t : Session
      t = record s { vm = record s.vm { disks = disks } }
