-- ===== src/Hypervisor/Machines/Harmless.antt =====
-- The tasks that make no image: the image with the first configuration, and the networks. With the others,
-- every task makes one image at most, at its place.
use habertest_backend.Hypervisor.CloudInit.{generate_iso}
use habertest_backend.Base.{ℕ, zero, suc, String, some, List, [], ◌∷◌, ◌≡◌, refl, ◌∙◌, inl, ◌+◌}
use habertest_backend.Hypervisor.Vm.{NetIface}
use habertest_backend.Hypervisor.Calls.{allocate_ip, Os, Session, MachineError, Step}
use habertest_backend.Hypervisor.Machines.{
  Task, boot_disk, cloud_init, networks, data_disk, Manager, set_ip, set_iso,
  generate_cloud_init_iso, init_networks, do_task,
}
use habertest_backend.Base.Exec.{Result, ok, err, ◌>>=◌, modify, ◌>>◌}
use habertest_backend.Hypervisor.Calls.Quiet.{IsQuiet}
use habertest_backend.Hypervisor.CloudInit.Quiet.{generate_iso-IsQuiet}
use habertest_backend.Hypervisor.Calls.Steps.{allocate_ip-IsQuiet}
use habertest_backend.Hypervisor.Machines.Made.{
  image_in, place_of, MakesNone, Fills, same_vm-MakesNone, boot_disk-Fills, data_disk-Fills,
}

module _ (os : Os) where
  abbrev IsHarmless : {A : Type 0} → Step A → Type 0
  IsHarmless m = (s : Session) → MakesNone os s (m s).1

  MakesNone-trans : (s t u : Session) → MakesNone os s t → MakesNone os t u → MakesNone os s u
  MakesNone-trans s t u h k = (k.0 ∙ h.0, k.1 ∙ h.1, λ place. k.2 place ∙ h.2 place)

  then_harmless :
      {A B : Type 0} (f : A → Step B)
      → ((a : A) → IsHarmless (f a))
      → (s t : Session) (r : Result MachineError A) → MakesNone os s t
      → MakesNone os s
          (let out : Result MachineError B × Session = elim r [
            | ok a ↦ f a t
            | err e ↦ (err e, t)
          ] in
            out).1
  then_harmless f hf s t (ok a) h = MakesNone-trans s t (f a t).1 h (hf a t)
  then_harmless f hf s t (err e) h = h

  quiet_then :
      {A B : Type 0} (m : Step A) (f : A → Step B)
      → IsQuiet os m
      → ((a : A) → IsHarmless (f a))
      → IsHarmless (m >>= f)
  quiet_then m f hm hf s =
      then_harmless f hf s (m s).1 (m s).0 (same_vm-MakesNone os s (m s).1 (hm s).0 (hm s).1)

  module _ (manager : Manager) where
    set_iso-IsHarmless : (path : String) → IsHarmless (set_iso os manager path)
    unfolding set_iso
    set_iso-IsHarmless path s = (refl, refl, same)
      where
        same : (k : ℕ) → image_in k (record s.vm { cloud_init_iso = some path }) ≡ image_in k s.vm
        same zero = refl
        same (suc k) = refl

    cloud_init-IsHarmless : IsHarmless (generate_cloud_init_iso os manager)
    unfolding generate_cloud_init_iso
    cloud_init-IsHarmless s =
        quiet_then (generate_iso os manager.iso_base_path s.vm) (set_iso os manager)
          (generate_iso-IsQuiet os manager.iso_base_path s.vm) set_iso-IsHarmless s

    set_net-IsHarmless :
        (nets : List NetIface) (s : Session)
        → MakesNone os s (record s { vm = record s.vm { net_ifaces = nets } })
    set_net-IsHarmless nets s = (refl, refl, same)
      where
        same : (k : ℕ) → image_in k (record s.vm { net_ifaces = nets }) ≡ image_in k s.vm
        same zero = refl
        same (suc k) = refl

    networks-IsHarmless :
        (i : ℕ) (nets : List NetIface) → IsHarmless (init_networks os manager i nets)
    unfolding init_networks
    networks-IsHarmless i [] s = same_vm-MakesNone os s s refl refl
    networks-IsHarmless i (net ∷ nets) s =
        let rest = networks-IsHarmless (i + 1) nets in
        quiet_then (allocate_ip os manager.handlers net)
          (λ ip.
            modify (λ (t : Session). record t {
              vm = record t.vm { net_ifaces = set_ip i ip t.vm.net_ifaces };
            })
            >> init_networks os manager (i + 1) nets)
          (allocate_ip-IsQuiet os manager.handlers net)
          (λ ip t.
            MakesNone-trans t (with_ip ip t)
              (init_networks os manager (i + 1) nets (with_ip ip t)).1
              (set_net-IsHarmless (set_ip i ip t.vm.net_ifaces) t) (rest (with_ip ip t)))
          s
      where
        with_ip : String → Session → Session
        with_ip ip t = record t { vm = record t.vm { net_ifaces = set_ip i ip t.vm.net_ifaces } }

    -- Whatever task it is, it makes one image at most, at its own place.
    pub do_task-Fills :
        (task : Task) (s : Session) → Fills os (place_of task) s (do_task os manager task s)
    unfolding do_task
    do_task-Fills boot_disk s = boot_disk-Fills os manager s
    do_task-Fills cloud_init s = inl (cloud_init-IsHarmless s, tt)
    do_task-Fills networks s = inl (networks-IsHarmless 0 s.vm.net_ifaces s, tt)
    do_task-Fills (data_disk i disk) s = data_disk-Fills os manager i disk s
