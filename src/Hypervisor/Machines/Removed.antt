-- ===== src/Hypervisor/Machines/Removed.antt =====
-- What the destruction of a machine calls: the removal of its images and the release of its addresses.
use habertest_backend.Hypervisor.CloudInit.{delete_iso}
use habertest_backend.Base.{
  string_eq, ℕ, zero, suc, String, Option, none, some, List, [], ◌∷◌, ◌≡◌, refl, inl, All, true,
  arith,
}
use habertest_backend.Hypervisor.Vm.{Vm, Disk, NetIface}
use habertest_backend.Base.Counts.{contains}
use habertest_backend.Base.Exec.{ok}
use habertest_backend.Hypervisor.CloudInit.Quiet.{delete_iso-IsQuiet}
use habertest_backend.Hypervisor.Calls.{
  Session, no_exception, deallocate_ip, Os, Call, remove_file, release_lease,
}
use habertest_backend.Hypervisor.Machines.Made.{image_at, image_in}
use habertest_backend.Hypervisor.Calls.Quiet.{
  Called, Kept-refl, Kept-trans, perform-IsQuiet, >>=-IsQuiet, IsQuiet, Called-before, Called-after,
}
use habertest_backend.Hypervisor.Calls.Steps.{deallocate_ip-IsQuiet}
use habertest_backend.Hypervisor.Images.{delete_qcow}
use habertest_backend.Hypervisor.Machines.{
  Manager, delete_if_there, delete_disks, disks_then_iso, delete_storage, deinit_nets,
  deinit_networks,
}

module _ (os : Os) (manager : Manager) where
  delete_if_there-IsQuiet : (image : Option String) → IsQuiet os (delete_if_there os manager image)
  unfolding delete_if_there delete_qcow
  delete_if_there-IsQuiet none = Kept-refl os
  delete_if_there-IsQuiet (some image) = perform-IsQuiet os (remove_file image) refl

  delete_if_there-ok :
      (image : Option String) (s : Session) → (delete_if_there os manager image s).0 ≡ ok tt
  unfolding delete_if_there
  delete_if_there-ok none s = refl
  delete_if_there-ok (some image) s = refl

  delete_if_there-Called :
      (image : Option String) (path : String) (s : Session)
      → image ≡ some path
      → Called (remove_file path) (delete_if_there os manager image s).1.calls
  unfolding delete_if_there delete_qcow
  delete_if_there-Called none path s h = cc
  delete_if_there-Called (some image) path s h = inl (cc)

  delete_disks-IsQuiet : (disks : List Disk) → IsQuiet os (delete_disks os manager disks)
  unfolding delete_disks
  delete_disks-IsQuiet [] = Kept-refl os
  delete_disks-IsQuiet (disk ∷ disks) =
      >>=-IsQuiet os (delete_if_there os manager disk.image) (λ done. delete_disks os manager disks)
        (delete_if_there-IsQuiet disk.image) (λ done. delete_disks-IsQuiet disks)

  delete_disks-ok : (disks : List Disk) (s : Session) → (delete_disks os manager disks s).0 ≡ ok tt
  unfolding delete_disks
  delete_disks-ok [] s = refl
  delete_disks-ok (disk ∷ disks) s = ground (
    arith,
    delete_if_there-ok disk.image s,
    delete_disks-ok disks (delete_if_there os manager disk.image s).1,
  )

  delete_disks-Called :
      (i : ℕ) (disks : List Disk) (path : String) (s : Session)
      → image_at i disks ≡ some path
      → Called (remove_file path) (delete_disks os manager disks s).1.calls
  unfolding delete_disks
  delete_disks-Called i [] path s h = cc
  delete_disks-Called zero (disk ∷ disks) path s h =
      Called-before os (remove_file path) (delete_if_there os manager disk.image)
        (λ done. delete_disks os manager disks) s (λ done. delete_disks-IsQuiet disks)
        (delete_if_there-Called disk.image path s h)
  delete_disks-Called (suc i) (disk ∷ disks) path s h =
      Called-after os (remove_file path) (delete_if_there os manager disk.image)
        (λ done. delete_disks os manager disks) s tt (delete_if_there-ok disk.image s)
        (delete_disks-Called i disks path (delete_if_there os manager disk.image s).1 h)

  disks_then_iso-IsQuiet : (vm : Vm) → IsQuiet os (disks_then_iso os manager vm)
  unfolding disks_then_iso
  disks_then_iso-IsQuiet vm =
      >>=-IsQuiet os (delete_disks os manager vm.disks)
        (λ done. no_exception (delete_iso os manager.iso_base_path vm))
        (delete_disks-IsQuiet vm.disks) (λ done. delete_iso-IsQuiet os manager.iso_base_path vm)

  pub delete_storage-IsQuiet : IsQuiet os (delete_storage os manager)
  unfolding delete_storage
  delete_storage-IsQuiet s =
      >>=-IsQuiet os (delete_if_there os manager s.vm.image)
        (λ done. disks_then_iso os manager s.vm) (delete_if_there-IsQuiet s.vm.image)
        (λ done. disks_then_iso-IsQuiet s.vm) s

  pub delete_storage-ok : (s : Session) → (delete_storage os manager s).0 ≡ ok tt
  unfolding delete_storage disks_then_iso
  delete_storage-ok s = ground (
    arith,
    delete_if_there-ok s.vm.image s,
    delete_disks-ok s.vm.disks (delete_if_there os manager s.vm.image s).1,
  )

  -- The removal of the image at each place of the machine is called for.
  pub delete_storage-Called :
      (k : ℕ) (path : String) (s : Session)
      → image_in k s.vm ≡ some path
      → Called (remove_file path) (delete_storage os manager s).1.calls
  unfolding delete_storage disks_then_iso
  delete_storage-Called zero path s h =
      Called-before os (remove_file path) (delete_if_there os manager s.vm.image)
        (λ done. disks_then_iso os manager s.vm) s (λ done. disks_then_iso-IsQuiet s.vm)
        (delete_if_there-Called s.vm.image path s h)
  delete_storage-Called (suc i) path s h =
      Called-after os (remove_file path) (delete_if_there os manager s.vm.image)
        (λ done. disks_then_iso os manager s.vm) s tt (delete_if_there-ok s.vm.image s)
        (Called-before os (remove_file path) (delete_disks os manager s.vm.disks)
          (λ done. no_exception (delete_iso os manager.iso_base_path s.vm)) t
          (λ done. delete_iso-IsQuiet os manager.iso_base_path s.vm)
          (delete_disks-Called i s.vm.disks path t h))
    where
      t : Session
      t = (delete_if_there os manager s.vm.image s).1

  -- The release of the address of an interface was called for, if its mode has a handler.
  abbrev pub IsReleased : List Call → NetIface → Type 0
  IsReleased calls net =
      contains net.mode manager.handlers ≡ true
      → Called (release_lease net.mode net.macaddress) calls

  deallocated :
      (net : NetIface) (s : Session)
      → IsReleased (deallocate_ip os manager.handlers net s).1.calls net
  unfolding deallocate_ip
  deallocated net s h = rw h (inl refl)

  deinit_nets-IsQuiet : (nets : List NetIface) → IsQuiet os (deinit_nets os manager nets)
  unfolding deinit_nets
  deinit_nets-IsQuiet [] s = Kept-refl os s
  deinit_nets-IsQuiet (net ∷ nets) s =
      Kept-trans os s (deallocate_ip os manager.handlers net s).1
        (deinit_nets os manager nets (deallocate_ip os manager.handlers net s).1).1
        (deallocate_ip-IsQuiet os manager.handlers net s)
        (deinit_nets-IsQuiet nets (deallocate_ip os manager.handlers net s).1)

  pub deinit_nets-IsReleased :
      (nets : List NetIface) (s : Session)
      → All (IsReleased (deinit_nets os manager nets s).1.calls) nets
  unfolding deinit_nets
  deinit_nets-IsReleased [] s = tt
  deinit_nets-IsReleased (net ∷ nets) s = (
    λ known.
        (deinit_nets-IsQuiet nets (deallocate_ip os manager.handlers net s).1).2
          (release_lease net.mode net.macaddress) (deallocated net s known),
    deinit_nets-IsReleased nets (deallocate_ip os manager.handlers net s).1,
  )

  pub deinit_networks-IsQuiet : IsQuiet os (deinit_networks os manager)
  unfolding deinit_networks
  deinit_networks-IsQuiet s = deinit_nets-IsQuiet s.vm.net_ifaces s
