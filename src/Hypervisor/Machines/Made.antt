-- ===== src/Hypervisor/Machines/Made.antt =====
-- Each task makes one image at most, and the machine object remembers it at the place of the task: the
-- place of the boot drive is 0, that of the i-th disk is i + 1.
use habertest_backend.Hypervisor.Images.{create_qcow, clone_qcow}
use habertest_backend.Base.{
  ℕ, zero, suc, ◌≤◌, ◌<◌, String, Option, none, some, List, [], ◌∷◌, ◌++◌, ◌≡◌, ◌≢◌, refl, ◌⊎◌,
  length, arith, ap, ◌∙◌, inl, inr,
}
use habertest_backend.Hypervisor.Vm.{Vm, Disk}
use habertest_backend.Hypervisor.Calls.{Os, Session, made, MachineError, Step, perform, provision}
use habertest_backend.Hypervisor.Machines.{
  Task, boot_disk, cloud_init, networks, data_disk, set_image, Manager, create_vm_boot_disk,
  provision_disk, create_disk, set_boot_image, or_empty,
}
use habertest_backend.Base.Exec.{Result, ok, err, ◌>>=◌, pure}
use habertest_backend.Hypervisor.Images.Written.{Writes, create_qcow-Writes, clone_qcow-Writes}
use habertest_backend.Hypervisor.Calls.Quiet.{Kept-refl, perform-IsQuiet, >>=-IsQuiet, Kept}

abbrev pub image_at : ℕ → List Disk → Option String
image_at i [] = none
image_at zero (disk ∷ disks) = disk.image
image_at (suc i) (disk ∷ disks) = image_at i disks

abbrev pub image_in : ℕ → Vm → Option String
image_in zero vm = vm.image
image_in (suc i) vm = image_at i vm.disks

abbrev pub place_of : Task → List ℕ
place_of boot_disk = 0 ∷ []
place_of cloud_init = []
place_of networks = []
place_of (data_disk i disk) = suc i ∷ []

abbrev pub places : List Task → List ℕ
places [] = []
places (task ∷ tasks) = place_of task ++ places tasks

length-set_image :
    (i : ℕ) (path : String) (disks : List Disk) → length (set_image i path disks) ≡ length disks
unfolding set_image
length-set_image i path [] = refl
length-set_image zero path (disk ∷ disks) = refl
length-set_image (suc i) path (disk ∷ disks) = ap suc (length-set_image i path disks)

image_at-set_image_self :
    (i : ℕ) (path : String) (disks : List Disk)
    → i < length disks
    → image_at i (set_image i path disks) ≡ some path
unfolding set_image
image_at-set_image_self i path [] h = absurd (omega arith)
image_at-set_image_self zero path (disk ∷ disks) h = refl
image_at-set_image_self (suc i) path (disk ∷ disks) h =
    image_at-set_image_self i path disks (omega arith)

image_at-set_image_ne :
    (i j : ℕ) (path : String) (disks : List Disk)
    → j ≢ i
    → image_at j (set_image i path disks) ≡ image_at j disks
unfolding set_image
image_at-set_image_ne i j path [] h = refl
image_at-set_image_ne zero zero path (disk ∷ disks) h = absurd (h refl)
image_at-set_image_ne zero (suc j) path (disk ∷ disks) h = refl
image_at-set_image_ne (suc i) zero path (disk ∷ disks) h = refl
image_at-set_image_ne (suc i) (suc j) path (disk ∷ disks) h =
    image_at-set_image_ne i j path disks (λ e. h (ap suc e))

module _ (os : Os) where
  -- No image was made, and the machine object remembers those that it did.
  abbrev pub MakesNone : Session → Session → Type 0
  MakesNone s t =
      (made os t.calls ≡ made os s.calls)
      × (length t.vm.disks ≡ length s.vm.disks)
      × ((k : ℕ) → image_in k t.vm ≡ image_in k s.vm)

  -- One image was made, which the machine object remembers at the place `k`.
  abbrev pub MakesAt : ℕ → String → Session → Session → Type 0
  MakesAt k path s t =
      (made os t.calls ≡ path ∷ made os s.calls)
      × (length t.vm.disks ≡ length s.vm.disks)
      × (k ≤ length s.vm.disks → image_in k t.vm ≡ some path)
      × ((j : ℕ) → j ≢ k → image_in j t.vm ≡ image_in j s.vm)

  -- Only a step that fails leaves a place of its own empty.
  abbrev pub IsIdle : List ℕ → Result MachineError (Unit {0}) → Type 0
  IsIdle [] r = Unit
  IsIdle (k ∷ ks) r = (e : MachineError) × (r ≡ err e)

  abbrev pub Fills : List ℕ → Session → Result MachineError (Unit {0}) × Session → Type 0
  Fills ks s out =
      (MakesNone s out.1 × IsIdle ks out.0)
      ⊎ ((k : ℕ) × (path : String) × (ks ≡ k ∷ []) × MakesAt k path s out.1)

  pub same_vm-MakesNone :
      (s t : Session) → made os t.calls ≡ made os s.calls → t.vm ≡ s.vm → MakesNone s t
  same_vm-MakesNone s t h e = (h, ap (λ (vm : Vm). length vm.disks) e, λ k. ap (image_in k) e)

  -- A step that was given the path of an image remembers it at the place `k`.
  abbrev pub Remembers : ℕ → String → Session → Session → Type 0
  Remembers k path t u =
      (made os u.calls ≡ made os t.calls)
      × (length u.vm.disks ≡ length t.vm.disks)
      × (k ≤ length t.vm.disks → image_in k u.vm ≡ some path)
      × ((j : ℕ) → j ≢ k → image_in j u.vm ≡ image_in j t.vm)

  then_remember :
      (k : ℕ) (f : String → Step (Unit {0}))
      → ((path : String) (t : Session) → Remembers k path t (f path t).1)
      → (s t : Session) (r : Result MachineError String) → Writes os s r t
      → Fills (k ∷ []) s (
          let out : Result MachineError (Unit {0}) × Session = elim r [
            | ok path ↦ f path t
            | err e ↦ (err e, t)
          ] in
          out)
  then_remember k f h s t (err e) w = inl (same_vm-MakesNone s t w.1 w.0, (e, refl))
  then_remember k f h s t (ok path) w = inr (
    k,
    path,
    refl,
    (
      (h path t).0 ∙ w.1,
      (h path t).1 ∙ ap (λ (vm : Vm). length vm.disks) w.0,
      λ le. (h path t).2 (rw w.0 le),
      λ j ne. (h path t).3 j ne ∙ ap (image_in j) w.0,
    ),
  )

  >>=-Fills :
      (k : ℕ) (m : Step String) (f : String → Step (Unit {0})) (s : Session)
      → Writes os s (m s).0 (m s).1
      → ((path : String) (t : Session) → Remembers k path t (f path t).1)
      → Fills (k ∷ []) s ((m >>= f) s)
  >>=-Fills k m f s w h = then_remember k f h s (m s).1 (m s).0 w

  module _ (manager : Manager) where
    pub boot_disk-Fills : (s : Session) → Fills (0 ∷ []) s (create_vm_boot_disk os manager s)
    unfolding create_vm_boot_disk set_boot_image
    boot_disk-Fills s =
        >>=-Fills 0 (clone_qcow os manager.images s.vm.base_image s.vm.name s.vm.base_image_size)
          (set_boot_image os manager) s
          (clone_qcow-Writes os manager.images s.vm.base_image s.vm.name s.vm.base_image_size s)
          (λ path t. (refl, refl, λ le. refl, other path t))
      where
        other :
            (path : String) (t : Session) (j : ℕ)
            → j ≢ 0
            → image_in j (record t.vm { image = some path }) ≡ image_in j t.vm
        other path t zero ne = absurd (ne refl)
        other path t (suc j) ne = refl

    remembered :
        (i : ℕ) (path : String) (t u v : Session)
        → u.calls ≡ t.calls
        → u.vm ≡ record t.vm { disks = set_image i path t.vm.disks }
        → Kept os u v
        → Remembers (suc i) path t v
    remembered i path t u v calls vm kept = (
      kept.0 ∙ ap (made os) calls,
      ap (λ (vm : Vm). length vm.disks) (kept.1 ∙ vm) ∙ length-set_image i path t.vm.disks,
      λ le.
          ap (image_in (suc i)) (kept.1 ∙ vm)
          ∙ image_at-set_image_self i path t.vm.disks (omega arith),
      λ j ne. ap (image_in j) (kept.1 ∙ vm) ∙ other j ne,
    )
      where
        other :
            (j : ℕ)
            → j ≢ suc i
            → image_in j (record t.vm { disks = set_image i path t.vm.disks }) ≡ image_in j t.vm
        other zero ne = refl
        other (suc j) ne = image_at-set_image_ne i j path t.vm.disks (λ e. ne (ap suc e))

    provision_disk-Remembers :
        (i : ℕ) (disk : Disk) (path : String) (t : Session)
        → Remembers (suc i) path t (provision_disk os manager i disk path t).1
    unfolding provision_disk
    provision_disk-Remembers i disk path t = remembered i path t with_image _ refl refl (
        >>=-IsQuiet os (perform os (provision path disk.fs disk.serial)) (λ out. pure tt)
          (perform-IsQuiet os (provision path disk.fs disk.serial) refl) (λ out u. Kept-refl os u)
          with_image)
      where
        with_image : Session
        with_image = record t { vm = record t.vm { disks = set_image i path t.vm.disks } }

    pub data_disk-Fills :
        (i : ℕ) (disk : Disk) (s : Session) → Fills (suc i ∷ []) s (create_disk os manager i disk s)
    unfolding create_disk
    data_disk-Fills i disk s =
        >>=-Fills (suc i)
          (create_qcow os manager.images s.vm.name disk.type disk.size (or_empty disk.serial))
          (provision_disk os manager i disk) s
          (create_qcow-Writes os manager.images s.vm.name disk.type disk.size (or_empty disk.serial)
            s)
          (provision_disk-Remembers i disk)
