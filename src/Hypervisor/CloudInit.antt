-- ===== src/Hypervisor/CloudInit.antt =====
-- The image with the first configuration of a machine (resource_managers/hypervisor/vms/cloud_init.py).
pub mod Quiet
use Prim.Native.String.{◌++◌}
use habertest_backend.Base.{String, Option, none, some, List, [], ◌∷◌}
use habertest_backend.Base.Exec.{Result, ok, err, ◌>>=◌, ◌>>◌, pure, lift}
use habertest_backend.Hypervisor.Vm.{Vm, Disk}
use habertest_backend.Hypervisor.Calls.{
  Os, Step, MachineError, bad_mount, perform, mkisofs, remove_file,
}

-- The entry of a disk that is to be mounted; without a serial or a file system it cannot be.
mount_entry : String → Option String → Option String → Result MachineError (List String)
mount_entry mount_point (some disk_uuid) (some fs) =
    ok (("UUID=" ++ disk_uuid) ∷ mount_point ∷ fs ∷ "defaults" ∷ "0" ∷ "0" ∷ [])
mount_entry mount_point (some disk_uuid) none = err bad_mount
mount_entry mount_point none fs = err bad_mount

add_entry :
    Result MachineError (List String)
    → Result MachineError (List (List String))
    → Result MachineError (List (List String))
add_entry (ok entry) (ok entries) = ok (entry ∷ entries)
add_entry (ok entry) (err e) = err e
add_entry (err e) entries = err e

-- `mounts` of `_write_userdata`
pub mounts : List Disk → Result MachineError (List (List String))
unfolding mount_entry add_entry
mounts [] = ok []
mounts (disk ∷ disks) =
    let rest = mounts disks in
    elim disk.mount [
      | none ↦ rest
      | some mount_point ↦ add_entry (mount_entry mount_point disk.serial disk.fs) rest
    ]

-- `_iso_path`, in the directory of the images
pub iso_path : Os → String → Vm → String
iso_path os iso_base_path vm = os.join iso_base_path (vm.name ++ ("_" ++ (vm.uuid ++ ".iso")))

module _ (os : Os) (iso_base_path : String) where
  write_iso : String → List (List String) → Step String
  write_iso path entries = perform os (mkisofs path entries) >> pure path

  -- `generate_iso`
  unfoldable pub generate_iso : Vm → Step String
  unfolding mounts iso_path write_iso
  generate_iso vm = lift (mounts vm.disks) >>= write_iso (iso_path os iso_base_path vm)

  -- `delete_iso`
  unfoldable pub delete_iso : Vm → Step String
  unfolding iso_path
  delete_iso vm = perform os (remove_file (iso_path os iso_base_path vm))
