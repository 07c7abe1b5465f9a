-- ===== src/Hypervisor/Images.antt =====
-- The image files of machines (resource_managers/hypervisor/vms/image_store.py).
pub mod Written
use Prim.Native.String.{◌++◌}
use habertest_backend.Base.{
  ℕ, String, Option, none, some, List, [], ◌∷◌, ◌++◌ as append, if◌then◌else◌, string_eq, ◌==◌,
  length,
}
use habertest_backend.Base.Exec.{err, ◌>>◌, pure}
use habertest_backend.Hypervisor.Calls.{
  Os, Step, perform, make_image, image_info, remove_file, image_missing,
}
use habertest_backend.Hypervisor.Allocator.Names.{decimal, vm_name}

pub record ImageStore : Type 0 where
  pub base_qcow_path : String
  pub run_qcow_path : String
  pub ssd_path : String
  pub hdd_path : String

-- What needs no paths.
module _ (os : Os) where
  -- `qcow_info`, which answers what `qemu-img` printed; that it is JSON is left to the answer
  pub qcow_info : String → Step String
  qcow_info image_path =
      perform os (image_info ("qemu-img" ∷ "info" ∷ "-U" ∷ "--output=json" ∷ image_path ∷ []))

  unfoldable pub delete_qcow : String → Step String
  delete_qcow image_path = perform os (remove_file image_path)

  -- A command that writes the image at `path`
  written : String → List String → Step String
  written path args = perform os (make_image path args) >> pure path

module _ (os : Os) (store : ImageStore) where
  path_in : String → String → String
  path_in directory file = os.abspath (os.join directory file)

  run_qcow_path_from_name : String → String → String
  unfolding path_in
  run_qcow_path_from_name vm_name time =
      path_in store.run_qcow_path (vm_name ++ ("_" ++ (time ++ ".qcow2")))

  storage_path : String → String → String → String
  unfolding path_in
  storage_path storage_type vm_name serial_num =
      path_in (if storage_type == "ssd" then store.ssd_path else store.hdd_path)
        (vm_name ++ ("_" ++ (storage_type ++ ("_" ++ (serial_num ++ ".qcow2")))))

  base_qcow_path_from_name : String → String
  unfolding path_in
  base_qcow_path_from_name image_label = path_in store.base_qcow_path (image_label ++ ".qcow2")

  size_args : Option ℕ → List String
  size_args none = []
  size_args (some size) = (decimal size ++ "G") ∷ []

  clone_args : String → String → Option ℕ → List String
  unfolding size_args
  clone_args backing_file path image_size =
      append
        ("qemu-img"
          ∷ "create"
          ∷ "-f"
          ∷ "qcow2"
          ∷ "-o"
          ∷ ("backing_file=" ++ backing_file)
          ∷ path
          ∷ [])
        (size_args image_size)

  clone_at : String → Option ℕ → String → String → Step String
  unfolding written clone_args run_qcow_path_from_name
  clone_at image_name image_size backing_file time =
      let path = run_qcow_path_from_name image_name time in
      written os path (clone_args backing_file path image_size)

  -- `clone_qcow`
  unfoldable pub clone_qcow : String → String → Option ℕ → Step String
  unfolding clone_at base_qcow_path_from_name
  clone_qcow base_qcow_image_name image_name image_size s =
      let backing_file = base_qcow_path_from_name base_qcow_image_name in
      if os.exists_file (length s.calls) backing_file
      then clone_at image_name image_size backing_file (os.time (length s.calls)) s
      else (err (image_missing backing_file), s)

  -- `create_qcow`
  unfoldable pub create_qcow : String → String → ℕ → String → Step String
  unfolding storage_path written
  create_qcow vm_name storage_type size_gb serial_num =
      let path = storage_path storage_type vm_name serial_num in
      written os path
        ("qemu-img" ∷ "create" ∷ "-f" ∷ "qcow2" ∷ path ∷ (decimal size_gb ++ "G") ∷ [])
