-- ===== src/Hypervisor/CloudInit/Quiet.antt =====
-- The steps for the first configuration make no image and leave the machine object as it is.
use habertest_backend.Base.{String, List, refl}
use habertest_backend.Base.Exec.{lift, pure}
use habertest_backend.Hypervisor.Vm.{Vm}
use habertest_backend.Hypervisor.Calls.{Os, perform, mkisofs, remove_file}
use habertest_backend.Hypervisor.Calls.Quiet.{IsQuiet, Kept-refl, perform-IsQuiet, >>=-IsQuiet}
use habertest_backend.Hypervisor.CloudInit.{mounts, iso_path, write_iso, generate_iso, delete_iso}

module _ (os : Os) (iso_base_path : String) where
  write_iso-IsQuiet :
      (path : String) (entries : List (List String))
      → IsQuiet os (write_iso os iso_base_path path entries)
  unfolding write_iso
  write_iso-IsQuiet path entries =
      >>=-IsQuiet os (perform os (mkisofs path entries)) (λ out. pure path)
        (perform-IsQuiet os (mkisofs path entries) refl) (λ out. Kept-refl os)

  pub generate_iso-IsQuiet : (vm : Vm) → IsQuiet os (generate_iso os iso_base_path vm)
  unfolding generate_iso
  generate_iso-IsQuiet vm =
      >>=-IsQuiet os (lift (mounts vm.disks))
        (write_iso os iso_base_path (iso_path os iso_base_path vm)) (Kept-refl os)
        (write_iso-IsQuiet (iso_path os iso_base_path vm))

  pub delete_iso-IsQuiet : (vm : Vm) → IsQuiet os (delete_iso os iso_base_path vm)
  unfolding delete_iso
  delete_iso-IsQuiet vm = perform-IsQuiet os (remove_file (iso_path os iso_base_path vm)) refl
