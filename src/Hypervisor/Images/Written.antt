-- ===== src/Hypervisor/Images/Written.antt =====
-- What the two commands that write images do: they add the image that they return, or they fail and add
-- none.
use habertest_backend.Base.{
  ℕ, String, Option, List, ◌∷◌, ◌≡◌, refl, inl, inr, length, Bool-cases, arith,
}
use habertest_backend.Base.Exec.{Result, ok, err, Result-cases}
use habertest_backend.Hypervisor.Calls.{Os, Session, MachineError, made, make_image}
use habertest_backend.Hypervisor.Images.{
  ImageStore, written, clone_at, clone_qcow, create_qcow, base_qcow_path_from_name,
}
use habertest_backend.Hypervisor.Allocator.Names.{vm_name}

-- The images that there are when a step has returned a path, or has failed.
abbrev pub added : Result MachineError String → List String → List String
added (ok path) paths = path ∷ paths
added (err e) paths = paths

module _ (os : Os) where
  abbrev pub Writes : Session → Result MachineError String → Session → Type 0
  Writes s r t = (t.vm ≡ s.vm) × (made os t.calls ≡ added r (made os s.calls))

  written-Writes :
      (path : String) (args : List String) (s : Session)
      → Writes s (written os path args s).0 (written os path args s).1
  unfolding written
  written-Writes path args s =
      elim (Result-cases (os.answer (length s.calls) (make_image path args))) [
        | inl (out, h) ↦ (ground (arith, h), ground (arith, h))
        | inr (e, h) ↦ (ground (arith, h), ground (arith, h))
      ]

  module _ (store : ImageStore) where
    pub create_qcow-Writes :
        (vm_name storage_type : String) (size : ℕ) (serial : String) (s : Session)
        → let out = create_qcow os store vm_name storage_type size serial s in Writes s out.0 out.1
    unfolding create_qcow
    create_qcow-Writes vm_name storage_type size serial s = written-Writes _ _ s

    pub clone_qcow-Writes :
        (base image_name : String) (size : Option ℕ) (s : Session)
        → let out = clone_qcow os store base image_name size s in Writes s out.0 out.1
    unfolding clone_qcow clone_at
    clone_qcow-Writes base image_name size s =
        elim (Bool-cases
          (os.exists_file (length s.calls) (base_qcow_path_from_name os store base))) [
            | inl exists ↦ rw exists (written-Writes _ _ s)
            | inr missing ↦ rw missing (refl, refl)
          ]
