-- ===== src/Hypervisor/Storage/Tests.antt =====
-- An image whose file system cannot be made, with one free device.
use habertest_backend.Hypervisor.Storage.{
  mkfs_command, Block, StorageCall, connect, disconnect, run_mkfs, provision_disk,
}
use habertest_backend.Base.{string_eq, String, some, [], ◌∷◌, ◌≡◌, refl, if◌then◌else◌, ◌==◌}
use habertest_backend.Base.Exec.{Result, ok, err}
use habertest_backend.Hypervisor.Storage.Disconnects.{connected, Leaves, provision_disk-Leaves}

abbrev answers : StorageCall → Result String String
answers (run_mkfs cmd) = err cmd
answers c = ok ""

abbrev block : Block
block = record {
  devices = λ n. "/dev/nbd0" ∷ "/dev/nbd1" ∷ [];
  size_of = λ n device. if device == "/dev/nbd0" then some "100" else some "0";
  answer = λ n. answers;
  time = λ n. n;
}

three_calls :
    (provision_disk block "vm.qcow2" "ext4" (some "1") 5 []).1
    ≡ disconnect "/dev/nbd1"
      ∷ run_mkfs "mkfs.ext4  -U 1 -F /dev/nbd1"
      ∷ connect "/dev/nbd1" "vm.qcow2"
      ∷ []
unfolding provision_disk mkfs_command
three_calls = refl

provision_disk-Leaves_example :
    Leaves block (connected block []) (provision_disk block "vm.qcow2" "ext4" (some "1") 5 [])
provision_disk-Leaves_example = provision_disk-Leaves block "vm.qcow2" "ext4" (some "1") 5 []
