-- ===== src/Hypervisor/Storage.antt =====
-- The disks that get a file system before a machine uses them, through a network block device:
-- resource_managers/hypervisor/vms/storage.py and resource_managers/utils/filesystem.py. What the
-- commands answer, and what the devices look like at each call, are parameters.
pub mod Disconnects
pub mod Tests
use Prim.Native.String.{◌++◌}
use habertest_backend.Base.{
  string_eq, ℕ, zero, suc, ◌+◌, String, Option, none, some, List, [], ◌∷◌, length, ltb,
  if◌then◌else◌, ◌==◌,
}
use habertest_backend.Base.Exec.{Result, ok, err, Exec, ◌>>=◌, ◌>>◌, pure, raise, lift}

pub data StorageCall : Type 0 where
  load_driver : StorageCall
  connect : String → String → StorageCall
  disconnect : String → StorageCall
  run_mkfs : String → StorageCall

-- The exceptions: a command fails, a size cannot be read, no device is free, the wait takes too long with
-- the texts of what was caught, or the file system is not supported. `out_of_fuel` is the end of the fuel.
pub data StorageError : Type 0 where
  command_failed no_size : String → StorageError
  no_free_device out_of_fuel : StorageError
  timed_out : StorageError
  not_supported : String → StorageError

-- What there is at the n-th call: the devices, their sizes (`none` if the file cannot be read), the
-- answers of the commands, and the time.
pub record Block : Type 0 where
  pub devices : ℕ → List String
  pub size_of : ℕ → String → Option String
  pub answer : ℕ → StorageCall → Result String String
  pub time : ℕ → ℕ

-- The calls, the last one first
abbrev pub StorageStep : Type 0 → Type 0
StorageStep A = Exec StorageError (List StorageCall) A

-- `Mkfs.ext4`, `Mkfs.xfs`; an empty uuid counts as none.
uuid_part : String → Option String → String
uuid_part option none = ""
uuid_part option (some uuid) = if uuid == "" then "" else option ++ uuid

ext4 : String → Option String → String
unfolding uuid_part
ext4 device disk_uuid = "mkfs.ext4 " ++ (uuid_part " -U " disk_uuid ++ (" -F " ++ device))

xfs : String → Option String → String
unfolding uuid_part
xfs device disk_uuid = "mkfs.xfs " ++ (uuid_part " -m uuid=" disk_uuid ++ (" -f " ++ device))

-- `Mkfs.command`
unfoldable pub mkfs_command : String → String → Option String → Result StorageError String
unfolding ext4 xfs
mkfs_command device fstype disk_uuid =
    if fstype == "xfs"
    then ok (xfs device disk_uuid)
    else if fstype == "ext4"
    then ok (ext4 device disk_uuid)
    else err (not_supported fstype)

abbrev answered : Result String String → Result StorageError String
answered (ok a) = ok a
answered (err e) = err (command_failed e)

module _ (block : Block) where
  abbrev run_cmd : StorageCall → StorageStep String
  run_cmd c calls = (answered (block.answer (length calls) c), c ∷ calls)

  -- `_find_free_device`: the first device of size 0; `n` calls were made before.
  pub find_free_device : ℕ → List String → Result StorageError (Option String)
  find_free_device n [] = ok none
  find_free_device n (device ∷ devices) =
      let rest = find_free_device n devices in
      elim (block.size_of n device) [
        | none ↦ err (no_size device)
        | some size ↦ if size == "0" then ok (some device) else rest
      ]

  connect_device : String → String → StorageStep String
  connect_device image_path device = run_cmd (connect device image_path) >>= λ out. pure device

  connect_free : String → Result StorageError (Option String) → StorageStep String
  unfolding connect_device
  connect_free image_path (err e) = raise e
  connect_free image_path (ok none) = raise no_free_device
  connect_free image_path (ok (some device)) = connect_device image_path device

  -- `_allocate_and_connect`, which runs under its lock
  pub allocate_and_connect : String → StorageStep String
  unfolding connect_free find_free_device
  allocate_and_connect image_path calls =
      connect_free image_path (find_free_device (length calls) (block.devices (length calls))) calls

  -- `wait_for_predicate_nothrow` over it, with ten seconds from `start` on; each round, made or not,
  -- is followed by a look at the clock.
  wait_for_device : String → ℕ → ℕ → StorageStep String
  unfolding allocate_and_connect
  wait_for_device image_path start zero calls = (err out_of_fuel, calls)
  wait_for_device image_path start (suc fuel) calls =
      let (r, later) = allocate_and_connect image_path calls in
      let rest = wait_for_device image_path start fuel later in
      elim r [
        | ok device ↦ (ok device, later)
        | err e ↦
            if ltb (start + 10) (block.time (length later)) then (err timed_out, later) else rest
      ]

  -- The body of the `with` statement: the device is formatted.
  format_device : String → Option String → String → StorageStep String
  format_device fstype disk_uuid device =
      lift (mkfs_command device fstype disk_uuid) >>= λ cmd. run_cmd (run_mkfs cmd)

  -- `_ndb_mount` from the connection on: the device is disconnected whatever happens in between.
  disconnect_after : String → Result StorageError String → StorageStep (Unit {0})
  disconnect_after device (ok out) = run_cmd (disconnect device) >> pure tt
  disconnect_after device (err e) = run_cmd (disconnect device) >> raise e

  mounted : String → Option String → String → StorageStep (Unit {0})
  unfolding format_device disconnect_after
  mounted fstype disk_uuid device calls =
      let (r, formatted) = format_device fstype disk_uuid device calls in
      disconnect_after device r formatted

  -- `provision_disk`, on fuel
  unfoldable pub provision_disk : String → String → Option String → ℕ → StorageStep (Unit {0})
  unfolding wait_for_device mounted
  provision_disk image_path fstype disk_uuid fuel calls =
      (wait_for_device image_path (block.time (length calls)) fuel >>= mounted fstype disk_uuid)
        calls

  disconnect_all : List String → StorageStep (Unit {0})
  disconnect_all [] = pure tt
  disconnect_all (device ∷ devices) = run_cmd (disconnect device) >> disconnect_all devices

  -- `initialize`
  pub initialize : StorageStep (Unit {0})
  unfolding disconnect_all
  initialize =
      run_cmd load_driver >>= λ out calls. disconnect_all (block.devices (length calls)) calls
