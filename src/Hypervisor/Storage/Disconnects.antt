-- ===== src/Hypervisor/Storage/Disconnects.antt =====
-- A device that an image was connected to is disconnected again, unless that command fails.
use habertest_backend.Hypervisor.Storage.{
  load_driver, connect, disconnect, run_mkfs, StorageCall, StorageError, command_failed, Block,
  mkfs_command, connect_device, connect_free, allocate_and_connect, wait_for_device, format_device,
  disconnect_after, mounted, provision_disk,
}
use habertest_backend.Base.{
  string_eq, ℕ, zero, suc, String, Option, none, some, List, [], ◌∷◌, ◌≡◌, refl, inl, inr, length,
  arith, ◌∙◌, beq_refl, if◌then◌else◌, ◌==◌,
}
use habertest_backend.Base.Exec.{Result, ok, err, Result-cases}

-- The list without the first item that is equal to the given one
drop_first : String → List String → List String
drop_first device [] = []
drop_first device (other ∷ devices) =
    let rest = drop_first device devices in if other == device then devices else other ∷ rest

module _ (block : Block) where
  after_connect : String → Result String String → List String → List String
  after_connect device (ok out) devices = device ∷ devices
  after_connect device (err e) devices = devices

  after_disconnect : String → Result String String → List String → List String
  unfolding drop_first
  after_disconnect device (ok out) devices = drop_first device devices
  after_disconnect device (err e) devices = devices

  -- The devices that a command connected and that no later one disconnected, counting only the commands
  -- that succeeded.
  unfoldable pub connected : List StorageCall → List String
  unfolding after_connect after_disconnect
  connected [] = []
  connected (load_driver ∷ calls) = connected calls
  connected (connect device image ∷ calls) =
      after_connect device (block.answer (length calls) (connect device image)) (connected calls)
  connected (disconnect device ∷ calls) =
      after_disconnect device (block.answer (length calls) (disconnect device)) (connected calls)
  connected (run_mkfs cmd ∷ calls) = connected calls

  -- A step that returns a device leaves it connected; one that fails connects none.
  abbrev Connects : List StorageCall → Result StorageError String × List StorageCall → Type 0
  Connects calls out =
      connected out.1
      ≡ (elim out.0 [ ok device ↦ device ∷ connected calls | err e ↦ connected calls ])

  connect_device-Connects :
      (image device : String) (calls : List StorageCall)
      → Connects calls (connect_device block image device calls)
  unfolding connected connect_device after_connect
  connect_device-Connects image device calls =
      elim (Result-cases (block.answer (length calls) (connect device image))) [
        | inl (out, h) ↦ ground (arith, h)
        | inr (e, h) ↦ ground (arith, h)
      ]

  connect_free-Connects :
      (image : String) (free : Result StorageError (Option String)) (calls : List StorageCall)
      → Connects calls (connect_free block image free calls)
  unfolding connect_free
  connect_free-Connects image (err e) calls = refl
  connect_free-Connects image (ok none) calls = refl
  connect_free-Connects image (ok (some device)) calls = connect_device-Connects image device calls

  allocate_and_connect-Connects :
      (image : String) (calls : List StorageCall)
      → Connects calls (allocate_and_connect block image calls)
  unfolding allocate_and_connect
  allocate_and_connect-Connects image calls = connect_free-Connects image _ calls

  wait_for_device-Connects :
      (image : String) (start fuel : ℕ) (calls : List StorageCall)
      → Connects calls (wait_for_device block image start fuel calls)
  unfolding wait_for_device
  wait_for_device-Connects image start zero calls = refl
  wait_for_device-Connects image start (suc fuel) calls =
      elim (Result-cases (allocate_and_connect block image calls).0) [
        | inl (device, h) ↦ ground (arith, h, allocate_and_connect-Connects image calls)
        | inr (e, h) ↦ ground (
          arith,
          h,
          allocate_and_connect-Connects image calls,
          wait_for_device-Connects image start fuel (allocate_and_connect block image calls).1,
        )
      ]

  format_device-connected :
      (fstype : String) (uuid : Option String) (device : String) (calls : List StorageCall)
      → connected (format_device block fstype uuid device calls).1 ≡ connected calls
  unfolding format_device connected
  format_device-connected fstype uuid device calls =
      elim (Result-cases (mkfs_command device fstype uuid)) [
        | inl (cmd, h) ↦ ground (arith, h)
        | inr (e, h) ↦ ground (arith, h)
      ]

  -- How the mounting of a device ends, with the devices that were connected before it: the device is
  -- disconnected, or its disconnection failed, which is the error that is raised, and it stays connected.
  pub data Leaves (devices : List String) (out : Result StorageError (Unit {0}) × List StorageCall)
      : Type 0 where
    as_before : connected out.1 ≡ devices → Leaves devices out
    stuck :
        (device why : String) (calls : List StorageCall)
        → out.1 ≡ disconnect device ∷ calls
        → block.answer (length calls) (disconnect device) ≡ err why
        → out.0 ≡ err (command_failed why)
        → connected out.1 ≡ device ∷ devices
        → Leaves devices out

  disconnect_after-Leaves :
      (device : String) (r : Result StorageError String) (calls : List StorageCall)
      (devices : List String)
      → connected calls ≡ device ∷ devices
      → Leaves devices (disconnect_after block device r calls)
  unfolding disconnect_after connected drop_first after_disconnect
  disconnect_after-Leaves device (ok out) calls devices h =
      elim (Result-cases (block.answer (length calls) (disconnect device))) [
        | inl (out', e) ↦ as_before (ground (arith, h, e, beq_refl device))
        | inr (why, e) ↦
            stuck device why calls (ground (arith, e)) e (ground (arith, e)) (ground (arith, h, e))
      ]
  disconnect_after-Leaves device (err cause) calls devices h =
      elim (Result-cases (block.answer (length calls) (disconnect device))) [
        | inl (out', e) ↦ as_before (ground (arith, h, e, beq_refl device))
        | inr (why, e) ↦
            stuck device why calls (ground (arith, e)) e (ground (arith, e)) (ground (arith, h, e))
      ]

  mounted-Leaves :
      (fstype : String) (uuid : Option String) (device : String) (calls : List StorageCall)
      (devices : List String)
      → connected calls ≡ device ∷ devices
      → Leaves devices (mounted block fstype uuid device calls)
  unfolding mounted
  mounted-Leaves fstype uuid device calls devices h =
      disconnect_after-Leaves device (format_device block fstype uuid device calls).0
        (format_device block fstype uuid device calls).1 devices
        (format_device-connected fstype uuid device calls ∙ h)

  then_mounted :
      (fstype : String) (uuid : Option String) (calls later : List StorageCall)
      (r : Result StorageError String)
      → Connects calls (r, later)
      → Leaves (connected calls) (
          let out : Result StorageError (Unit {0}) × List StorageCall = elim r [
            | ok device ↦ mounted block fstype uuid device later
            | err e ↦ (err e, later)
          ] in
          out)
  then_mounted fstype uuid calls later (ok device) h =
      mounted-Leaves fstype uuid device later (connected calls) h
  then_mounted fstype uuid calls later (err e) h = as_before h

  -- Whatever the commands answer, `provision_disk` leaves the same devices connected as there were before,
  -- also when the file system cannot be made; except that, when the command fails that disconnects the
  -- device it has taken, that device stays connected, and `provision_disk` raises that failure.
  pub provision_disk-Leaves :
      (image fstype : String) (uuid : Option String) (fuel : ℕ) (calls : List StorageCall)
      → Leaves (connected calls) (provision_disk block image fstype uuid fuel calls)
  unfolding provision_disk
  provision_disk-Leaves image fstype uuid fuel calls =
      then_mounted fstype uuid calls
        (wait_for_device block image (block.time (length calls)) fuel calls).1
        (wait_for_device block image (block.time (length calls)) fuel calls).0
        (wait_for_device-Connects image (block.time (length calls)) fuel calls)
