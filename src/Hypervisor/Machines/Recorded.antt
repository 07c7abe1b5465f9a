-- ===== src/Hypervisor/Machines/Recorded.antt =====
-- While the tasks of a machine run, the machine object remembers each image that was made.
use habertest_backend.Hypervisor.Vm.{Disk}
use mathlib.Core.Path.{subst}
use habertest_backend.Hypervisor.Machines.{
  boot_disk, cloud_init, networks, data_disk, Manager, Task, gather, do_task, all_tasks, disk_tasks,
}
use habertest_backend.Base.{
  string_eq, nat_eq, ℕ, ◌≤◌, true, false, String, some, List, [], ◌∷◌, ◌++◌, ◌≡◌, inl, inr, ap, ◌∙◌,
  length, arith, Bool-cases, eq_iff, ◌==◌, nat_beq_iff, refl, sym, suc, ◌+◌,
}
use habertest_backend.Base.Counts.{contains, contains-append}
use habertest_backend.Hypervisor.Calls.{Session, Os, made, MachineError}
use habertest_backend.Hypervisor.Machines.Made.{
  image_in, MakesNone, MakesAt, place_of, Fills, places,
}
use habertest_backend.Base.Exec.{Result, ok, err}
use habertest_backend.Hypervisor.Machines.Harmless.{do_task-Fills}

-- The places that tasks fill are places of a machine with `n` disks, and no two of them are the same.
abbrev pub IsSchedule : ℕ → List ℕ → Type 0
IsSchedule n [] = Unit
IsSchedule n (k ∷ ks) = (k ≤ n) × (contains k ks ≡ false) × IsSchedule n ks

module _ (os : Os) where
  -- Each image that was made is at a place of the machine which the tasks `ks` do not fill.
  abbrev pub Recorded : List ℕ → Session → Type 0
  Recorded ks s =
      (path : String)
      → contains path (made os s.calls) ≡ true
      → (k : ℕ) × (image_in k s.vm ≡ some path) × (contains k ks ≡ false)

  abbrev pub Remembered : Session → Type 0
  Remembered s =
      (path : String)
      → contains path (made os s.calls) ≡ true
      → (k : ℕ) × (image_in k s.vm ≡ some path)

  none_made :
      (here ks : List ℕ) (s t : Session)
      → MakesNone os s t
      → Recorded (here ++ ks) s
      → Recorded ks t
  none_made here ks s t h recorded path isin =
      let (k, image, free) = recorded path (rw (← h.0) isin) in
      (k, h.2 k ∙ image, ground (arith, contains-append k here ks, free))

  one_made :
      (n k : ℕ) (path : String) (ks : List ℕ) (s t : Session)
      → n ≡ length s.vm.disks
      → MakesAt os k path s t
      → IsSchedule n (k ∷ ks)
      → Recorded (k ∷ ks) s
      → Recorded ks t
  one_made n k path ks s t e h schedule recorded other isin = elim (Bool-cases (path == other)) [
    | inl same ↦ (k, h.2 (omega arith) ∙ ap some ((eq_iff path other).0 same), schedule.1)
    | inr different ↦
        let (j, image, free) = recorded other (ground (arith, h.0)) in
        (j, h.3 j (ground (arith, nat_beq_iff k j)) ∙ image, ground (arith, free))
  ]

  pub IsSchedule-tail :
      (n m : ℕ) (task : Task) (ks : List ℕ)
      → m ≡ n
      → IsSchedule n (place_of task ++ ks)
      → IsSchedule m ks
  IsSchedule-tail n m boot_disk ks e h = rw e h.2
  IsSchedule-tail n m cloud_init ks e h = rw e h
  IsSchedule-tail n m networks ks e h = rw e h
  IsSchedule-tail n m (data_disk i disk) ks e h = rw e h.2

  one_made_by :
      (task : Task) (k : ℕ) (path : String) (ks : List ℕ) (s t : Session)
      → place_of task ≡ k ∷ []
      → MakesAt os k path s t
      → IsSchedule (length s.vm.disks) (place_of task ++ ks)
      → Recorded (place_of task ++ ks) s
      → Recorded ks t
  one_made_by task k path ks s t e h =
      subst
        (λ (here : List ℕ).
          IsSchedule (length s.vm.disks) (here ++ ks) → Recorded (here ++ ks) s → Recorded ks t)
        (sym e) (one_made (length s.vm.disks) k path ks s t refl h)

  pub length-of-Fills :
      (ks : List ℕ) (s : Session) (out : Result MachineError (Unit {0}) × Session)
      → Fills os ks s out
      → length out.1.vm.disks ≡ length s.vm.disks
  length-of-Fills ks s out (inl h) = h.0.1
  length-of-Fills ks s out (inr (k, path, e, h)) = h.1

  do_task-Recorded :
      (task : Task) (ks : List ℕ) (s : Session) (out : Result MachineError (Unit {0}) × Session)
      → Fills os (place_of task) s out
      → IsSchedule (length s.vm.disks) (place_of task ++ ks)
      → Recorded (place_of task ++ ks) s
      → Recorded ks out.1
  do_task-Recorded task ks s out (inl h) schedule recorded =
      none_made (place_of task) ks s out.1 h.0 recorded
  do_task-Recorded task ks s out (inr (k, path, e, h)) schedule recorded =
      one_made_by task k path ks s out.1 e h schedule recorded

  Recorded-Remembered : (ks : List ℕ) (s : Session) → Recorded ks s → Remembered s
  Recorded-Remembered ks s h path isin = let (k, image, free) = h path isin in (k, image)

  module _ (manager : Manager) where
    stopped :
        (ks : List ℕ) (tasks : List Task) (t : Session) (r : Result MachineError (Unit {0}))
        → Recorded ks t
        → Remembered (gather os manager tasks t).2
        → Remembered
            (let out : Result MachineError (Unit {0}) × List Task × Session = elim r [
              | ok done ↦ gather os manager tasks t
              | err e ↦ (err e, tasks, t)
            ] in
              out).2
    stopped ks tasks t (ok done) here later = later
    stopped ks tasks t (err e) here later = Recorded-Remembered ks t here

    pub gather-Remembered :
        (tasks : List Task) (s : Session)
        → IsSchedule (length s.vm.disks) (places tasks)
        → Recorded (places tasks) s
        → Remembered (gather os manager tasks s).2
    unfolding gather
    gather-Remembered [] s schedule recorded = Recorded-Remembered [] s recorded
    gather-Remembered (task ∷ tasks) s schedule recorded =
        let t : Session = (do_task os manager task s).1 in
        let fills : Fills os (place_of task) s (do_task os manager task s) =
          do_task-Fills os manager task s in
        let after : Recorded (places tasks) t =
          do_task-Recorded task (places tasks) s (do_task os manager task s) fills schedule
            recorded in
        stopped (places tasks) tasks t (do_task os manager task s).0 after (
          gather-Remembered tasks t
            (IsSchedule-tail (length s.vm.disks) (length t.vm.disks) task (places tasks)
              (length-of-Fills (place_of task) s (do_task os manager task s) fills) schedule)
            after)

-- The tasks in the order in which they are given to `gather` fill different places.
places-above :
    (k i : ℕ) (disks : List Disk)
    → k ≤ i
    → contains k (places (disk_tasks i disks ++ networks ∷ [])) ≡ false
unfolding disk_tasks
places-above k i [] h = refl
places-above k i (disk ∷ disks) h = ground (arith, places-above k (i + 1) disks)

disk_tasks-IsSchedule :
    (n i : ℕ) (disks : List Disk)
    → i + length disks ≤ n
    → IsSchedule n (places (disk_tasks i disks ++ networks ∷ []))
unfolding disk_tasks
disk_tasks-IsSchedule n i [] h = tt
disk_tasks-IsSchedule n i (disk ∷ disks) h = (
  omega arith,
  places-above (suc i) (i + 1) disks (omega arith),
  disk_tasks-IsSchedule n (i + 1) disks (omega arith),
)

pub all_tasks-IsSchedule :
    (disks : List Disk) → IsSchedule (length disks) (places (all_tasks disks))
unfolding all_tasks
all_tasks-IsSchedule disks = (
  omega arith,
  places-above 0 0 disks (omega arith),
  disk_tasks-IsSchedule (length disks) 0 disks (omega arith),
)
