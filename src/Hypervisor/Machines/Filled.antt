-- ===== src/Hypervisor/Machines/Filled.antt =====
-- A machine that `allocate_vm` returns has all its images.
use habertest_backend.Hypervisor.Machines.{
  allocate_vm, gather, Manager, Task, do_task, vol_names, clean_up, settle, finish, networks,
  define_and_start, name_disks,
}
use mathlib.Core.Path.{subst}
use habertest_backend.Base.{
  ℕ, String, some, List, [], ◌∷◌, ◌++◌, ◌≡◌, sym, ◌∙◌, inl, inr, ◌≤◌, length, arith, Bool-cases,
  nat_beq, nat_beq_iff, All, All-append, refl,
}
use habertest_backend.Hypervisor.Vm.{Vm, Disk}
use habertest_backend.Base.Exec.{Result, ok, err}
use habertest_backend.Hypervisor.Calls.{MachineError, Session, Os}
use habertest_backend.Hypervisor.Machines.Recorded.{IsSchedule, IsSchedule-tail, length-of-Fills}
use habertest_backend.Hypervisor.Machines.Harmless.{do_task-Fills}
use habertest_backend.Hypervisor.Machines.Made.{image_in, place_of, Fills, places}
use habertest_backend.Hypervisor.Machines.Cleanup.{define_and_start-IsQuiet}

module _ (os : Os) where
  abbrev pub HasImage : Vm → ℕ → Type 0
  HasImage vm k = (path : String) × (image_in k vm ≡ some path)

  HasImage-Fills :
      (k : ℕ) (ks : List ℕ) (s : Session) (out : Result MachineError (Unit {0}) × Session)
      → Fills os ks s out
      → k ≤ length s.vm.disks
      → HasImage s.vm k
      → HasImage out.1.vm k
  HasImage-Fills k ks s out (inl h) le (path, image) = (path, h.0.2 k ∙ image)
  HasImage-Fills k ks s out (inr (j, new, e, h)) le (path, image) =
      elim (Bool-cases (nat_beq k j)) [
        | inl same ↦
            (new, rw (← (nat_beq_iff k j).0 same) at (h.2 (ground (arith, nat_beq_iff k j))))
        | inr other ↦ (path, h.3 k (ground (arith, nat_beq_iff k j)) ∙ image)
      ]

  -- A task that does not fail leaves no place of its own without an image.
  places-HasImage :
      (n : ℕ) (ks rest : List ℕ) (s : Session) (out : Result MachineError (Unit {0}) × Session)
      → Fills os ks s out
      → out.0 ≡ ok tt
      → n ≡ length s.vm.disks
      → IsSchedule n (ks ++ rest)
      → All (HasImage out.1.vm) ks
  places-HasImage n [] rest s out fills done same schedule = tt
  places-HasImage n (k ∷ ks) rest s out (inl (h, (e, failed))) done same schedule = cc
  places-HasImage n (k ∷ ks) rest s out (inr (j, path, e, h)) done same schedule =
      subst (λ (here : List ℕ). IsSchedule n (here ++ rest) → All (HasImage out.1.vm) here) (sym e)
        (λ fits. ((path, h.2 (omega (arith, fits.0))), tt)) schedule

  module _ (manager : Manager) where
    gather-HasImage :
        (k : ℕ) (tasks : List Task) (s : Session)
        → k ≤ length s.vm.disks
        → HasImage s.vm k
        → HasImage (gather os manager tasks s).2.vm k
    unfolding gather
    gather-HasImage k [] s le h = h
    gather-HasImage k (task ∷ tasks) s le h =
        let out : Result MachineError (Unit {0}) × Session = do_task os manager task s in
        let fills : Fills os (place_of task) s out = do_task-Fills os manager task s in
        let here : HasImage out.1.vm k = HasImage-Fills k (place_of task) s out fills le h in
        stopped k tasks out.1 out.0 here (
          gather-HasImage k tasks out.1
            (omega (arith, length-of-Fills os (place_of task) s out fills)) here)
      where
        stopped :
            (k : ℕ) (tasks : List Task) (t : Session) (r : Result MachineError (Unit {0}))
            → HasImage t.vm k
            → HasImage (gather os manager tasks t).2.vm k
            → HasImage
                (let all : Result MachineError (Unit {0}) × List Task × Session = elim r [
                  | ok done ↦ gather os manager tasks t
                  | err e ↦ (err e, tasks, t)
                ] in
                  all).2.vm
                k
        stopped k tasks t (ok done) here later = later
        stopped k tasks t (err e) here later = here

    All-HasImage :
        (ks rest : List ℕ) (tasks : List Task) (s : Session)
        → IsSchedule (length s.vm.disks) (ks ++ rest)
        → All (HasImage s.vm) ks
        → All (HasImage (gather os manager tasks s).2.vm) ks
    All-HasImage [] rest tasks s schedule h = tt
    All-HasImage (k ∷ ks) rest tasks s schedule h =
        (gather-HasImage k tasks s schedule.0 h.0, All-HasImage ks rest tasks s schedule.2 h.1)

    passed :
        (ks : List ℕ) (tasks : List Task) (t : Session) (r : Result MachineError (Unit {0}))
        → let all : Result MachineError (Unit {0}) × List Task × Session = elim r [
          | ok done ↦ gather os manager tasks t
          | err e ↦ (err e, tasks, t)
        ] in
          all.0 ≡ ok tt
          → (r ≡ ok tt
              → (gather os manager tasks t).0 ≡ ok tt
              → All (HasImage (gather os manager tasks t).2.vm) ks)
          → All (HasImage all.2.vm) ks
    passed ks tasks t (ok done) h f = f refl h
    passed ks tasks t (err e) h f = cc

    gather-All :
        (tasks : List Task) (s : Session)
        → IsSchedule (length s.vm.disks) (places tasks)
        → (gather os manager tasks s).0 ≡ ok tt
        → All (HasImage (gather os manager tasks s).2.vm) (places tasks)
    unfolding gather
    gather-All [] s schedule done = tt
    gather-All (task ∷ tasks) s schedule done =
        let out : Result MachineError (Unit {0}) × Session = do_task os manager task s in
        let fills : Fills os (place_of task) s out = do_task-Fills os manager task s in
        let same : length out.1.vm.disks ≡ length s.vm.disks =
          length-of-Fills os (place_of task) s out fills in
        let rest : IsSchedule (length out.1.vm.disks) (places tasks) =
          IsSchedule-tail os (length s.vm.disks) (length out.1.vm.disks) task (places tasks) same
            schedule in
        passed (place_of task ++ places tasks) tasks out.1 out.0 done (λ first later.
          All-append (HasImage (gather os manager tasks out.1).2.vm) (place_of task) (places tasks)
            (All-HasImage (place_of task) (places tasks) tasks out.1 (rw same schedule) (
              places-HasImage (length s.vm.disks) (place_of task) (places tasks) s out fills first
                refl schedule))
            (gather-All tasks out.1 rest later))

    -- What a returned machine comes to.
    IsComplete : List ℕ → Result MachineError Vm × List Task × Session → Type 0
    IsComplete ks out = (vm : Vm) → out.0 ≡ ok vm → All (HasImage vm) ks

    started :
        (ks : List ℕ) (late : List Task) (s t : Session) (r : Result MachineError (Unit {0}))
        → t.vm ≡ s.vm
        → All (HasImage s.vm) ks
        → IsComplete ks (
            let out : Result MachineError Vm × List Task × Session = elim r [
              | ok done ↦ (ok t.vm, late, t)
              | err e ↦ clean_up os manager e late t
            ] in
            out)
    unfolding IsComplete clean_up
    started ks late s t (ok done) same h vm e =
        subst (λ (v : Vm). All (HasImage v) ks) (sym same ∙ cc) h
    started ks late s t (err cause) same h vm e = cc

    settle-IsComplete :
        (ks : List ℕ) (out : Result MachineError (Unit {0}) × List Task × Session)
        → (out.0 ≡ ok tt → All (HasImage out.2.vm) ks)
        → IsComplete ks (settle os manager out)
    unfolding settle finish
    settle-IsComplete ks (ok done, late, s) h =
        started ks late s (define_and_start os manager s).1 (define_and_start os manager s).0
          (define_and_start-IsQuiet os manager s).1 (h refl)
    settle-IsComplete ks (err cause, late, s) h = unfold IsComplete clean_up in λ vm e. cc

    named :
        (ks : List ℕ) (t : Session) (tasks : List Task) (r : Result MachineError (Unit {0}))
        → ((gather os manager tasks t).0 ≡ ok tt
            → All (HasImage (gather os manager tasks t).2.vm) ks)
        → IsComplete ks (
            let out : Result MachineError Vm × List Task × Session = elim r [
              | err e ↦ clean_up os manager e (networks ∷ []) t
              | ok done ↦ settle os manager (gather os manager tasks t)
            ] in
            out)
    named ks t tasks (ok done) h = settle-IsComplete ks (gather os manager tasks t) h
    named ks t tasks (err cause) h = unfold IsComplete clean_up in λ vm e. cc

    -- A machine that `allocate_vm` returns has an image at the place of every task, in whatever order the
    -- tasks ran: for all tasks, the boot drive and each of the disks. The tasks fill different places.
    pub allocate_vm_complete :
        (order : List Disk → List Task) (s : Session) (vm : Vm)
        → ((disks : List Disk) → IsSchedule (length disks) (places (order disks)))
        → (allocate_vm os manager order s).0 ≡ ok vm
        → All (HasImage vm) (places (order (name_disks os (length s.calls) vol_names s.vm.disks).1))
    unfolding allocate_vm IsComplete
    allocate_vm_complete order s vm schedule e =
        named (places (order disks)) t (order disks)
          (name_disks os (length s.calls) vol_names s.vm.disks).0
          (gather-All (order disks) t (schedule disks)) vm e
      where
        disks : List Disk
        disks = (name_disks os (length s.calls) vol_names s.vm.disks).1

        t : Session
        t = record s { vm = record s.vm { disks = disks } }
