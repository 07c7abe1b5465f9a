-- ===== src/Hypervisor/Devices/SetUp.antt =====
-- How the set-up of the network device ends.
use Prim.Native.String.{◌++◌}
use mathlib.Core.Path.{subst, sym, ap}
use habertest_backend.Base.{
  String, List, ◌∷◌, Bool-cases, true, false, inl, inr, arith, ◌≡◌, refl, Bool,
}
use habertest_backend.Base.Exec.{Result, ok, err}
use habertest_backend.Hypervisor.Devices.{
  IpInterface, NetError, run_cmd, device_exists, delete_net_device, delete_routes, take_down,
  clean_up, build, setup_macvlan_device,
}

module _ (succeeds : List String → String → Bool) where
  -- What was run in the end, after the commands `before` of the set-up, of which one failed: the device
  -- was not there; it was deleted; or one of the two commands that remove it failed.
  data IsTidied (device : String) (before ran : List String) : Type 0 where
    absent :
        succeeds before ("ip link show " ++ device) ≡ false
        → ran ≡ ("ip link show " ++ device) ∷ before
        → IsTidied device before ran
    deleted :
        succeeds
            (("ip route flush dev " ++ device) ∷ ("ip link show " ++ device) ∷ before)
            ("ip link del " ++ device)
          ≡ true
        → ran
          ≡ ("ip link del " ++ device)
            ∷ ("ip route flush dev " ++ device)
            ∷ ("ip link show " ++ device)
            ∷ before
        → IsTidied device before ran
    not_flushed :
        succeeds (("ip link show " ++ device) ∷ before) ("ip route flush dev " ++ device) ≡ false
        → ran ≡ ("ip route flush dev " ++ device) ∷ ("ip link show " ++ device) ∷ before
        → IsTidied device before ran
    not_deleted :
        succeeds
            (("ip route flush dev " ++ device) ∷ ("ip link show " ++ device) ∷ before)
            ("ip link del " ++ device)
          ≡ false
        → ran
          ≡ ("ip link del " ++ device)
            ∷ ("ip route flush dev " ++ device)
            ∷ ("ip link show " ++ device)
            ∷ before
        → IsTidied device before ran

  clean_up-IsTidied :
      (device : String) (before : List String)
      → ((clean_up succeeds device before).0 ≡ ok tt)
        × IsTidied device before (clean_up succeeds device before).1
  unfolding clean_up take_down device_exists delete_routes delete_net_device run_cmd
  clean_up-IsTidied device before =
      elim (Bool-cases (succeeds before ("ip link show " ++ device))) [
        | inr gone ↦ (ground (arith, gone), absent gone (ground (arith, gone)))
        | inl there ↦
            elim (Bool-cases
              (succeeds (("ip link show " ++ device) ∷ before) ("ip route flush dev " ++ device))) [
                | inr kept ↦
                    (ground (arith, there, kept), not_flushed kept (ground (arith, there, kept)))
                | inl flushed ↦
                    elim (Bool-cases (
                      succeeds
                        (("ip route flush dev " ++ device) ∷ ("ip link show " ++ device) ∷ before)
                        ("ip link del " ++ device))) [
                          | inl done ↦ (
                            ground (arith, there, flushed, done),
                            deleted done (ground (arith, there, flushed, done)),
                          )
                          | inr stays ↦ (
                            ground (arith, there, flushed, stays),
                            not_deleted stays (ground (arith, there, flushed, stays)),
                          )
                        ]
              ]
      ]

  data Outcome (eth_device : String) (ip_iface : IpInterface) (device : String)
      (before ran : List String) : Type 0 where
    built :
        build succeeds eth_device ip_iface device before ≡ (ok tt, ran)
        → Outcome eth_device ip_iface device before ran
    tidied :
        (e : NetError) (until : List String)
        → build succeeds eth_device ip_iface device before ≡ (err e, until)
        → IsTidied device until ran
        → Outcome eth_device ip_iface device before ran

  settled :
      (eth_device : String) (ip_iface : IpInterface) (device : String) (before : List String)
      (o : Result NetError (Unit {0}) × List String)
      → build succeeds eth_device ip_iface device before ≡ o
      → setup_macvlan_device succeeds eth_device ip_iface device before
        ≡ elim o.0 [ ok done ↦ (ok tt, o.1) | err e ↦ clean_up succeeds device o.1 ]
  unfolding setup_macvlan_device
  settled eth_device ip_iface device before o h =
      ap
        (λ (x : Result NetError (Unit {0}) × List String). elim x.0 [
          | ok done ↦ (ok tt, x.1)
          | err e ↦ clean_up succeeds device x.1
        ])
        h

  outcome-of-build :
      (eth_device : String) (ip_iface : IpInterface) (device : String) (before : List String)
      (o : Result NetError (Unit {0}) × List String)
      → build succeeds eth_device ip_iface device before ≡ o
      → ((setup_macvlan_device succeeds eth_device ip_iface device before).0 ≡ ok tt)
        × Outcome eth_device ip_iface device before
            (setup_macvlan_device succeeds eth_device ip_iface device before).1
  outcome-of-build eth_device ip_iface device before (ok done, ran) h =
      subst
        (λ (o : Result NetError (Unit {0}) × List String).
          (o.0 ≡ ok tt) × Outcome eth_device ip_iface device before o.1)
        (sym (settled eth_device ip_iface device before (ok done, ran) h)) (refl, built h)
  outcome-of-build eth_device ip_iface device before (err e, until) h =
      subst
        (λ (o : Result NetError (Unit {0}) × List String).
          (o.0 ≡ ok tt) × Outcome eth_device ip_iface device before o.1)
        (sym (settled eth_device ip_iface device before (err e, until) h))
        ((clean_up-IsTidied device until).0, tidied e until h (clean_up-IsTidied device until).1)

  -- The set-up of the device raises nothing, whatever fails. Either its six commands succeeded, or one of
  -- them failed and then the device was looked for, and, if it was there, its routes and it itself were
  -- deleted, as far as these commands succeed.
  setup_macvlan_device-Outcome :
      (eth_device : String) (ip_iface : IpInterface) (device : String) (before : List String)
      → ((setup_macvlan_device succeeds eth_device ip_iface device before).0 ≡ ok tt)
        × Outcome eth_device ip_iface device before
            (setup_macvlan_device succeeds eth_device ip_iface device before).1
  setup_macvlan_device-Outcome eth_device ip_iface device before =
      outcome-of-build eth_device ip_iface device before
        (build succeeds eth_device ip_iface device before) refl
