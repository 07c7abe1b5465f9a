-- ===== src/Hypervisor/Calls/Quiet.antt =====
-- Steps that make no image and leave the machine object as it is, and what they are built of.
use mathlib.Core.Path.{subst}
use habertest_backend.Base.{none, ◌≡◌, refl, ◌∙◌, inr, ap, length, ◌⊎◌, List, [], ◌∷◌, sym}
use habertest_backend.Base.Exec.{Result, ok, err, ◌>>=◌, >>=-ok}
use habertest_backend.Hypervisor.Calls.{
  Os, Step, Session, Call, MachineError, made, made_by, makes, perform, no_exception,
}

-- A call was made before.
abbrev pub Called : Call → List Call → Type 0
Called c [] = ⊥
Called c (d ∷ calls) = (d ≡ c) ⊎ Called c calls

module _ (os : Os) where
  -- From `s` to `t` no image was made, the machine object stayed, and calls were only added.
  abbrev pub Kept : Session → Session → Type 0
  Kept s t =
      (made os t.calls ≡ made os s.calls)
      × (t.vm ≡ s.vm)
      × ((c : Call) → Called c s.calls → Called c t.calls)

  pub Kept-refl : (s : Session) → Kept s s
  Kept-refl s = (refl, refl, λ c h. h)

  pub Kept-trans : (s t u : Session) → Kept s t → Kept t u → Kept s u
  Kept-trans s t u h k = (k.0 ∙ h.0, k.1 ∙ h.1, λ c called. k.2 c (h.2 c called))

  abbrev pub IsQuiet : {A : Type 0} → Step A → Type 0
  IsQuiet m = (s : Session) → Kept s (m s).1

  pub perform-IsQuiet : (c : Call) → makes c ≡ none → IsQuiet (perform os c)
  perform-IsQuiet c h s = (
    ap (λ o. made_by o (os.answer (length s.calls) c) (made os s.calls)) h,
    refl,
    λ d called. inr called,
  )

  then_quiet :
      {A B : Type 0} (f : A → Step B)
      → ((a : A) → IsQuiet (f a))
      → (s t : Session) (r : Result MachineError A) → Kept s t
      → Kept s
          (let out : Result MachineError B × Session = elim r [
            | ok a ↦ f a t
            | err e ↦ (err e, t)
          ] in
            out).1
  then_quiet f hf s t (ok a) h = Kept-trans s t (f a t).1 h (hf a t)
  then_quiet f hf s t (err e) h = h

  pub >>=-IsQuiet :
      {A B : Type 0} (m : Step A) (f : A → Step B)
      → IsQuiet m
      → ((a : A) → IsQuiet (f a))
      → IsQuiet (m >>= f)
  >>=-IsQuiet m f hm hf s = then_quiet f hf s (m s).1 (m s).0 (hm s)

  pub no_exception-IsQuiet : {A : Type 0} (m : Step A) → IsQuiet m → IsQuiet (no_exception m)
  no_exception-IsQuiet m h s = h s

  -- What was called before a quiet step was called after it, and what the step that follows a success
  -- calls was called in the end.
  Called-in :
      {A B : Type 0} (c : Call) (f : A → Step B)
      → ((a : A) → IsQuiet (f a))
      → (t : Session) (r : Result MachineError A) → Called c t.calls
      → Called c
          (let out : Result MachineError B × Session = elim r [
            | ok a ↦ f a t
            | err e ↦ (err e, t)
          ] in
            out).1.calls
  Called-in c f hf t (ok a) h = (hf a t).2 c h
  Called-in c f hf t (err e) h = h

  pub Called-before :
      {A B : Type 0} (c : Call) (m : Step A) (f : A → Step B) (s : Session)
      → ((a : A) → IsQuiet (f a))
      → Called c (m s).1.calls
      → Called c ((m >>= f) s).1.calls
  Called-before c m f s hf h = Called-in c f hf (m s).1 (m s).0 h

  pub Called-after :
      {A B : Type 0} (c : Call) (m : Step A) (f : A → Step B) (s : Session) (a : A)
      → (m s).0 ≡ ok a
      → Called c (f a (m s).1).1.calls
      → Called c ((m >>= f) s).1.calls
  Called-after {A} {B} c m f s a e h =
      subst (λ (out : Result MachineError B × Session). Called c out.1.calls)
        (sym (>>=-ok m f s (ap (λ (r : Result MachineError A). (r, (m s).1)) e))) h

  -- What follows a step keeps what the step came to.
  pub >>=-Kept :
      {A B : Type 0} (m : Step A) (f : A → Step B) (s : Session)
      → ((a : A) → IsQuiet (f a))
      → Kept (m s).1 ((m >>= f) s).1
  >>=-Kept m f s hf = then_quiet f hf (m s).1 (m s).1 (m s).0 (Kept-refl (m s).1)
