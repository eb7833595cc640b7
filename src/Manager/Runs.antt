-- ===== src/Manager/Runs.antt =====
-- How the run of a step splits into its calls.
use p2p_btc_lending.Prelude.{◌≡◌, ◌≢◌, refl, ap, subst, Result, ok, err, panic}
use p2p_btc_lending.Contract.Types.{Error}
use p2p_btc_lending.Manager.World.{Manager, World, Step, continue, lift, read, ◌>>=◌}
use p2p_btc_lending.Storage.{Store}

-- A run that does not return `Ok` has changed nothing.
abbrev pub Quiet : {m : Manager} {C : Type 0} → World m → World m × Result Error C → Type 0
Quiet {C} w p = ((c : C) → p.1 ≢ ok c) → p.0 ≡ w

-- What holds of a run that returns `Ok`.
pub record WhenOk {m : Manager} {C : Type 0} (P : World m → C → Type 0)
    (p : World m × Result Error C) : Type 0 where
  pub holds : (c : C) → p.1 ≡ ok c → P p.0 c

module _ {m : Manager} {A B : Type 0} where
  continue-WhenOk :
      (P : World m → B → Type 0) (f : A → Step m B) (p : World m × Result Error A)
      → ((w : World m) (a : A) → p ≡ (w, ok a) → WhenOk P (f a w))
      → WhenOk P (continue f p)
  continue-WhenOk P f (w, ok a) h = h w a refl
  continue-WhenOk P f (w, err e) h = record { holds = λ b k. absurd (cc k) }
  continue-WhenOk P f (w, panic) h = record { holds = λ b k. absurd (cc k) }

  -- A run that returns `Ok` has passed its first call.
  pub bind-WhenOk :
      {P : World m → B → Type 0} (w : World m) (s : Step m A) (f : A → Step m B)
      → ((w' : World m) (a : A) → s w ≡ (w', ok a) → WhenOk P (f a w'))
      → WhenOk P ((s >>= f) w)
  unfolding ◌>>=◌
  bind-WhenOk {P} w s f h = continue-WhenOk P f (s w) h

  pub lift-WhenOk :
      {P : World m → B → Type 0} (w : World m) (r : Result Error A) (f : A → Step m B)
      → ((a : A) → r ≡ ok a → WhenOk P (f a w))
      → WhenOk P ((lift r >>= f) w)
  lift-WhenOk {P} w r f h =
      bind-WhenOk w (lift r) f
        (λ w' a e. subst (λ w. WhenOk P (f a w)) (ap (λ p. p.0) e) (h a (ap (λ p. p.1) e)))

  pub read-WhenOk :
      {P : World m → B → Type 0} (w : World m) (g : Store m.sled → Result Error A)
      (f : A → Step m B)
      → ((a : A) → g w.store ≡ ok a → WhenOk P (f a w))
      → WhenOk P ((read g >>= f) w)
  read-WhenOk {P} w g f h =
      bind-WhenOk w (read g) f
        (λ w' a e. subst (λ w. WhenOk P (f a w)) (ap (λ p. p.0) e) (h a (ap (λ p. p.1) e)))

  continue-Quiet :
      (w : World m) (f : A → Step m B) (r : Result Error A)
      → ((a : A) → Quiet w (f a w))
      → Quiet w (continue f (w, r))
  continue-Quiet w f (ok a) h = h a
  continue-Quiet w f (err e) h = λ _. refl
  continue-Quiet w f panic h = λ _. refl

  pub lift-Quiet :
      (w : World m) (r : Result Error A) (f : A → Step m B)
      → ((a : A) → Quiet w (f a w))
      → Quiet w ((lift r >>= f) w)
  unfolding ◌>>=◌
  lift-Quiet w r f h = continue-Quiet w f r h

  pub read-Quiet :
      (w : World m) (g : Store m.sled → Result Error A) (f : A → Step m B)
      → ((a : A) → Quiet w (f a w))
      → Quiet w ((read g >>= f) w)
  unfolding ◌>>=◌
  read-Quiet w g f h = continue-Quiet w f (g w.store) h

-- What holds of the world after a run, whatever it returns.
pub record Always {m : Manager} {C : Type 0} (Q : World m → Type 0) (p : World m × Result Error C)
    : Type 0 where
  pub after : Q p.0

module _ {m : Manager} {A B : Type 0} where
  continue-Always :
      (Q : World m → Type 0) (w : World m) (f : A → Step m B) (r : Result Error A)
      → Q w
      → ((a : A) → r ≡ ok a → Always Q (f a w))
      → Always Q (continue f (w, r))
  continue-Always Q w f (ok a) q h = h a refl
  continue-Always Q w f (err e) q h = record { after = q }
  continue-Always Q w f panic q h = record { after = q }

  pub lift-Always :
      {Q : World m → Type 0} (w : World m) (r : Result Error A) (f : A → Step m B)
      → Q w
      → ((a : A) → r ≡ ok a → Always Q (f a w))
      → Always Q ((lift r >>= f) w)
  unfolding ◌>>=◌
  lift-Always {Q} w r f q h = continue-Always Q w f r q h

  pub read-Always :
      {Q : World m → Type 0} (w : World m) (g : Store m.sled → Result Error A) (f : A → Step m B)
      → Q w
      → ((a : A) → g w.store ≡ ok a → Always Q (f a w))
      → Always Q ((read g >>= f) w)
  unfolding ◌>>=◌
  read-Always {Q} w g f q h = continue-Always Q w f (g w.store) q h
