-- ===== src/Run/Keeps.antt =====
-- Actions on the tablet and its device, and what they keep of the tablet.
use tablet_magic.Base.{if◌then◌else◌, Bool, true, false, Option, none, some}
use tablet_magic.Daemon.State.{Tablet}
use tablet_magic.Control.World.{Device, World, Act, ◌>>=◌, ◌>>◌, return}
use tablet_magic.Control.Send.{change}
use tablet_magic.Run.Sound.{Sound}

module _ (d : Device) where
  abbrev pub SoundWorld {ℓ} : {A : Type ℓ} → Option (A × World d) → Type 0
  SoundWorld none = Unit {0}
  SoundWorld (some (a, w)) = Sound w.tablet

  -- A fault says nothing of the tablet.
  abbrev pub Keeps : {A : Type 0} → Act d A → Type 0
  Keeps m = (w : World d) → Sound w.tablet → SoundWorld (m w)

  module _ {A B : Type 0} where
    onwards :
        (f : A → Act d B) (o : Option (A × World d))
        → ((a : A) → Keeps (f a))
        → SoundWorld o
        → SoundWorld {A = B} (elim o [ none ↦ none | some (a, w) ↦ f a w ])
    onwards f none g h = tt
    onwards f (some (a, w)) g h = g a w h

    pub Keeps->>= :
        (m : Act d A) (f : A → Act d B) → Keeps m → ((a : A) → Keeps (f a)) → Keeps (m >>= f)
    Keeps->>= m f k g w h = onwards f (m w) g (k w h)

    pub Keeps->> : (m : Act d A) (n : Act d B) → Keeps m → Keeps n → Keeps (m >> n)
    Keeps->> m n k l = Keeps->>= m (λ a. n) k (λ a. l)

  pub Keeps-return : {A : Type 0} (a : A) → Keeps (return a)
  Keeps-return a w h = h

  pub Keeps-change :
      (f : Tablet → Tablet) → ((t : Tablet) → Sound t → Sound (f t)) → Keeps (change d f)
  Keeps-change f k w h = k w.tablet h

  pub Keeps-Bool :
      {A : Type 0} (b : Bool) (m n : Act d A)
      → Keeps m
      → Keeps n
      → Keeps (elim b [ true ↦ m | false ↦ n ])
  Keeps-Bool true m n k l = k
  Keeps-Bool false m n k l = l

  pub SoundWorld-if :
      {A : Type 0} (b : Bool) (x y : Option (A × World d))
      → SoundWorld x
      → SoundWorld y
      → SoundWorld (if b then x else y)
  SoundWorld-if true x y h k = h
  SoundWorld-if false x y h k = k

  pub SoundWorld-elim :
      {A : Type 0} (b : Bool) (x y : Option (A × World d))
      → SoundWorld x
      → SoundWorld y
      → SoundWorld (elim b [ true ↦ x | false ↦ y ])
  SoundWorld-elim true x y h k = h
  SoundWorld-elim false x y h k = k
