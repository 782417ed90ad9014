-- ===== src/Prelude/Effect.antt =====
-- Go code that calls the outside world `W` and may stop early: an error return, or the answer of a handler.
use mathlib.Core.Path.{◌≡◌, refl, ap}
use mathlib.Core.Bool.{Bool, true, false}
use mathlib.Core.Option.{Option, none, some}
use inari_agent.Prelude.Base.{Outcome, ok, err, ok-injective, if◌then◌else◌}

abbrev pub Effect {ℓ κ} : Type 0 → Type ℓ → Type κ → Type (ℓ ⊔ κ)
Effect W E A = W → Outcome E A × W

module _ {ℓ κ} {W : Type 0} {E : Type ℓ} {A : Type κ} where
  unfoldable pub pure : A → Effect W E A
  pure a w = (ok a, w)

  unfoldable pub stop : E → Effect W E A
  stop e w = (err e, w)

  -- A step that does not touch the world.
  unfoldable pub lift : Outcome E A → Effect W E A
  lift r w = (r, w)

  -- The error of a step becomes another early return.
  unfoldable pub on_error {μ} : {F : Type μ} → (E → F) → Effect W E A → Effect W F A
  on_error f m w = let (r, w') = m w in elim r [ ok a ↦ (ok a, w') | err e ↦ (err (f e), w') ]

infixl 5 ◌>>=◌
unfoldable pub ◌>>=◌ {ℓ κ μ} :
    {W : Type 0} {E : Type ℓ} {A : Type κ} {B : Type μ}
    → Effect W E A
    → (A → Effect W E B)
    → Effect W E B
◌>>=◌ m f w = let (r, w') = m w in elim r [ ok a ↦ f a w' | err e ↦ (err e, w') ]

infixl 5 ◌>>◌
unfoldable pub ◌>>◌ {ℓ κ μ} :
    {W : Type 0} {E : Type ℓ} {A : Type κ} {B : Type μ} → Effect W E A → Effect W E B → Effect W E B
m >> k = m >>= λ _. k

-- A check that returns an error or nothing: `if err := check(); err != nil { return … }`.
unfoldable pub check {ℓ κ} :
    {W : Type 0} {D : Type κ} {E : Type ℓ} → Option D → (D → E) → Effect W E (Unit {0})
check none f w = (ok tt, w)
check (some d) f w = (err (f d), w)

-- A step keeps a predicate of the world.
abbrev pub Keeps {ℓ κ} :
    {W : Type 0} {E : Type ℓ} {A : Type κ} → (W → Type 0) → Effect W E A → Type 0
Keeps I m = (w : _) → I w → I (m w).1

module _ {ℓ κ} {W : Type 0} {E : Type ℓ} {A : Type κ} where
  pub Keeps-bind {μ} :
      {B : Type μ} (I : W → Type 0) (m : Effect W E A) (f : A → Effect W E B)
      → Keeps I m
      → ((a : A) → Keeps I (f a))
      → Keeps I (m >>= f)
  unfolding ◌>>=◌
  Keeps-bind I m f hm hf w h = after (m w) (hm w h)
    where
      after : (p : Outcome E A × W) → I p.1 → I (◌>>=◌ (λ _. p) f w).1
      after (ok a, w') k = hf a w' k
      after (err e, w') k = k

  pub Keeps-then {μ} :
      {B : Type μ} (I : W → Type 0) (m : Effect W E A) (k : Effect W E B)
      → Keeps I m
      → Keeps I k
      → Keeps I (m >> k)
  unfolding ◌>>◌
  Keeps-then I m k hm hk = Keeps-bind I m (λ _. k) hm (λ _. hk)

  -- The same, where what runs behind the step knows what the step returned.
  pub Keeps-known {μ} :
      {B : Type μ} (I : W → Type 0) (m : Effect W E A) (f : A → Effect W E B)
      → Keeps I m
      → ((a : A) (w : W) → (m w).0 ≡ ok a → Keeps I (f a))
      → Keeps I (m >>= f)
  unfolding ◌>>=◌
  Keeps-known I m f hm hf w h = after (m w) (hm w h) (λ a e. hf a w e)
    where
      after :
          (p : Outcome E A × W)
          → I p.1
          → ((a : A) → p.0 ≡ ok a → Keeps I (f a))
          → I (◌>>=◌ (λ _. p) f w).1
      after (ok a, w') k g = g a refl w' k
      after (err e, w') k g = k

  -- The same, where it also knows that the predicate held where the step ran.
  pub Keeps-since {μ} :
      {B : Type μ} (I : W → Type 0) (m : Effect W E A) (f : A → Effect W E B)
      → Keeps I m
      → ((a : A) (w : W) → I w → (m w).0 ≡ ok a → Keeps I (f a))
      → Keeps I (m >>= f)
  unfolding ◌>>=◌
  Keeps-since I m f hm hf w h = Keeps-known I (λ _. m w) f (λ v k. hm w h) (λ a v e. hf a w h e) w h

  pub Keeps-on_error {μ} :
      {F : Type μ} (I : W → Type 0) (f : E → F) (m : Effect W E A)
      → Keeps I m
      → Keeps I (on_error f m)
  unfolding on_error
  Keeps-on_error I f m hm w h = after (m w) (hm w h)
    where
      after : (p : Outcome E A × W) → I p.1 → I (on_error f (λ _. p) w).1
      after (ok a, w') k = k
      after (err e, w') k = k

module _ {ℓ κ} {W : Type 0} {E : Type ℓ} {B : Type κ} (I : W → Type 0) where
  -- What runs behind a check runs where the check found no error.
  pub check-Keeps {μ} :
      {D : Type μ} (d : Option D) (f : D → E) (m : Effect W E B)
      → (d ≡ none → Keeps I m)
      → Keeps I (check d f >> m)
  unfolding check ◌>>◌ ◌>>=◌
  check-Keeps none f m h w k = h refl w k
  check-Keeps (some d) f m h w k = k

  -- What runs behind a step that does not touch the world runs on its result.
  pub lift-Keeps {μ ν} :
      {A : Type μ} {D : Type ν} (r : Outcome D A) (g : D → E) (f : A → Effect W E B)
      → ((a : A) → r ≡ ok a → Keeps I (f a))
      → Keeps I (on_error g (lift r) >>= f)
  unfolding on_error lift ◌>>=◌
  lift-Keeps (ok a) g f h w k = h a refl w k
  lift-Keeps (err d) g f h w k = k

pub pure-Keeps {ℓ κ} :
    {W : Type 0} (E : Type ℓ) {B : Type κ} (I : W → Type 0) (b : B)
    → Keeps {E = E} I (pure {E = E} b)
unfolding pure
pure-Keeps E I b w h = h

pub step-Keeps {ℓ κ} :
    {W : Type 0} {E : Type ℓ} {B : Type κ} (I : W → Type 0) (r : Outcome E B)
    → Keeps I (lift {E = E} r)
unfolding lift
step-Keeps I r w h = h

pub stop-Keeps {ℓ κ} :
    {W : Type 0} {E : Type ℓ} (B : Type κ) (I : W → Type 0) (e : E)
    → Keeps {A = B} I (stop {A = B} e)
unfolding stop
stop-Keeps B I e w h = h

pub on_error-state :
    {W : Type 0} {E : Type 0} {F : Type 0} {A : Type 0} (f : E → F) (m : Effect W E A) (w : W)
    → (on_error f m w).1 ≡ (m w).1
unfolding on_error
on_error-state {W = W} {E = E} {A = A} f m w = pair (m w)
  where
    pair : (p : Outcome E A × W) → (on_error f (λ _. p) w).1 ≡ p.1
    pair (ok a, w') = refl
    pair (err e, w') = refl

pub on_error-ok :
    {W : Type 0} {E : Type 0} {F : Type 0} {A : Type 0} (f : E → F) (m : Effect W E A) (w : W)
    (a : A)
    → (on_error f m w).0 ≡ ok a
    → (m w).0 ≡ ok a
unfolding on_error
on_error-ok {W = W} {E = E} {A = A} f m w a = pair (m w)
  where
    pair : (p : Outcome E A × W) → (on_error f (λ _. p) w).0 ≡ ok a → p.0 ≡ ok a
    pair (ok b, w') h = cc
    pair (err e, w') h = cc

-- The parts of a sequence of two steps that returns a value.
pub bind-ok :
    {W : Type 0} {E : Type 0} {A : Type 0} {B : Type 0} (m : Effect W E A) (f : A → Effect W E B)
    (w : W) (b : B)
    → ((m >>= f) w).0 ≡ ok b
    → (a : A) × ((m w).0 ≡ ok a) × ((f a (m w).1).0 ≡ ok b)
unfolding ◌>>=◌
bind-ok {W = W} {E = E} {A = A} m f w b = pair (m w)
  where
    pair :
        (p : Outcome E A × W)
        → (◌>>=◌ (λ _. p) f w).0 ≡ ok b
        → (a : A) × (p.0 ≡ ok a) × ((f a p.1).0 ≡ ok b)
    pair (ok a, w') h = (a, refl, h)
    pair (err e, w') h = cc

pub either-Keeps {ℓ κ} :
    {W : Type 0} {E : Type ℓ} {A : Type κ} (I : W → Type 0) (b : Bool) (m n : Effect W E A)
    → Keeps I m
    → Keeps I n
    → Keeps I (if b then m else n)
either-Keeps I true m n hm hn = hm
either-Keeps I false m n hm hn = hn

pub bind-run :
    {W : Type 0} {E : Type 0} {A : Type 0} {B : Type 0} (m : Effect W E A) (f : A → Effect W E B)
    (w : W) (a : A)
    → (m w).0 ≡ ok a
    → (m >>= f) w ≡ f a (m w).1
unfolding ◌>>=◌
bind-run {W = W} {E = E} {A = A} {B = B} m f w a = pair (m w)
  where
    pair : (p : Outcome E A × W) → p.0 ≡ ok a → ◌>>=◌ (λ _. p) f w ≡ f a p.1
    pair (ok b, w') h = ap (λ x. f x w') (ok-injective h)
    pair (err e, w') h = cc

-- A check and what runs behind it, by what is to hold of the result and the state.
pub check-run :
    {W : Type 0} {D : Type 0} {E : Type 0} {B : Type 0} (Q : Outcome E B × W → Type 0)
    (d : Option D) (f : D → E) (m : Effect W E B) (w : W)
    → ((x : D) → Q (err (f x), w))
    → (d ≡ none → Q (m w))
    → Q ((check d f >> m) w)
unfolding check ◌>>◌ ◌>>=◌
check-run Q none f m w h k = k refl
check-run Q (some x) f m w h k = h x

pub check-ok :
    {W : Type 0} {D : Type 0} {E : Type 0} {B : Type 0} (d : Option D) (f : D → E)
    (m : Effect W E B) (w : W) (b : B)
    → ((check d f >> m) w).0 ≡ ok b
    → (d ≡ none) × ((m w).0 ≡ ok b)
unfolding check ◌>>◌ ◌>>=◌
check-ok none f m w b h = (refl, h)
check-ok (some d) f m w b h = cc
