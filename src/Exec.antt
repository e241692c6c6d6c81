-- ===== src/Exec.antt =====
-- Code that acts on the operating system: from a world to a result and a world. What was done
-- before an error stays done, so the world comes back beside the error too.
use marstack_container.Prelude.{
  ◌≡◌, refl, sym, ◌∙◌, Bool, true, false, Option, none, some, List, [], ◌∷◌, ◌++◌, All, arith,
}
use marstack_container.Error.{Error, Result, ok, err}

abbrev pub Exec : Type 0 → Type 0 → Type 0
Exec W A = W → Result A × W

module _ {W A : Type 0} where
  abbrev pub pure : A → Exec W A
  pure a w = (ok a, w)

  abbrev pub raise : Error → Exec W A
  raise e w = (err e, w)

  abbrev pub lift : Result A → Exec W A
  lift r w = (r, w)

  -- What an observation of the world gives.
  abbrev pub gets : (W → A) → Exec W A
  gets f w = (ok (f w), w)

  abbrev pub look : (W → Result A) → Exec W A
  look f w = (f w, w)

module _ {W A B : Type 0} where
  abbrev pub continue : Result A × W → (A → Exec W B) → Result B × W
  continue (ok a, w) f = f a w
  continue (err e, w) f = (err e, w)

  infixl 5 ◌>>=◌ ◌>>◌
  abbrev pub ◌>>=◌ : Exec W A → (A → Exec W B) → Exec W B
  ◌>>=◌ m f w = continue (m w) f

  abbrev pub ◌>>◌ : Exec W A → Exec W B → Exec W B
  m >> k = m >>= λ _. k

-- A call whose result is looked at, whatever it is.
abbrev pub attempt : {W A : Type 0} → Exec W A → Exec W (Result A)
attempt m w = let (outcome, after) = m w in (ok outcome, after)

-- `let _ = f();`
abbrev pub ignore : {W A : Type 0} → Exec W A → Exec W (Unit {0})
ignore m w = let (r, w') = m w in (ok tt, w')

abbrev pub guard : {W : Type 0} → Bool → Error → Exec W (Unit {0})
guard true e w = (ok tt, w)
guard false e w = (err e, w)

-- `if test { f()?; }`
abbrev pub when : {W : Type 0} → Bool → Exec W (Unit {0}) → Exec W (Unit {0})
when true m w = m w
when false m w = (ok tt, w)

-- `if let Some(x) = o { f(x)?; }`
abbrev pub if_some : {W A : Type 0} → Option A → (A → Exec W (Unit {0})) → Exec W (Unit {0})
if_some none f w = (ok tt, w)
if_some (some x) f w = f x w

-- A `for` loop whose body may return an error.
unfoldable pub for_each : {W A : Type 0} → (A → Exec W (Unit {0})) → List A → Exec W (Unit {0})
for_each f [] w = (ok tt, w)
for_each f (x ∷ xs) w = continue (f x w) (λ _. for_each f xs)

module _ {W A B : Type 0} where
  pub continue-eq-ok :
      (p : Result A × W) (f : A → Exec W B) {b : B} {w' : W}
      → continue p f ≡ (ok b, w')
      → (a : A) × (v : W) × (p ≡ (ok a, v)) × (f a v ≡ (ok b, w'))
  continue-eq-ok (ok a, v) f h = (a, v, refl, h)
  continue-eq-ok (err e, v) f h = cc

  -- A chain that succeeds has succeeded at its first step and, from there, at the rest.
  pub bind-eq-ok :
      (m : Exec W A) (f : A → Exec W B) (w : W) {b : B} {w' : W}
      → (m >>= f) w ≡ (ok b, w')
      → (a : A) × (v : W) × (m w ≡ (ok a, v)) × (f a v ≡ (ok b, w'))
  bind-eq-ok m f w h = continue-eq-ok (m w) f h

  look-bind-eq-ok_of :
      (r : Result A) (f : A → Exec W B) (w : W) {b : B} {w' : W}
      → continue (r, w) f ≡ (ok b, w')
      → (a : A) × (r ≡ ok a) × (f a w ≡ (ok b, w'))
  look-bind-eq-ok_of (ok a) f w h = (a, refl, h)
  look-bind-eq-ok_of (err e) f w h = cc

  -- The same where the first step only looks: the rest starts in the same world.
  pub look-bind-eq-ok :
      (g : W → Result A) (f : A → Exec W B) (w : W) {b : B} {w' : W}
      → (look g >>= f) w ≡ (ok b, w')
      → (a : A) × (g w ≡ ok a) × (f a w ≡ (ok b, w'))
  look-bind-eq-ok g f w h = look-bind-eq-ok_of (g w) f w h

module _ {W : Type 0} where
  pub guard-eq-ok :
      (b : Bool) (e : Error) (w : W) {w' : W} → guard b e w ≡ (ok tt, w') → (b ≡ true) × (w' ≡ w)
  guard-eq-ok b e w h = ground arith

  -- A loop of checks that succeeds has checked each element, and leaves the world as it was.
  pub for_each-All :
      {A : Type 0} (f : A → Exec W (Unit {0})) (P : A → Type 0) (w : W)
      → ((x : A) (v : W) → f x w ≡ (ok tt, v) → P x × (v ≡ w))
      → (xs : List A) (w' : W) → for_each f xs w ≡ (ok tt, w')
      → All P xs × (w' ≡ w)
  unfolding for_each
  for_each-All f P w step [] w' h = (tt, ground arith)
  for_each-All f P w step (x ∷ xs) w' h =
      let (_, v, first, others) = continue-eq-ok (f x w) (λ _. for_each f xs) h in
      let (checked, same) = step x v first in
      let (rest, kept) = for_each-All f P w step xs w' (rw same at others) in
      ((checked, rest), kept)

  -- A loop that succeeds has run its body on each element with success.
  pub for_each-each :
      {A : Type 0} (f : A → Exec W (Unit {0})) (P : A → Type 0)
      → ((x : A) (v v' : W) → f x v ≡ (ok tt, v') → P x)
      → (xs : List A) (w w' : W) → for_each f xs w ≡ (ok tt, w')
      → All P xs
  unfolding for_each
  for_each-each f P step [] w w' h = tt
  for_each-each f P step (x ∷ xs) w w' h =
      let (_, v, first, others) = continue-eq-ok (f x w) (λ _. for_each f xs) h in
      (step x w v first, for_each-each f P step xs v w' others)

-- A step that is taken exactly if a test holds.
abbrev pub TakenIf : {W : Type 0} → Bool → (W → W → Type 0) → W → W → Type 0
TakenIf true Step v u = Step v u
TakenIf false Step v u = v ≡ u

-- Steps for the elements of a list, one after the other, each from where the last one ended.
abbrev pub Chain : {X W : Type 0} → (X → W → W → Type 0) → List X → W → W → Type 0
Chain Step [] w w' = w ≡ w'
Chain {W = W} Step (x ∷ xs) w w' = (v : W) × Step x w v × Chain Step xs v w'

pub for_each-Chain :
    {W X : Type 0} (f : X → Exec W (Unit {0})) (Step : X → W → W → Type 0)
    → ((x : X) (v v' : W) → f x v ≡ (ok tt, v') → Step x v v')
    → (xs : List X) (w w' : W) → for_each f xs w ≡ (ok tt, w')
    → Chain Step xs w w'
unfolding for_each
for_each-Chain f Step step [] w w' h = ground arith
for_each-Chain f Step step (x ∷ xs) w w' h =
    let (_, v, first, others) = continue-eq-ok (f x w) (λ _. for_each f xs) h in
    (v, step x w v first, for_each-Chain f Step step xs v w' others)

module _ {W A B C : Type 0} where
  pub continue_assoc :
      (r : Result A × W) (g : A → Exec W B) (k : B → Exec W C)
      → continue (continue r g) k ≡ continue r (λ a v. continue (g a v) k)
  continue_assoc (ok a, v) g k = refl
  continue_assoc (err e, v) g k = refl

pub continue_unit : {W : Type 0} (r : Result (Unit {0}) × W) → continue r (λ u v. (ok tt, v)) ≡ r
continue_unit (ok u, v) = refl
continue_unit (err e, v) = refl

-- Loops in pieces: over two lists, over one element, and over an element that may be there.
module _ {W A : Type 0} (f : A → Exec W (Unit {0})) where
  pub for_each-append :
      (xs ys : List A) (w : W)
      → for_each f (xs ++ ys) w ≡ continue (for_each f xs w) (λ _. for_each f ys)
  unfolding for_each
  for_each-append [] ys w = refl
  for_each-append (x ∷ xs) ys w =
      (λ i. continue (f x w) (λ _ v. for_each-append xs ys v i))
      ∙ sym (continue_assoc (f x w) (λ _. for_each f xs) (λ _. for_each f ys))

  pub for_each_one : (x : A) (w : W) → for_each f (x ∷ []) w ≡ f x w
  unfolding for_each
  for_each_one x w = continue_unit (f x w)

-- The elements of an optional value.
abbrev pub optional : {A B : Type 0} → (A → B) → Option A → List B
optional g none = []
optional g (some x) = g x ∷ []

pub for_each-optional :
    {W A B : Type 0} (f : B → Exec W (Unit {0})) (g : A → B) (o : Option A) (w : W)
    → for_each f (optional g o) w ≡ if_some o (λ x. f (g x)) w
unfolding for_each
for_each-optional f g none w = refl
for_each-optional f g (some x) w = for_each_one f (g x) w
