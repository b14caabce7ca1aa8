-- ===== src/Pq/Load.antt =====
-- The `try` block of a constructor that loads a row: the members are assigned one after the other,
-- and an exception leaves those that follow as they were.
use pg_cmd_queue.Base.{
  Bool, true, false, List, [], ◌∷◌, ◌++◌, ◌≡◌, ap, ◌∙◌, Fault, out_of_range, runtime_error,
  domain_error, invalid_argument, bad_optional_access, Result, ok, err, ◌>>=◌, if◌then◌else◌,
}

-- The object behind the block, and how the block ended.
pub data Loaded {ℓ} (A : Type ℓ) : Type ℓ where
  finished : A → Loaded A
  threw : Fault → A → Loaded A

module _ {ℓ} {A : Type ℓ} where
  unfoldable pub load : List (A → Result A) → A → Loaded A
  load [] a = finished a
  load (step ∷ steps) a = elim (step a) [ ok b ↦ load steps b | err e ↦ threw e a ]

-- What `catch (std::exception &)` catches.
abbrev pub is_exception : Fault → Bool
is_exception out_of_range = true
is_exception runtime_error = true
is_exception domain_error = true
is_exception invalid_argument = true
is_exception bad_optional_access = true
is_exception _ = false

module _ {ℓ} {A : Type ℓ} where
  -- Each step succeeds, and the last one gives `c`.
  abbrev pub Loads : List (A → Result A) → A → A → Type ℓ
  Loads [] a c = a ≡ c
  Loads (step ∷ steps) a c = (b : A) × ((step a ≡ ok b) × Loads steps b c)

  pub load-Loads :
      (steps : List (A → Result A)) (a c : A) → Loads steps a c → load steps a ≡ finished c
  unfolding load
  load-Loads [] a c h = ap finished h
  load-Loads (step ∷ steps) a c (b, (h, hs)) = rw h (load-Loads steps b c hs)

  -- A step that fails leaves what the steps before it made.
  pub load-Loads_threw :
      (steps : List (A → Result A)) (a b : A) (step : A → Result A) (e : Fault)
      (later : List (A → Result A))
      → Loads steps a b
      → step b ≡ err e
      → load (steps ++ step ∷ later) a ≡ threw e b
  unfolding load
  load-Loads_threw [] a b step e later h f = rw (ap step h ∙ f) (ap (threw e) h)
  load-Loads_threw (s ∷ steps) a c step e later (b, (h, hs)) f =
      rw h (load-Loads_threw steps b c step e later hs f)

-- An error is an exception.
abbrev pub Throws {ℓ} : {A : Type ℓ} → Result A → Type 0
Throws (ok a) = Unit
Throws (err e) = is_exception e ≡ true

abbrev pub AllThrow {ℓ} : {A : Type ℓ} → List (A → Result A) → Type ℓ
AllThrow {A = A} [] = Unit
AllThrow {A = A} (step ∷ steps) = ((a : A) → Throws (step a)) × AllThrow steps

abbrev pub EndsWell {ℓ} : {A : Type ℓ} → Loaded A → Type 0
EndsWell (finished a) = Unit
EndsWell (threw e a) = is_exception e ≡ true

pub load-EndsWell {ℓ} :
    {A : Type ℓ} (steps : List (A → Result A)) (a : A) → AllThrow steps → EndsWell (load steps a)
unfolding load
load-EndsWell [] a h = tt
load-EndsWell (step ∷ steps) a (h, hs) = go (λ b. load-EndsWell steps b hs) (step a) (h a)
  where
    go :
        ((b : _) → EndsWell (load steps b))
        → (r : Result _) → Throws r
        → EndsWell (elim r [ ok b ↦ load steps b | err e ↦ threw e a ])
    go later (ok b) h = later b
    go later (err e) h = h

-- A chain of results throws if its parts do.
pub then_Throws {ℓ κ} :
    {A : Type ℓ} {B : Type κ} (r : Result A) (f : A → Result B)
    → Throws r
    → ((a : A) → Throws (f a))
    → Throws (r >>= f)
then_Throws (ok a) f h g = g a
then_Throws (err e) f h g = h

pub if_Throws {ℓ} :
    {A : Type ℓ} (b : Bool) (x y : Result A) → Throws x → Throws y → Throws (if b then x else y)
if_Throws true x y hx hy = hx
if_Throws false x y hx hy = hy
