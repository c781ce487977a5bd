-- ===== src/Pool/Outcome.antt =====
-- The exceptions of p2/src/exceptions that the buffer manager, its hash table and the files throw,
-- and methods that may throw. What a method has changed stays changed when it throws.
use cs564_projects.Prelude.{ℕ, ◌≡◌, ap}

pub data Exception : Type 0 where
  hash_already_present hash_not_found buffer_exceeded page_not_pinned page_pinned bad_buffer :
      Exception
  -- not of the source: a loop that has used up the rounds it is given here
  out_of_rounds : Exception
  invalid_page : ℕ → Exception

pub data Outcome {ℓ} (A : Type ℓ) : Type ℓ where
  ok : A → Outcome A
  throw : Exception → Outcome A

-- A method on an object of type `S`: its outcome, and the object afterwards.
abbrev pub Method {ℓ κ} : Type ℓ → Type κ → Type (ℓ ⊔ κ)
Method S A = S → Outcome A × S

infixr 5 ◌>>=◌ ◌>>◌
abbrev pub ◌>>=◌ {ℓ κ μ} :
    {S : Type ℓ} {A : Type κ} {B : Type μ} → Method S A → (A → Method S B) → Method S B
◌>>=◌ m f s = let (o, s') = m s in elim o [ ok a ↦ f a s' | throw e ↦ (throw e, s') ]

abbrev pub ◌>>◌ {ℓ κ} : {S : Type ℓ} {B : Type κ} → Method S (Unit {0}) → Method S B → Method S B
m >> k = m >>= λ _. k

abbrev pub return {ℓ κ} : {S : Type ℓ} {A : Type κ} → A → Method S A
return a s = (ok a, s)

abbrev pub raise {ℓ κ} : {S : Type ℓ} {A : Type κ} → Exception → Method S A
raise e s = (throw e, s)

module _ {ℓ κ μ} {S : Type ℓ} {A : Type κ} {B : Type μ} (m : Method S A) (f : A → Method S B)
    (s s' : S) where
  -- A method that returns goes on with the next, and one that throws ends there.
  pub bind_ok : (a : A) → m s ≡ (ok a, s') → (m >>= f) s ≡ f a s'
  bind_ok a e = ap (λ x. elim x.0 [ ok b ↦ f b x.1 | throw e ↦ (throw e, x.1) ]) e

  pub bind_throw : (e : Exception) → m s ≡ (throw e, s') → (m >>= f) s ≡ (throw e, s')
  bind_throw e run = ap (λ x. elim x.0 [ ok b ↦ f b x.1 | throw e ↦ (throw e, x.1) ]) run
