-- ===== src/Common/Exec.antt =====
-- Methods that change a state and may stop early, by an exception or a `return`. What was done
-- before the stop stays done.
use mathlib.Core.Path.{◌≡◌, refl}
use drivers_evergreen_tools.Common.Outcomes.{Result, ok, raise}

abbrev pub Exec {ℓ} : Type ℓ → Type ℓ → Type ℓ → Type ℓ
Exec S E A = S → Result E A × S

module _ {ℓ} {S E A : Type ℓ} where
  unfoldable pub pure : A → Exec S E A
  pure a s = (ok a, s)

  unfoldable pub stop : E → Exec S E A
  stop e s = (raise e, s)

module _ {ℓ} {S E A B : Type ℓ} where
  unfoldable pub continue : Result E A → (A → Exec S E B) → Exec S E B
  continue (ok a) f s = f a s
  continue (raise e) f s = (raise e, s)

  infixl 10 ◌>>=◌ ◌>>◌
  unfoldable pub ◌>>=◌ : Exec S E A → (A → Exec S E B) → Exec S E B
  unfolding continue pure stop
  ◌>>=◌ m f s = let (r, s') = m s in continue r f s'

  abbrev pub ◌>>◌ : Exec S E A → Exec S E B → Exec S E B
  m >> n = m >>= λ _. n

-- What a chain that succeeds went through.
pub >>=-succeeds {ℓ} :
    {S E A B : Type ℓ} (m : Exec S E A) (f : A → Exec S E B) (s : S) {b : B} {s' : S}
    → (m >>= f) s ≡ (ok b, s')
    → (a : A) × (s₁ : S) × (m s ≡ (ok a, s₁)) × (f a s₁ ≡ (ok b, s'))
unfolding ◌>>=◌
>>=-succeeds {S = S} {E = E} {A = A} m f s {b = b} {s' = s'} h = after (m s).0 (m s).1 refl h
  where
    after :
        (r : Result E A) (s₁ : S)
        → m s ≡ (r, s₁)
        → continue r f s₁ ≡ (ok b, s')
        → (a : A) × (s₁ : S) × (m s ≡ (ok a, s₁)) × (f a s₁ ≡ (ok b, s'))
    after (ok a) s₁ e k = (a, s₁, e, k)
    after (raise e) s₁ _ k = cc
