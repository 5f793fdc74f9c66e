-- ===== src/Orchestration/Json/Each.antt =====
-- A loop over members that changes each, and may stop.
use drivers_evergreen_tools.Common.{
  suc, ◌≡◌, refl, sym, ap, subst, arith, List, [], ◌∷◌, length, All, Both, ok,
}
use drivers_evergreen_tools.Common.Exec.{Exec, pure, ◌>>=◌, >>=-succeeds}
use drivers_evergreen_tools.Orchestration.Json.{Fields}
use drivers_evergreen_tools.Orchestration.Json.Refill.{IsMember}

pub returned :
    {S E A : Type 0} {a b : A} {s s' : S}
    → pure {S = S} {E = E} a s ≡ (ok b, s')
    → (b ≡ a) × (s' ≡ s)
unfolding pure
returned h = ground arith

module _ {S E : Type 0} (body : Fields → Exec S E Fields) where
  unfoldable pub each : List Fields → Exec S E (List Fields)
  each [] = pure []
  each (m ∷ ms) = do m' ← body m; ms' ← each ms; pure (m' ∷ ms')

  -- What the body does to one member the loop does to all, in their order; `Then` says what the
  -- state has become.
  pub each-Both :
      (R : Fields → Fields → Type 0) (Then : List Fields → S → S → Type 0)
      → ((s : S) → Then [] s s)
      → ((m m' : Fields) (s s' : S) → body m s ≡ (ok m', s') → R m m' × Then (m ∷ []) s s')
      → ((m : Fields) (ms : List Fields) (s s' s'' : S)
          → Then (m ∷ []) s s'
          → Then ms s' s''
          → Then (m ∷ ms) s s'')
      → (ms ms' : List Fields) (s s' : S) → each ms s ≡ (ok ms', s')
      → Both R ms ms' × Then ms s s'
  unfolding each
  each-Both R Then start one step [] ms' s s' h =
      let (e, kept) = returned h in
      (subst (Both R []) (sym e) tt, subst (Then [] s) (sym kept) (start s))
  each-Both R Then start one step (m ∷ ms) ms' s s' h =
      let (m', s₁, first, rest) = >>=-succeeds (body m) _ s h in
      let (ms'', s₂, others, last) = >>=-succeeds (each ms) _ s₁ rest in
      let (changed, then) = one m m' s s₁ first in
      let (more, thens) = each-Both R Then start one step ms ms'' s₁ s₂ others in
      let (e, kept) = returned last in
      (
        subst (Both R (m ∷ ms)) (sym e) (changed, more),
        subst (Then (m ∷ ms) s) (sym kept) (step m ms s s₁ s₂ then thens),
      )

-- A change that keeps members members.
pub Both-IsMember :
    (R : Fields → Fields → Type 0)
    → ((m m' : Fields) → R m m' → IsMember m → IsMember m')
    → (ms ms' : List Fields) → All IsMember ms
    → Both R ms ms'
    → (length ms' ≡ length ms) × All IsMember ms'
Both-IsMember R keep [] [] all h = (refl, tt)
Both-IsMember R keep [] (m' ∷ ms') all h = elim h [ ]
Both-IsMember R keep (m ∷ ms) [] all h = elim h [ ]
Both-IsMember R keep (m ∷ ms) (m' ∷ ms') all (one, more) =
    let (size, rest) = Both-IsMember R keep ms ms' all.1 more in
    (ap suc size, (keep m m' one all.0, rest))
