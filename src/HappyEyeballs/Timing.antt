-- ===== src/HappyEyeballs/Timing.antt =====
-- When the test ports accept connections.
use drivers_evergreen_tools.Common.{
  ℕ, suc, ◌≤◌, ◌≡◌, ◌≢◌, ◌⊎◌, inl, inr, refl, sym, subst, Bool-cases, arith, true, List, [], ◌∷◌,
  ◌++◌, All, All-append,
}
use drivers_evergreen_tools.HappyEyeballs.{
  Family, ipv4, ipv6, Phase, sleeping, serving, closed, Contact, Session, same_family, delay,
  payload_of, set_phase, Step, ticks, starts, accepts, sets, stops, Reachable, start, step,
}

-- One second behind the binding of the ports, and two seconds for the slow family.
pub record IsDue (slow family : Family) (now : ℕ) : Type 0 where
  pub second : 1000 ≤ now
  pub two : family ≡ slow → 2000 ≤ now

delay-IsDue : (slow family : Family) (now : ℕ) → delay slow family ≤ now → IsDue slow family now
unfolding delay
delay-IsDue ipv4 ipv4 now h = record { second = omega (arith, h); two = λ e. h }
delay-IsDue ipv4 ipv6 now h = record { second = h; two = λ e. cc }
delay-IsDue ipv6 ipv4 now h = record { second = h; two = λ e. cc }
delay-IsDue ipv6 ipv6 now h = record { second = omega (arith, h); two = λ e. h }

-- The contact was not before its port was due, and was written the family's byte.
pub record IsTimely (slow : Family) (now : ℕ) (c : Contact) : Type 0 where
  pub late : IsDue slow c.family c.at
  pub past : c.at ≤ now
  pub byte : c.payload ≡ payload_of c.family

pub record IsSound (slow : Family) (s : Session) : Type 0 where
  pub timely : All (IsTimely slow s.now) s.contacts
  pub awake : (family : Family) → s.phase family ≢ sleeping → IsDue slow family s.now
  pub told : s.connected ≡ true → s.contacts ≢ []
  pub left : (family : Family) → s.phase family ≡ closed → s.connected ≡ true

tick-IsDue : (slow family : Family) (now : ℕ) → IsDue slow family now → IsDue slow family (suc now)
tick-IsDue slow family now h = record {
  second = omega (arith, h.second);
  two = λ e. omega (arith, h.two e);
}

later :
    (slow : Family) (now : ℕ) (cs : List Contact)
    → All (IsTimely slow now) cs
    → All (IsTimely slow (suc now)) cs
later slow now [] h = tt
later slow now (c ∷ cs) (h, hs) =
    (record { late = h.late; past = omega (arith, h.past); byte = h.byte }, later slow now cs hs)

snoc_some : {A : Type 0} (xs : List A) (x : A) → xs ++ x ∷ [] ≢ []
snoc_some [] x = λ e. cc
snoc_some (y ∷ ys) x = λ e. cc

same_family_lem : (a b : Family) → same_family a b ≡ true → a ≡ b
same_family_lem ipv4 ipv4 h = refl
same_family_lem ipv4 ipv6 h = cc
same_family_lem ipv6 ipv4 h = cc
same_family_lem ipv6 ipv6 h = refl

-- The phase of a family behind a change of one phase.
changed_lem :
    (family other : Family) (p q : Phase) (s : Session)
    → (set_phase family p s).phase other ≡ q
    → ((other ≡ family) × (p ≡ q)) ⊎ (s.phase other ≡ q)
changed_lem family other p q s h = elim (Bool-cases (same_family other family)) [
  | inl e ↦ inl (same_family_lem other family e, rw e at h)
  | inr e ↦ inr (rw e at h)
]

step-IsSound : (slow : Family) (s s' : Session) → IsSound slow s → Step slow s s' → IsSound slow s'
step-IsSound slow s _ h (ticks _) = record {
  timely = later slow s.now s.contacts h.timely;
  awake = λ family e. tick-IsDue slow family s.now (h.awake family e);
  told = h.told;
  left = h.left;
}
step-IsSound slow s _ h (starts _ family e d) = record {
  timely = h.timely;
  awake = λ other n. elim (Bool-cases (same_family other family)) [
    | inl t ↦
        subst (λ f. IsDue slow f s.now) (sym (same_family_lem other family t))
          (delay-IsDue slow family s.now d)
    | inr f ↦ h.awake other (rw f at n)
  ];
  told = h.told;
  left = λ other k. elim (changed_lem family other serving closed s k) [
    | inl p ↦ cc
    | inr q ↦ h.left other q
  ];
}
step-IsSound slow s _ h (accepts _ family e) = record {
  timely =
      All-append _ s.contacts _ h.timely
        (record { late = h.awake family (λ k. cc); past = omega arith; byte = refl }, tt);
  awake = h.awake;
  told = λ _. snoc_some s.contacts _;
  left = h.left;
}
step-IsSound slow s _ h (sets _ n) = record {
  timely = h.timely;
  awake = h.awake;
  told = λ _. n;
  left = λ family e. refl;
}
step-IsSound slow s _ h (stops _ family e c) = record {
  timely = h.timely;
  awake = λ other n. elim (Bool-cases (same_family other family)) [
    | inl t ↦
        subst (λ f. IsDue slow f s.now) (sym (same_family_lem other family t))
          (h.awake family (λ k. cc))
    | inr f ↦ h.awake other (rw f at n)
  ];
  told = h.told;
  left = λ other k. c;
}

-- In every session of the two test ports, a client has been accepted, and written the byte of the
-- port's family, only after the family's delay: two seconds for the slow family, one for the other.
-- The event is set, and a port closed, only after a client was accepted.
pub Reachable-IsSound : (slow : Family) (s : Session) → Reachable slow s → IsSound slow s
Reachable-IsSound slow _ start = record {
  timely = tt;
  awake = λ family n. absurd (n refl);
  told = λ e. cc;
  left = λ family e. cc;
}
Reachable-IsSound slow _ (step {s = s} {s' = s'} r t) =
    step-IsSound slow s s' (Reachable-IsSound slow s r) t
