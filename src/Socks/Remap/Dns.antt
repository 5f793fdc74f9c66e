-- ===== src/Socks/Remap/Dns.antt =====
-- What `add_dns_remappings` adds, and that it ends.
use drivers_evergreen_tools.Common.{
  ℕ, zero, suc, ◌+◌, ◌≤◌, ◌≡◌, refl, sym, ◌∙◌, Bool, true, ◌||◌, List, [], ◌∷◌, ◌++◌, append-nil,
  append_assoc, some, some-injective, arith, any-append, length, All, All-map, All-append, All-left,
  Option-cases, inl, inr,
}
use drivers_evergreen_tools.Common.Text.{Text, text_eq_iff}
use drivers_evergreen_tools.Socks.Remap.{
  Host, raw, str, HostPort, Mapping, host_eq, same, Address, Resolver, source_of, is_source,
  is_inet, new_entries, dns_loop, weight, total_weight, add_dns_remappings, remap,
}

host_eq_refl : (h : Host) → host_eq h h ≡ true
unfolding host_eq
host_eq_refl (raw a) = (text_eq_iff a a).1 refl
host_eq_refl (str a) = (text_eq_iff a a).1 refl

same_refl : (a : HostPort) → same a a ≡ true
unfolding same
same_refl a = ground (arith, host_eq_refl a.host)

-- The bound source: `is_source` is kept by more mappings.
is_source-left :
    (hp : HostPort) (xs ys : List Mapping) → is_source hp xs ≡ true → is_source hp (xs ++ ys) ≡ true
is_source-left hp xs ys h = ground (arith, any-append (λ (m : Mapping). same hp m.src) xs ys)

is_source-right :
    (hp : HostPort) (xs ys : List Mapping) → is_source hp ys ≡ true → is_source hp (xs ++ ys) ≡ true
is_source-right hp xs ys h = ground (arith, any-append (λ (m : Mapping). same hp m.src) xs ys)

abbrev pub Sourced : List Mapping → List Mapping → Type 0
Sourced mappings = All (λ m. is_source m.src mappings ≡ true)

Sourced-self : (ms : List Mapping) → Sourced ms ms
Sourced-self [] = tt
Sourced-self (m ∷ ms) = (
  ground (arith, same_refl m.src),
  All-map (λ x h. is_source-right x.src (m ∷ []) ms h) ms (Sourced-self ms),
)

-- The loop only adds at the end.
dns_loop-extends :
    (resolve : Resolver) (f : ℕ) (all pending out : List Mapping)
    → dns_loop resolve f all pending ≡ some out
    → (extra : List Mapping) × (out ≡ all ++ extra)
unfolding dns_loop
dns_loop-extends resolve f all [] out h = ([], ground (arith, append-nil all))
dns_loop-extends resolve zero all (m ∷ pending) out h = cc
dns_loop-extends resolve (suc f) all (m ∷ pending) out h =
    elim (Option-cases (resolve m.src.host m.src.port)) [
      | inl e ↦ dns_loop-extends resolve f all pending out (rw (e, dns_loop) at h)
      | inr (addrs, e) ↦
          let more = new_entries all m.dst addrs in
          let (extra, k) =
            dns_loop-extends resolve f (all ++ more) (pending ++ more) out
              (rw (e, dns_loop) at h) in
          (more ++ extra, k ∙ append_assoc all more extra)
    ]

remap-append :
    (hp : HostPort) (xs ys : List Mapping)
    → is_source hp xs ≡ true
    → remap (xs ++ ys) hp ≡ remap xs hp
unfolding remap
remap-append hp [] ys h = cc
remap-append hp (m ∷ xs) ys h = ground (arith, remap-append hp xs ys)

-- A source that the command line names keeps its destination, whatever names resolve to.
pub remap-add_dns_remappings :
    (resolve : Resolver) (mappings out : List Mapping) (hp : HostPort)
    → add_dns_remappings resolve mappings ≡ some out
    → is_source hp mappings ≡ true
    → remap out hp ≡ remap mappings hp
unfolding add_dns_remappings
remap-add_dns_remappings resolve mappings out hp h s =
    let (extra, e) = dns_loop-extends resolve _ mappings mappings out h in
    rw e (remap-append hp mappings extra s)

-- The addresses of a list are sources of the mappings.
abbrev pub Covers : List Mapping → List Address → Type 0
Covers mappings = All (λ a. is_inet a.family ≡ true → is_source (source_of a) mappings ≡ true)

abbrev is_found : HostPort → List Mapping → List Mapping → Bool
is_found hp existing more = is_source hp existing || is_source hp more

new_entries-found :
    (existing : List Mapping) (dst : HostPort) (addrs : List Address)
    → All
        (λ a.
          is_inet a.family ≡ true
          → is_found (source_of a) existing (new_entries existing dst addrs) ≡ true)
        addrs
unfolding new_entries
new_entries-found existing dst [] = tt
new_entries-found existing dst (a ∷ addrs) = (
  λ i. ground (arith, same_refl (source_of a)),
  All-map (λ b h i. ground (arith, h i)) addrs (new_entries-found existing dst addrs),
)

-- After the loop every address of a pending mapping is a source.
dns_loop-Covers :
    (resolve : Resolver) (f : ℕ) (all pending out : List Mapping)
    → dns_loop resolve f all pending ≡ some out
    → All
        (λ m.
          (addrs : List Address) → resolve m.src.host m.src.port ≡ some addrs → Covers out addrs)
        pending
unfolding dns_loop
dns_loop-Covers resolve f all [] out h = tt
dns_loop-Covers resolve zero all (m ∷ pending) out h = cc
dns_loop-Covers resolve (suc f) all (m ∷ pending) out h =
    elim (Option-cases (resolve m.src.host m.src.port)) [
      | inl e ↦
          (λ addrs k. cc (e, k), dns_loop-Covers resolve f all pending out (rw (e, dns_loop) at h))
      | inr (addrs, e) ↦
          let more = new_entries all m.dst addrs in
          let h' : dns_loop resolve f (all ++ more) (pending ++ more) ≡ some out =
            rw (e, dns_loop) at h in
          let (extra, k) = dns_loop-extends resolve f (all ++ more) (pending ++ more) out h' in
          (
            λ addrs' k'.
                let same_addrs : addrs ≡ addrs' = some-injective addrs addrs' (sym e ∙ k') in
                rw (← same_addrs) (
                  All-map
                    (λ a found i. rw k (
                      is_source-left (source_of a) (all ++ more) extra (
                        ground (
                          arith,
                          found i,
                          any-append (λ (x : Mapping). same (source_of a) x.src) all more,
                        ))))
                    addrs (new_entries-found all m.dst addrs)),
            All-left _ pending more
                (dns_loop-Covers resolve f (all ++ more) (pending ++ more) out h'),
          )
    ]

-- Every IPv4 and IPv6 address that a mapped name resolves to is itself mapped afterwards.
pub add_dns_remappings-Covers :
    (resolve : Resolver) (mappings out : List Mapping)
    → add_dns_remappings resolve mappings ≡ some out
    → All
        (λ m.
          (addrs : List Address) → resolve m.src.host m.src.port ≡ some addrs → Covers out addrs)
        mappings
unfolding add_dns_remappings
add_dns_remappings-Covers resolve mappings out h = dns_loop-Covers resolve _ mappings mappings out h

-- `getaddrinfo` of an address in text form gives that address, or fails.
pub record IsNumeric (resolve : Resolver) : Type 0 where
  pub at :
      (h : Text) (p : ℕ) (addrs : List Address)
      → resolve (str h) p ≡ some addrs
      → All (λ a. (a.host ≡ h) × (a.port ≡ p)) addrs

new_entries-known :
    (existing : List Mapping) (dst : HostPort) (addrs : List Address)
    → All (λ a. is_source (source_of a) existing ≡ true) addrs
    → new_entries existing dst addrs ≡ []
unfolding new_entries
new_entries-known existing dst [] h = refl
new_entries-known existing dst (a ∷ addrs) h =
    ground (arith, new_entries-known existing dst addrs h.1, h.0)

weight-new_entries :
    (resolve : Resolver) (existing : List Mapping) (dst : HostPort) (addrs : List Address)
    → total_weight resolve (new_entries existing dst addrs) ≤ length addrs
unfolding total_weight new_entries
weight-new_entries resolve existing dst [] = omega arith
weight-new_entries resolve existing dst (a ∷ addrs) =
    ground (arith, weight-new_entries resolve existing dst addrs)

total_weight-append :
    (resolve : Resolver) (xs ys : List Mapping)
    → total_weight resolve (xs ++ ys) ≡ total_weight resolve xs + total_weight resolve ys
unfolding total_weight
total_weight-append resolve [] ys = omega arith
total_weight-append resolve (m ∷ xs) ys = omega (arith, total_weight-append resolve xs ys)

-- One round lowers the weight of what is pending.
round_weight :
    (resolve : Resolver) (numeric : IsNumeric resolve) (all : List Mapping) (h : Host) (p : ℕ)
    (dst : HostPort) (addrs : List Address)
    → is_source (record { host = h; port = p }) all ≡ true
    → resolve h p ≡ some addrs
    → suc (total_weight resolve (new_entries all dst addrs))
      ≤ weight resolve (record { src = record { host = h; port = p }; dst = dst })
round_weight resolve numeric all (raw h) p dst addrs s e =
    rw e (omega (arith, weight-new_entries resolve all dst addrs))
round_weight resolve numeric all (str h) p dst addrs s e =
    rw
      (new_entries-known all dst addrs
        (All-map (λ a k. rw (k.0, k.1) s) addrs (numeric.at h p addrs e)))
      (unfold total_weight in omega arith)

new_entries-Sourced : (all : List Mapping) (more : List Mapping) → Sourced (all ++ more) more
new_entries-Sourced all more =
    All-map (λ x h. is_source-right x.src all more h) more (Sourced-self more)

weight_pos :
    (resolve : Resolver) (h : Host) (p : ℕ) (dst : HostPort)
    → 1 ≤ weight resolve (record { src = record { host = h; port = p }; dst = dst })
weight_pos resolve (raw h) p dst = omega arith
weight_pos resolve (str h) p dst = omega arith

dns_loop-total :
    (resolve : Resolver) (numeric : IsNumeric resolve) (f : ℕ) (all pending : List Mapping)
    → Sourced all pending
    → total_weight resolve pending ≤ f
    → (out : List Mapping) × (dns_loop resolve f all pending ≡ some out)
unfolding dns_loop total_weight
dns_loop-total resolve numeric f all [] s w = (all, refl)
dns_loop-total resolve numeric zero all (m ∷ pending) s w =
    absurd (omega (arith, weight_pos resolve m.src.host m.src.port m.dst))
dns_loop-total resolve numeric (suc f) all (m ∷ pending) s w =
    elim (Option-cases (resolve m.src.host m.src.port)) [
      | inl e ↦
          rw (e, dns_loop)
            (dns_loop-total resolve numeric f all pending s.1
              (omega (arith, weight_pos resolve m.src.host m.src.port m.dst)))
      | inr (addrs, e) ↦
          let more = new_entries all m.dst addrs in
          rw (e, dns_loop)
            (dns_loop-total resolve numeric f (all ++ more) (pending ++ more)
              (All-append _ pending more
                (All-map (λ x h. is_source-left x.src all more h) pending s.1)
                (new_entries-Sourced all more))
              (omega (
                arith,
                total_weight-append resolve pending more,
                round_weight resolve numeric all m.src.host m.src.port m.dst addrs s.0 e,
              )))
    ]

-- The loop ends although it extends the list that it runs over, for every resolver that gives an
-- address in text form back as itself.
pub add_dns_remappings-total :
    (resolve : Resolver) (numeric : IsNumeric resolve) (mappings : List Mapping)
    → (out : List Mapping) × (add_dns_remappings resolve mappings ≡ some out)
unfolding add_dns_remappings
add_dns_remappings-total resolve numeric mappings =
    dns_loop-total resolve numeric _ mappings mappings (Sourced-self mappings) (omega arith)
