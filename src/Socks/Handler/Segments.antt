-- ===== src/Socks/Handler/Segments.antt =====
-- A session depends on the client's bytes, and not on how TCP cuts them into segments.
use drivers_evergreen_tools.Common.{
  ℕ, ◌≡◌, refl, sym, ap, ap₂, ◌∙◌, inl, inr, Bool, true, false, List, [], ◌∷◌, ◌++◌, Option, none,
  some, arith, leb, if◌then◌else◌, length, take, drop, Bool-cases, leb→le, Result, ok, raise,
}
use drivers_evergreen_tools.Common.Exec.{pure, stop, continue, ◌>>=◌}
use drivers_evergreen_tools.Common.Text.{Text}
use drivers_evergreen_tools.Common.Text.Utf8.{decode}
use drivers_evergreen_tools.Socks.Stream.{Stream, Ending, bytes, recv, read_counted, read_exact}
use drivers_evergreen_tools.Socks.Stream.Exact.{
  at_end, Received, ended, arrived, recv_lem, ending-recv, read_exact-Exact,
}
use drivers_evergreen_tools.Socks.Remap.{HostPort, Mapping, Address}
use drivers_evergreen_tools.Socks.Connect.{Socket, create_outgoing}
use drivers_evergreen_tools.Socks.Handler.{
  Stop, returned, type_error, gai_error, Session, Action, Network, received, recv_one, read_bytes,
  read_number, send, require, present, decoded, text_or_error, unicode_error, connect_to,
  choose_method, greet, compare_parts, check_credentials, read_host, port_of, read_request, answer,
  connect, handle,
}

-- The two sessions differ in the segments at most.
pub record Alike (s t : Session) : Type 0 where
  pub bytes : bytes s.input ≡ bytes t.input
  pub ending : s.input.ending ≡ t.input.ending
  pub sent : s.sent ≡ t.sent

-- The action does the same on sessions that are alike.
pub record Blind {A : Type 0} (m : Action A) : Type 0 where
  pub at : (s t : Session) → Alike s t → ((m s).0 ≡ (m t).0) × Alike (m s).1 (m t).1

module _ {A : Type 0} where
  Blind-pure : (a : A) → Blind (pure {S = Session} {E = Stop} a)
  unfolding pure
  Blind-pure a = record { at = λ s t h. (refl, h) }

  Blind-stop : (e : Stop) → Blind (stop {S = Session} {A = A} e)
  unfolding stop
  Blind-stop e = record { at = λ s t h. (refl, h) }

Blind-continue :
    {A B : Type 0} (r : Result Stop A) (f : A → Action B)
    → ((a : A) → Blind (f a))
    → Blind (continue r f)
unfolding continue
Blind-continue (ok a) f h = h a
Blind-continue (raise e) f h = record { at = λ s t k. (refl, k) }

Blind-bind :
    {A B : Type 0} (m : Action A) (f : A → Action B)
    → Blind m
    → ((a : A) → Blind (f a))
    → Blind (m >>= f)
unfolding ◌>>=◌
Blind-bind m f hm hf = record {
  at = λ s t k.
      let (same, after) = hm.at s t k in
      rw same ((Blind-continue (m t).0 f hf).at (m s).1 (m t).1 after);
}

-- What a `recv(1)` gives, from the bytes.
abbrev first_byte : List ℕ → Ending → Option (List ℕ)
first_byte [] e = at_end e
first_byte (c ∷ cs) e = some (c ∷ [])

abbrev rest_bytes : List ℕ → List ℕ
rest_bytes [] = []
rest_bytes (c ∷ cs) = cs

first_of :
    {all rest : List ℕ} {e : Ending} {got : Option (List ℕ)}
    → Received 0 all e got rest
    → (got ≡ first_byte all e) × (rest ≡ rest_bytes all)
first_of (ended n g r) = (g ∙ rw n, r ∙ rw n)
first_of (arrived c [] g e k) = (g ∙ rw (← e), rw (← e))
first_of (arrived c (d ∷ cs) g e k) = absurd (omega arith)

recv_first :
    (s : Stream)
    → ((recv 1 s).0 ≡ first_byte (bytes s) s.ending) × (bytes (recv 1 s).1 ≡ rest_bytes (bytes s))
recv_first s = first_of (recv_lem 0 s)

received_Alike :
    (g h : Option (List ℕ)) (s t : Session)
    → g ≡ h
    → Alike s t
    → ((received g s).0 ≡ (received h t).0) × Alike (received g s).1 (received h t).1
received_Alike none none s t e k = (refl, k)
received_Alike (some a) (some b) s t e k = (ground arith, k)
received_Alike none (some b) s t e k = cc
received_Alike (some a) none s t e k = cc

Blind-recv_one : Blind recv_one
unfolding recv_one
Blind-recv_one = record {
  at = λ s t k.
      let (gs, rs) = recv_first s.input in
      let (gt, rt) = recv_first t.input in
      received_Alike _ _ _ _ (gs ∙ ap₂ first_byte k.bytes k.ending ∙ sym gt) (record {
        bytes = rs ∙ ap rest_bytes k.bytes ∙ sym rt;
        ending = ending-recv 1 s.input ∙ k.ending ∙ sym (ending-recv 1 t.input);
        sent = k.sent;
      });
}

-- What `read_exact` gives, from the bytes.
abbrev exactly : ℕ → List ℕ → Option (List ℕ)
exactly n all = if leb n (length all) then some (take n all) else none

read_exactly : (n : ℕ) (s : Stream) → (read_exact n s).0 ≡ exactly n (bytes s)
read_exactly n s =
    let x = read_exact-Exact n s in
    elim (Bool-cases (leb n (length (bytes s)))) [
      | inl h ↦ rw h (x.enough (leb→le n _ h))
      | inr h ↦ rw h (x.short (ground arith))
    ]

abbrev read_ok : Option (List ℕ) → Result Stop (Option (List ℕ))
read_ok got = ok got

Blind-read_number : (n : ℕ) → Blind (read_number n)
unfolding read_number
Blind-read_number n = record {
  at = λ s t k.
      let xs = read_exact-Exact n s.input in
      let xt = read_exact-Exact n t.input in
      (
        ap read_ok (read_exactly n s.input ∙ ap (exactly n) k.bytes ∙ sym (read_exactly n t.input)),
        record {
          bytes = xs.left ∙ ap (drop n) k.bytes ∙ sym xt.left;
          ending = xs.ending ∙ k.ending ∙ sym xt.ending;
          sent = k.sent;
        },
      );
}

Blind-read_bytes : (n : List ℕ) → Blind (read_bytes n)
unfolding read_bytes read_counted
Blind-read_bytes [] = record {
  at = λ s t k. (refl, record { bytes = k.bytes; ending = k.ending; sent = k.sent });
}
Blind-read_bytes (n ∷ ns) = unfold read_number in Blind-read_number n

Blind-send : (out : List ℕ) → Blind (send out)
unfolding send
Blind-send out = record {
  at = λ s t k. (
    refl,
    record { bytes = k.bytes; ending = k.ending; sent = ap (λ (l : List ℕ). l ++ out) k.sent },
  );
}

Blind-require : (b : Bool) → Blind (require b)
unfolding require
Blind-require true = Blind-pure tt
Blind-require false = Blind-stop returned

Blind-present : {A : Type 0} (o : Option A) → Blind (present o)
unfolding present
Blind-present none = Blind-stop returned
Blind-present (some a) = Blind-pure a

Blind-text_or_error : (o : Option Text) → Blind (text_or_error o)
unfolding text_or_error
Blind-text_or_error none = Blind-stop unicode_error
Blind-text_or_error (some t) = Blind-pure t

Blind-decoded : (s : List ℕ) → Blind (decoded s)
unfolding decoded
Blind-decoded s = Blind-text_or_error (decode s)

Blind-if : {A : Type 0} (b : Bool) (m n : Action A) → Blind m → Blind n → Blind (if b then m else n)
Blind-if true m n hm hn = hm
Blind-if false m n hm hn = hn

Blind-port_of : (o : Option (List ℕ)) → Blind (port_of o)
unfolding port_of
Blind-port_of (some (hi ∷ lo ∷ more)) = Blind-pure _
Blind-port_of _ = Blind-stop type_error

Blind-answer : (o : Option Socket) → Blind (answer o)
unfolding answer
Blind-answer none = Blind-bind _ _ (Blind-send _) (λ _. Blind-stop returned)
Blind-answer (some socket) = Blind-bind _ _ (Blind-send _) (λ _. Blind-pure socket)

ruleset blind_rules = (
  Blind-pure, Blind-stop, Blind-bind, Blind-if, Blind-recv_one, Blind-read_number, Blind-read_bytes,
  Blind-send, Blind-require, Blind-present, Blind-decoded, Blind-port_of,
)

Blind-choose_method : (method : ℕ) (methods : List ℕ) → Blind (choose_method method methods)
unfolding choose_method
Blind-choose_method method methods = search blind_rules

Blind-greet : (auth : Option Text) → Blind (greet auth)
unfolding greet
Blind-greet auth = search (blind_rules, Blind-choose_method) depth 20

Blind-compare_parts :
    (auth : Text) (username password : Option (List ℕ))
    → Blind (compare_parts auth username password)
unfolding compare_parts
Blind-compare_parts auth username password = search blind_rules depth 20

Blind-check_credentials : (auth : Option Text) → Blind (check_credentials auth)
unfolding check_credentials
Blind-check_credentials none = Blind-pure tt
Blind-check_credentials (some auth) = search (blind_rules, Blind-compare_parts) depth 30

Blind-read_host : (addrtype : List ℕ) → Blind (read_host addrtype)
unfolding read_host
Blind-read_host addrtype = search blind_rules depth 20

Blind-read_request : Blind read_request
unfolding read_request
Blind-read_request = search (blind_rules, Blind-read_host) depth 30

module _ (network : Network) where
  Blind-connect_to : (o : Option (List Address)) → Blind (connect_to network o)
  unfolding connect_to
  Blind-connect_to none = Blind-stop gai_error
  Blind-connect_to (some addrs) = Blind-answer (create_outgoing network.attempt addrs)

  Blind-connect : (dst : HostPort) → Blind (connect network dst)
  unfolding connect
  Blind-connect dst = Blind-connect_to (network.resolve dst.host dst.port)

  -- Two clients that send the same bytes, and end in the same way, get the same bytes and have the
  -- same connection made, or the same error, whatever the segments.
  pub handle-Blind :
      (auth : Option Text) (mappings : List Mapping) → Blind (handle network auth mappings)
  unfolding handle
  handle-Blind auth mappings =
      search (blind_rules, Blind-greet, Blind-check_credentials, Blind-read_request, Blind-connect)
        depth 20
