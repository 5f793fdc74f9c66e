-- ===== src/Socks/Handler/Auth.antt =====
-- No connection without the credentials that the server was started with.
use drivers_evergreen_tools.Common.{
  ℕ, ◌≡◌, sym, ap, ◌∙◌, inl, inr, true, List, [], ◌∷◌, ◌++◌, Option, some, arith, length, any,
  Bool-cases, ok, ◌==◌,
}
use drivers_evergreen_tools.Common.Exec.{◌>>=◌, >>=-succeeds}
use drivers_evergreen_tools.Common.Text.{Text, text_eq_iff}
use drivers_evergreen_tools.Common.Text.Utf8.{decode}
use drivers_evergreen_tools.Socks.Stream.{bytes}
use drivers_evergreen_tools.Socks.Remap.{Mapping}
use drivers_evergreen_tools.Socks.Connect.{Socket}
use drivers_evergreen_tools.Socks.Handler.{
  Session, Action, Network, send, choose_method, greet, compare_parts, check_credentials, handle,
  required_method,
}
use drivers_evergreen_tools.Socks.Handler.Reads.{
  Succeeds, left, require-Succeeds, present-Succeeds, decoded-Succeeds, Took, recv_one-Took,
  byte_taken, Counted, read_bytes-Counted,
}

-- The credentials that stand at the front of the client's bytes.
pub record Credentials (auth : Text) (before after : List ℕ) : Type 0 where
  pub username : List ℕ
  pub password : List ℕ
  pub username_text : Text
  pub password_text : Text
  pub layout : before ≡ 1 ∷ length username ∷ (username ++ length password ∷ (password ++ after))
  pub username_decodes : decode username ≡ some username_text
  pub password_decodes : decode password ≡ some password_text
  pub granted : username_text ++ b':' ∷ password_text ≡ auth

-- A count that was taken and the bytes that it counts.
Counted-layout :
    (count v : List ℕ) {s s₁ s' : Session}
    → Took count s s₁
    → Counted count v s₁ s'
    → left s ≡ length v ∷ (v ++ left s')
Counted-layout count v {s} {s₁} {s'} t c =
    let e : left s ≡ length v ∷ left s₁ = sym t.bytes ∙ ap (λ l. l ++ left s₁) c.length in
    e ∙ ap (λ l. length v ∷ l) (sym c.bytes)

-- What holds of the result and the session after the action, if it succeeds.
abbrev Ensures : {A : Type 0} → Action A → Session → (A → Session → Type 0) → Type 0
Ensures {A} m s Q = (a : A) (s' : Session) → Succeeds m s a s' → Q a s'

bind_rule :
    {A B : Type 0} (m : Action A) (f : A → Action B) (s : Session) (Q : B → Session → Type 0)
    → ((a : A) (s₁ : Session) → Succeeds m s a s₁ → Ensures (f a) s₁ Q)
    → Ensures (m >>= f) s Q
bind_rule m f s Q k b s' h = let (a, s₁, e, g) = >>=-succeeds m f s h in k a s₁ e b s' g

send_left :
    (out : List ℕ) (s s' : Session) {u : Unit {0}} → Succeeds (send out) s u s' → left s ≡ left s'
unfolding send left
send_left out s s' h = ground arith

abbrev Granted : Text → Session → Unit {0} → Session → Type 0
Granted auth s _ s' = Credentials auth (left s) (left s')

-- What a comparison that succeeds tells of the parts.
record Matching (auth : Text) (username password : Option (List ℕ)) (s s' : Session) : Type 0 where
  user : List ℕ
  pass : List ℕ
  user_text : Text
  pass_text : Text
  user_is : username ≡ some user
  pass_is : password ≡ some pass
  user_decodes : decode user ≡ some user_text
  pass_decodes : decode pass ≡ some pass_text
  granted : user_text ++ b':' ∷ pass_text ≡ auth
  kept : left s ≡ left s'

compare_parts_sound :
    (auth : Text) (username password : Option (List ℕ)) (s : Session)
    → Ensures
        (compare_parts auth username password)
        s
        (λ _ s'. Matching auth username password s s')
unfolding compare_parts
compare_parts_sound auth username password s =
    let Q : Unit {0} → Session → Type 0 = λ _ s'. Matching auth username password s s' in
    bind_rule _ _ s Q λ u s₁ e₁. bind_rule _ _ s₁ Q λ p s₂ e₂. bind_rule _ _ s₂ Q λ ut s₃ e₃.
      bind_rule _ _ s₃ Q λ pt s₄ e₄. bind_rule _ _ s₄ Q λ _ s₅ e₅ _ s' e₆.
        let (ui, k₁) = present-Succeeds username e₁ in
        let (pi, k₂) = present-Succeeds password e₂ in
        let (ud, k₃) = decoded-Succeeds u e₃ in
        let (pd, k₄) = decoded-Succeeds p e₄ in
        let (ok_text, k₅) = require-Succeeds _ e₅ in
        record {
          user = u;
          pass = p;
          user_text = ut;
          pass_text = pt;
          user_is = ui;
          pass_is = pi;
          user_decodes = ud;
          pass_decodes = pd;
          granted = (text_eq_iff _ auth).0 ok_text;
          kept = ap left (k₁ ∙ k₂ ∙ k₃ ∙ k₄ ∙ k₅) ∙ send_left (1 ∷ 0 ∷ []) s₅ s' e₆;
        }

check_credentials_sound :
    (auth : Text) (s : Session) → Ensures (check_credentials (some auth)) s (Granted auth s)
unfolding check_credentials
check_credentials_sound auth s = bind_rule _ _ s (Granted auth s) λ ver s₁ e₁.
    bind_rule _ _ s₁ (Granted auth s) λ _ s₂ e₂. bind_rule _ _ s₂ (Granted auth s) λ ulen s₃ e₃.
      bind_rule _ _ s₃ (Granted auth s) λ uname s₄ e₄.
        bind_rule _ _ s₄ (Granted auth s) λ plen s₅ e₅.
          bind_rule _ _ s₅ (Granted auth s) λ pword s₆ e₆ u s' h.
            let m = compare_parts_sound auth uname pword s₆ u s' h in
            let (v, k₂) = require-Succeeds _ e₂ in
            let ut = recv_one-Took e₃ in
            let pt = recv_one-Took e₅ in
            let uc =
              Counted-layout ulen m.user ut (read_bytes-Counted ulen uname ut.short e₄ m.user_is) in
            let pc =
              Counted-layout plen m.pass pt (read_bytes-Counted plen pword pt.short e₆ m.pass_is) in
            record {
              username = m.user;
              password = m.pass;
              username_text = m.user_text;
              password_text = m.pass_text;
              layout = cc (byte_taken ver (recv_one-Took e₁) v, ap left k₂, uc, pc, m.kept);
              username_decodes = m.user_decodes;
              password_decodes = m.pass_decodes;
              granted = m.granted;
            }

choose_method-Succeeds :
    (method : ℕ) (methods : List ℕ) (s s' : Session) {u : Unit {0}}
    → Succeeds (choose_method method methods) s u s'
    → (any (λ m. m == method) methods ≡ true) × (left s ≡ left s')
unfolding choose_method ◌>>=◌ send left
choose_method-Succeeds method methods s s' h = elim (Bool-cases (any (λ m. m == method) methods)) [
  | inl found ↦ (found, ground arith)
  | inr missing ↦ absurd (ground arith)
]

-- A greeting at the front of the client's bytes, with the method among those that it offers.
pub record Greeting (method : ℕ) (before after : List ℕ) : Type 0 where
  pub methods : List ℕ
  pub layout : before ≡ 5 ∷ length methods ∷ (methods ++ after)
  pub offered : any (λ m. m == method) methods ≡ true

abbrev Greeted : ℕ → Session → Unit {0} → Session → Type 0
Greeted method s _ s' = Greeting method (left s) (left s')

greet_sound :
    (auth : Option Text) (s : Session) → Ensures (greet auth) s (Greeted (required_method auth) s)
unfolding greet
greet_sound auth s =
    let Q = Greeted (required_method auth) s in
    bind_rule _ _ s Q λ ver s₁ e₁. bind_rule _ _ s₁ Q λ _ s₂ e₂. bind_rule _ _ s₂ Q λ n s₃ e₃.
      bind_rule _ _ s₃ Q λ got s₄ e₄. bind_rule _ _ s₄ Q λ ms s₅ e₅ u s' h.
        let (v, k₂) = require-Succeeds _ e₂ in
        let (mi, k₅) = present-Succeeds got e₅ in
        let (offered, k₆) = choose_method-Succeeds (required_method auth) ms s₅ s' h in
        let nt = recv_one-Took e₃ in
        let nc = Counted-layout n ms nt (read_bytes-Counted n got nt.short e₄ mi) in
        record {
          methods = ms;
          layout = cc (byte_taken ver (recv_one-Took e₁) v, ap left k₂, nc, ap left k₅, k₆);
          offered = offered;
        }

abbrev Admitted : Text → Session → Type 0
Admitted auth s =
    (middle : List ℕ) × (after : List ℕ) × Greeting 2 (left s) middle
    × Credentials auth middle after

handle_admits :
    (network : Network) (auth : Text) (mappings : List Mapping) (s : Session)
    → Ensures (handle network (some auth) mappings) s (λ _ _. Admitted auth s)
unfolding handle
handle_admits network auth mappings s =
    bind_rule _ _ s (λ _ _. Admitted auth s)
      λ u s₁ e₁.
        bind_rule _ _ s₁ (λ _ _. Admitted auth s)
          λ v s₂ e₂ a s' h. (
            left s₁,
            left s₂,
            greet_sound (some auth) s u s₁ e₁,
            check_credentials_sound auth s₁ v s₂ e₂,
          )

-- A client for whom the server makes a connection has sent a greeting that offers the method
-- "username/password", and right behind it the user name and the password that the server was
-- started with.
pub handle-Credentials :
    (network : Network) (auth : Text) (mappings : List Mapping) (s s' : Session) (socket : Socket)
    → handle network (some auth) mappings s ≡ (ok socket, s')
    → (middle : List ℕ) × (after : List ℕ) × Greeting 2 (bytes s.input) middle
      × Credentials auth middle after
unfolding left
handle-Credentials network auth mappings s s' socket h =
    handle_admits network auth mappings s socket s' h
