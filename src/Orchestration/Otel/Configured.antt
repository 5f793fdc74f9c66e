-- ===== src/Orchestration/Otel/Configured.antt =====
-- What `handle_otel_config` does to the members.
use drivers_evergreen_tools.Common.{
  ◌≡◌, ◌≢◌, refl, sym, ap, subst, ◌∙◌, arith, List, [], ◌∷◌, ◌++◌, append-nil, append_assoc, Option,
  none, some, All, Both, ok,
}
use drivers_evergreen_tools.Common.Exec.{stop, >>=-succeeds}
use drivers_evergreen_tools.Common.Text.{Text, codes, text_eq}
use drivers_evergreen_tools.Orchestration.Json.{
  Value, null, flag, number, text, arr, obj, Fields, get, put, put_other, put_self, members, refill,
}
use drivers_evergreen_tools.Orchestration.Json.Each.{each, each-Both, Both-IsMember, returned}
use drivers_evergreen_tools.Orchestration.Json.Refill.{IsMember, refill_lem, members_lem}
use drivers_evergreen_tools.Orchestration.Otel.{
  Dirs, makedirs, child, keys, conflicts, traced, empty_or, port_of, configure, configure_some,
  every_key, handle_otel_config,
}
use drivers_evergreen_tools.Orchestration.Otel.Parameters.{
  own_parameters, port_text, Traced, not_conflict, traced_keeps, traced_sets, with_parameters_lem,
  port_of_lem,
}

port_or_none : Option Text → Text
port_or_none none = []
port_or_none (some t) = t

-- The directory of each member.
abbrev pub directories : Text → List Fields → List Text
unfolding port_or_none
directories root [] = []
directories root (m ∷ ms) =
    child root (port_or_none (port_text (get (codes "port") m))) ∷ directories root ms

own_parameters_lem : (v : Option Value) (fs : Fields) → empty_or v ≡ obj fs → own_parameters v ≡ fs
own_parameters_lem none fs h = ground arith
own_parameters_lem (some null) fs h = ground arith
own_parameters_lem (some (flag b)) fs h = ground arith
own_parameters_lem (some (number t)) fs h = ground arith
own_parameters_lem (some (text t)) fs h = ground arith
own_parameters_lem (some (arr xs)) fs h = ground arith
own_parameters_lem (some (obj gs)) fs h = ground arith

Traced-of :
    (root t : Text) (m m' fs : Fields)
    → port_text (get (codes "port") m) ≡ some t
    → empty_or (get (codes "setParameter") m) ≡ obj fs
    → conflicts (keys fs) ≡ []
    → m' ≡ put (codes "setParameter") (obj (traced (child root t) fs)) m
    → Traced root m m'
Traced-of root t m m' fs e own free changed =
    let sets = traced_sets (child root t) fs in
    record {
      port = t;
      has_port = e;
      params = traced (child root t) fs;
      has_params = rw changed (put_self (codes "setParameter") (obj (traced (child root t) fs)) m);
      directory = sets.0;
      feature = sets.1;
      sampling = sets.2;
      external = sets.3;
      flushed = sets.4;
      others = λ key h. rw changed (put_other (codes "setParameter") key _ m h);
      params_kept = λ key v h.
          let there : get key fs ≡ some v = rw (own_parameters_lem _ fs own) at h in
          traced_keeps (child root t) key fs (not_conflict key v fs free there) ∙ there;
    }

made_lem :
    (root t : Text) (m : Fields) (s : Dirs) {u : Unit {0}} {s' : Dirs}
    → port_text (get (codes "port") m) ≡ some t
    → makedirs (child root t) s ≡ (ok u, s')
    → s' ≡ s ++ directories root (m ∷ [])
unfolding makedirs directories
made_lem root t m s e h = rw e (ground arith)

configure-Traced :
    (root : Text) (m : Fields) (s : Dirs) {m' : Fields} {s' : Dirs}
    → configure root m s ≡ (ok m', s')
    → Traced root m m' × (s' ≡ s ++ directories root (m ∷ []))
unfolding configure
configure-Traced root m s h =
    let (t, s₁, got, rest) = >>=-succeeds (port_of (get (codes "port") m)) _ s h in
    let (u, s₂, made, last) = >>=-succeeds (makedirs (child root t)) _ s₁ rest in
    let (e, same) = port_of_lem _ s got in
    let (fs, own, free, changed, kept) =
      with_parameters_lem (child root t) (empty_or (get (codes "setParameter") m)) m s₂ last in
    (
      Traced-of root t m _ fs e own free changed,
      kept ∙ subst (λ d. s₂ ≡ d ++ directories root (m ∷ [])) same (made_lem root t m s₁ e made),
    )

Traced-IsMember : (root : Text) (m m' : Fields) → Traced root m m' → IsMember m → IsMember m'
unfolding text_eq
Traced-IsMember root m m' t h = rw (Traced.others t (codes "ipv6") refl) h

configure_some-Traced :
    (root : Text) (v v' : Value) (ms : List Fields) (s s' : Dirs)
    → ms ≡ members every_key v
    → All IsMember ms
    → configure_some root v ms s ≡ (ok v', s')
    → (ms ≢ [])
      × Both (Traced root) ms (members every_key v')
      × (s' ≡ s ++ directories root ms)
      × ((refill every_key v' ms).0 ≡ v)
unfolding configure_some stop directories
configure_some-Traced root v v' [] s s' e all h = absurd (ground arith)
configure_some-Traced root v v' (m ∷ ms) s s' e all h =
    let (ms', s₁, changed, last) = >>=-succeeds (each (configure root) (m ∷ ms)) _ s h in
    let (traces, dirs) =
      each-Both (configure root) (Traced root) (λ l d d'. d' ≡ d ++ directories root l)
        (λ d. sym (append-nil d)) (λ n n' d d' k. configure-Traced root n d k)
        (λ n l d d' d'' e' f.
          f
          ∙ ap (λ (k : Dirs). k ++ directories root l) e'
          ∙ append_assoc d (directories root (n ∷ [])) (directories root l))
        (m ∷ ms) ms' s s₁ changed in
    let (size, all') = Both-IsMember (Traced root) (Traced-IsMember root) (m ∷ ms) ms' all traces in
    let (new, back) = refill_lem every_key v ms' (rw (← e) size) all' in
    let (put_back, kept) = returned last in
    (λ nothing. cc, rw (put_back, new) traces, kept ∙ dirs, rw (put_back, e) back)

-- Where `handle_otel_config` succeeds there are members, and each has the tracing parameters, with
-- a directory below `root` that is named for its port; its other keys, and the parameters that it
-- had, are as they were. The directories are made in the order of the members, and nothing else in
-- the configuration is changed: with the old members put back, it is the old one.
pub handle_otel_config-Traced :
    (root : Text) (v v' : Value) (s s' : Dirs)
    → handle_otel_config root v s ≡ (ok v', s')
    → (members every_key v ≢ [])
      × Both (Traced root) (members every_key v) (members every_key v')
      × (s' ≡ s ++ directories root (members every_key v))
      × ((refill every_key v' (members every_key v)).0 ≡ v)
unfolding handle_otel_config
handle_otel_config-Traced root v v' s s' h =
    configure_some-Traced root v v' (members every_key v) s s' refl (members_lem every_key v) h
