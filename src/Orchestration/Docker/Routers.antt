-- ===== src/Orchestration/Docker/Routers.antt =====
-- What `handle_docker_config` leaves to the members and to the routers.
use drivers_evergreen_tools.Common.{
  ◌≡◌, refl, ap, subst, ◌∙◌, inl, inr, arith, Bool-cases, List, [], ◌∷◌, ◌++◌, Option, none, some,
  Both, ok,
}
use drivers_evergreen_tools.Common.Exec.{pure, stop, ◌>>=◌, >>=-succeeds}
use drivers_evergreen_tools.Common.Text.{Text, codes, text_eq}
use drivers_evergreen_tools.Orchestration.Json.{
  Value, null, flag, number, text, arr, obj, Items, Fields, end, field, get, put, put_other,
  put_self, is_member, members, members_fields, refill,
}
use drivers_evergreen_tools.Orchestration.Json.Each.{each, each-Both, Both-IsMember, returned}
use drivers_evergreen_tools.Orchestration.Json.Refill.{refill_lem, members_lem}
use drivers_evergreen_tools.Orchestration.Docker.{
  Dirs, is_routers, traversable, dockered, last_item, each_router, routers_of, with_routers,
  top_level, handle_docker_config,
}
use drivers_evergreen_tools.Orchestration.Docker.Members.{
  port_text, Dockered, LogsTo, dockered-Dockered, Dockered-IsMember, last_item-Both,
  each_router-LogsTo,
}

abbrev routers : Text
routers = codes "routers"

members_fields-put :
    (v : Value) (fs : Fields)
    → members_fields is_routers (put routers v fs) ≡ members_fields is_routers fs
unfolding members put text_eq
members_fields-put v end = refl
members_fields-put v (field k w fs) = elim (Bool-cases (text_eq k routers)) [
  | inl e ↦ rw (e, put) (rw e refl)
  | inr e ↦
      rw (e, put)
        (rw e (ap (λ (l : List Fields). members is_routers w ++ l) (members_fields-put v fs)))
]

is_member-put : (v : Value) (fs : Fields) → is_member (put routers v fs) ≡ is_member fs
unfolding text_eq
is_member-put v fs = rw (put_other routers (codes "ipv6") v fs refl)

Dockered-put : (m fs : Fields) (v : Value) → Dockered m fs → Dockered m (put routers v fs)
unfolding text_eq
Dockered-put m fs v d = record {
  port = d.port;
  has_port = d.has_port;
  no_ipv6 = put_other routers (codes "ipv6") v fs refl ∙ d.no_ipv6;
  bind_ip = put_other routers (codes "bind_ip") v fs refl ∙ d.bind_ip;
  dbpath = put_other routers (codes "dbpath") v fs refl ∙ d.dbpath;
  others = λ key k. put_other routers key v fs (ground arith) ∙ d.others key k;
}

Both-put :
    (ms : List Fields) (v : Value) (fs : Fields)
    → Both Dockered ms (members is_routers (obj fs))
    → Both Dockered ms (members is_routers (obj (put routers v fs)))
unfolding members
Both-put ms v fs b = elim (Bool-cases (is_member fs)) [
  | inl e ↦ rw (is_member-put v fs, e) (one ms (rw e at b))
  | inr e ↦ rw (is_member-put v fs, e, members_fields-put v fs) (rw e at b)
]
  where
    one :
        (old : List Fields)
        → Both Dockered old (fs ∷ [])
        → Both Dockered old (put routers v fs ∷ [])
    one [] h = elim h [ ]
    one (m ∷ []) h = (Dockered-put m fs v h.0, tt)
    one (m ∷ m' ∷ old) h = elim h.1 [ ]

top_level_lem :
    (v : Value) (s : Dirs) {fs : Fields} {s' : Dirs} → top_level v s ≡ (ok fs, s') → v ≡ obj fs
unfolding top_level pure stop
top_level_lem (obj fs) s h = ground arith
top_level_lem null s h = absurd (ground arith)
top_level_lem (flag b) s h = absurd (ground arith)
top_level_lem (number t) s h = absurd (ground arith)
top_level_lem (text t) s h = absurd (ground arith)
top_level_lem (arr xs) s h = absurd (ground arith)

routers_of_lem :
    (item : Fields) (t : Text) (v : Value) (xs : Items) (s : Dirs) {s' : Dirs}
    → port_text (get (codes "port") item) ≡ some t
    → routers_of (some item) v s ≡ (ok (arr xs), s')
    → LogsTo t xs
unfolding routers_of pure stop
routers_of_lem item t (arr ys) xs s e h =
    let (xs', s₁, each_one, last) = >>=-succeeds (each_router (some item) ys) _ s h in
    let same : xs ≡ xs' = ground arith in rw same (each_router-LogsTo item t ys xs' s s₁ e each_one)
routers_of_lem item t (obj end) xs s e h = absurd (ground arith)
routers_of_lem item t (obj (field k v fs)) xs s e h = absurd (ground arith)
routers_of_lem item t (text []) xs s e h = absurd (ground arith)
routers_of_lem item t (text (c ∷ n)) xs s e h = absurd (ground arith)
routers_of_lem item t null xs s e h = absurd (ground arith)
routers_of_lem item t (flag b) xs s e h = absurd (ground arith)
routers_of_lem item t (number n) xs s e h = absurd (ground arith)

routers_put : (v w : Value) (fs : Fields) → get routers (put routers v fs) ≡ some w → v ≡ w
routers_put v w fs h = let p = put_self routers v fs in ground arith

-- The routers, and the members beside them.
with_routers_lem :
    (old : List Fields) (item : Option Fields) (fs fs' : Fields) (v : Option Value) (s s' : Dirs)
    → get routers fs ≡ v
    → Both Dockered old (members is_routers (obj fs))
    → with_routers item fs v s ≡ (ok fs', s')
    → Both Dockered old (members is_routers (obj fs'))
      × ((i : Fields) (t : Text) (xs : Items)
          → item ≡ some i
          → port_text (get (codes "port") i) ≡ some t
          → get routers fs' ≡ some (arr xs)
          → LogsTo t xs)
unfolding with_routers
with_routers_lem old item fs fs' none s s' g b h =
    let e = (returned h).0 in
    (rw e b, λ i t xs ei et k. absurd (let k' = rw e at k in ground arith))
with_routers_lem old item fs fs' (some v) s s' g b h =
    let (v', s₁, done, last) = >>=-succeeds (routers_of item v) _ s h in
    let e = (returned last).0 in
    (
      rw e (Both-put old v' fs b),
      λ i t xs ei et k.
          let is_v : v' ≡ arr xs = routers_put v' (arr xs) fs (rw e at k) in
          routers_of_lem i t v xs s et (rw (ei, is_v) at done),
    )

handled :
    (data' : Fields) (fs' : Fields) (s s' : Dirs)
    → handle_docker_config data' s ≡ (ok fs', s')
    → let old = members is_routers (obj data') in
      Both Dockered old (members is_routers (obj fs'))
      × ((i : Fields) (t : Text) (xs : Items)
          → last_item old ≡ some i
          → port_text (get (codes "port") i) ≡ some t
          → get routers fs' ≡ some (arr xs)
          → LogsTo t xs)
unfolding handle_docker_config stop
handled data' fs' s s' h = elim (Bool-cases (traversable (obj data'))) [
  | inr e ↦ absurd (ground arith)
  | inl e ↦
      let old = members is_routers (obj data') in
      let chain : (each dockered old >>= λ ms.
      top_level (refill is_routers (obj data') ms).0 >>= λ fs.
      with_routers (last_item ms) fs (get routers fs))
            s
          ≡ (ok fs', s') =
        rw e at h in
      let (ms, s₁, loop, rest) = >>=-succeeds (each dockered old) _ s chain in
      let (fs, s₂, top, last) =
        >>=-succeeds (top_level (refill is_routers (obj data') ms).0) _ s₁ rest in
      let (changed, _) =
        each-Both dockered Dockered (λ l d d'. Unit) (λ d. tt) dockered-Dockered
          (λ n l d d' d'' p q. tt) old ms s s₁ loop in
      let (size, all) =
        Both-IsMember Dockered Dockered-IsMember old ms (members_lem is_routers (obj data'))
          changed in
      let put_back : members is_routers (refill is_routers (obj data') ms).0 ≡ ms =
        (refill_lem is_routers (obj data') ms size all).0 in
      let there : Both Dockered old (members is_routers (obj fs)) =
        subst (λ v. Both Dockered old (members is_routers v)) (top_level_lem _ s₁ top)
          (rw put_back changed) in
      let (kept, logs) =
        with_routers_lem old (last_item ms) fs fs' (get routers fs) s₂ s' refl there last in
      (
        kept,
        λ i t xs ei et k.
            let (i', ei', same) = last_item-Both old ms i changed ei in
            logs i' t xs ei' (rw same et) k,
      )
]

-- Where `handle_docker_config` succeeds, each member of the configuration binds to every address,
-- has no IPv6, and has a path that is named for its own port. Its other keys, but "routers", are as
-- they were.
pub handle_docker_config-Dockered :
    (data' fs' : Fields) (s s' : Dirs)
    → handle_docker_config data' s ≡ (ok fs', s')
    → Both Dockered (members is_routers (obj data')) (members is_routers (obj fs'))
handle_docker_config-Dockered data' fs' s s' h = (handled data' fs' s s' h).0

-- Every router that `handle_docker_config` leaves logs to one file, which is named for the port of
-- the last member: its own port does not matter.
pub handle_docker_config-LogsTo :
    (data' fs' : Fields) (s s' : Dirs) (item : Fields) (t : Text) (xs : Items)
    → handle_docker_config data' s ≡ (ok fs', s')
    → last_item (members is_routers (obj data')) ≡ some item
    → port_text (get (codes "port") item) ≡ some t
    → get (codes "routers") fs' ≡ some (arr xs)
    → LogsTo t xs
handle_docker_config-LogsTo data' fs' s s' item t xs h = (handled data' fs' s s' h).1 item t xs
