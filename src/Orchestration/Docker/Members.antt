-- ===== src/Orchestration/Docker/Members.antt =====
-- What becomes of one member in Docker, and of the routers.
use drivers_evergreen_tools.Common.{
  ◌≡◌, refl, ap, ◌∙◌, arith, Bool, false, ◌||◌, List, [], ◌∷◌, ◌++◌, Option, none, some, Both, ok,
}
use drivers_evergreen_tools.Common.Exec.{pure, stop, >>=-succeeds}
use drivers_evergreen_tools.Common.Text.{Text, codes, text_eq}
use drivers_evergreen_tools.Orchestration.Json.{
  Value, null, flag, number, text, arr, obj, Items, nil, cons, Fields, get, put, put_other,
  put_self,
}
use drivers_evergreen_tools.Orchestration.Json.Each.{returned}
use drivers_evergreen_tools.Orchestration.Json.Refill.{IsMember}
use drivers_evergreen_tools.Orchestration.Otel.{str}
use drivers_evergreen_tools.Orchestration.Docker.{
  Dirs, makedirs, port_of, anywhere, dockered, last_item, item_port, router, each_router,
}

abbrev pub port_text : Option Value → Option Text
port_text none = none
port_text (some v) = str v

abbrev pub db_path : Text → Text
db_path port = codes "/tmp/mongo-" ++ port

abbrev pub log_path : Text → Text
log_path port = codes "/tmp/mongodb-" ++ (port ++ codes ".log")

-- The keys that the function writes.
abbrev is_written : Text → Bool
is_written key =
    text_eq (codes "ipv6") key
    || (text_eq (codes "bind_ip") key
        || (text_eq (codes "dbpath") key || text_eq (codes "routers") key))

-- A member listens everywhere, and has a path that is named for its own port.
pub record Dockered (m m' : Fields) : Type 0 where
  pub port : Text
  pub has_port : port_text (get (codes "port") m) ≡ some port
  pub no_ipv6 : get (codes "ipv6") m' ≡ some (flag false)
  pub bind_ip : get (codes "bind_ip") m' ≡ some (text (codes "0.0.0.0,::1"))
  pub dbpath : get (codes "dbpath") m' ≡ some (text (db_path port))
  pub others : (key : Text) → is_written key ≡ false → get key m' ≡ get key m

-- Every router logs to the file of the port `t`.
pub LogsTo : Text → Items → Type 0
LogsTo t nil = Unit
LogsTo t (cons (obj fs) xs) = (get (codes "logpath") fs ≡ some (text (log_path t))) × LogsTo t xs
LogsTo t (cons _ xs) = ⊥

port_of_lem :
    (v : Option Value) (s : Dirs) {t : Text} {s' : Dirs}
    → port_of v s ≡ (ok t, s')
    → (port_text v ≡ some t) × (s' ≡ s)
unfolding port_of pure stop
port_of_lem none s h = absurd (ground arith)
port_of_lem (some v) s h = ground arith

Dockered-of :
    (m : Fields) (t : Text)
    → port_text (get (codes "port") m) ≡ some t
    → Dockered m (put (codes "dbpath") (text (db_path t)) (anywhere m))
unfolding text_eq
Dockered-of m t h = record {
  port = t;
  has_port = h;
  no_ipv6 =
      put_other (codes "dbpath") (codes "ipv6") _ _ refl
      ∙ put_other (codes "bind_ip") (codes "ipv6") _ _ refl
      ∙ put_self (codes "ipv6") _ m;
  bind_ip = put_other (codes "dbpath") (codes "bind_ip") _ _ refl ∙ put_self (codes "bind_ip") _ _;
  dbpath = put_self (codes "dbpath") _ _;
  others = λ key k.
      put_other (codes "dbpath") key _ _ (ground arith)
      ∙ put_other (codes "bind_ip") key _ _ (ground arith)
      ∙ put_other (codes "ipv6") key _ m (ground arith);
}

pub dockered-Dockered :
    (m m' : Fields) (s s' : Dirs) → dockered m s ≡ (ok m', s') → Dockered m m' × Unit {0}
unfolding dockered
dockered-Dockered m m' s s' h =
    let (t, s₁, got, rest) = >>=-succeeds (port_of (get (codes "port") m)) _ s h in
    let (u, s₂, made, last) = >>=-succeeds (makedirs (db_path t)) _ s₁ rest in
    let (e, same) = returned last in (rw e (Dockered-of m t (port_of_lem _ s got).0), tt)

pub Dockered-IsMember : (m m' : Fields) → Dockered m m' → IsMember m → IsMember m'
Dockered-IsMember m m' d h = rw (Dockered.no_ipv6 d) refl

-- The last item keeps its port.
pub last_item-Both :
    (ms ms' : List Fields) (item : Fields)
    → Both Dockered ms ms'
    → last_item ms ≡ some item
    → (item' : Fields) × (last_item ms' ≡ some item')
      × (get (codes "port") item' ≡ get (codes "port") item)
unfolding last_item text_eq
last_item-Both [] [] item b h = absurd (ground arith)
last_item-Both [] (m' ∷ ms') item b h = elim b [ ]
last_item-Both (m ∷ ms) [] item b h = elim b [ ]
last_item-Both (m ∷ []) (m' ∷ []) item b h =
    (m', refl, Dockered.others b.0 (codes "port") refl ∙ ap (get (codes "port")) (ground arith))
last_item-Both (m ∷ []) (m' ∷ m'' ∷ ms') item b h = elim b.1 [ ]
last_item-Both (m ∷ n ∷ ms) (m' ∷ []) item b h = elim b.1 [ ]
last_item-Both (m ∷ n ∷ ms) (m' ∷ n' ∷ ms') item b h = last_item-Both (n ∷ ms) (n' ∷ ms') item b.1 h

pub each_router-LogsTo :
    (item : Fields) (t : Text) (xs xs' : Items) (s s' : Dirs)
    → port_text (get (codes "port") item) ≡ some t
    → each_router (some item) xs s ≡ (ok xs', s')
    → LogsTo t xs'
unfolding each_router router item_port LogsTo stop
each_router-LogsTo item t nil xs' s s' e h = rw (returned h).0 tt
each_router-LogsTo item t (cons (obj fs) xs) xs' s s' e h =
    let (fs', s₁, first, rest) = >>=-succeeds (router (some item) fs) _ s h in
    let (xs'', s₂, others, last) = >>=-succeeds (each_router (some item) xs) _ s₁ rest in
    let (t', s₃, got, made) = >>=-succeeds (port_of (get (codes "port") item)) _ s first in
    let same : t' ≡ t = ground (arith, (port_of_lem (get (codes "port") item) s got).0) in
    let logs : get (codes "logpath") fs' ≡ some (text (log_path t)) =
      rw ((returned made).0, same) (put_self (codes "logpath") _ _) in
    rw (returned last).0 (logs, each_router-LogsTo item t xs xs'' s₁ s₂ e others)
each_router-LogsTo item t (cons null xs) xs' s s' e h = absurd (ground arith)
each_router-LogsTo item t (cons (flag b) xs) xs' s s' e h = absurd (ground arith)
each_router-LogsTo item t (cons (number n) xs) xs' s s' e h = absurd (ground arith)
each_router-LogsTo item t (cons (text n) xs) xs' s s' e h = absurd (ground arith)
each_router-LogsTo item t (cons (arr ys) xs) xs' s s' e h = absurd (ground arith)
