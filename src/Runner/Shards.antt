-- ===== src/Runner/Shards.antt =====
-- The shards of a cluster: the config server comes first, the others keep their order.
use drivers_evergreen_tools.Common.{
  ◌≡◌, subst, sym, ap, ◌∙◌, Bool, true, false, List, [], ◌∷◌, ◌++◌, append-nil, append_assoc,
  Result, ok, ◌>>=◌, >>=-eq-ok, ok-injective,
}
use drivers_evergreen_tools.Runner.{
  Error, Member, Shard, read_shard, put_shard, shard_loop, blank_config,
}

-- All shards as they are read, each with whether it is a config server.
unfoldable pub read_all : List (List Member) → Result Error (List (Bool × Shard))
read_all [] = ok []
read_all (members ∷ rest) = do read ← read_shard members; reads ← read_all rest; ok (read ∷ reads)

-- The last config server, or the one to start with.
pub last_config : Shard → List (Bool × Shard) → Shard
last_config config [] = config
last_config config ((true, shard) ∷ reads) = last_config shard reads
last_config config ((false, shard) ∷ reads) = last_config config reads

pub data_shards : List (Bool × Shard) → List Shard
data_shards [] = []
data_shards ((true, shard) ∷ reads) = data_shards reads
data_shards ((false, shard) ∷ reads) = shard ∷ data_shards reads

-- What the loop makes of shards with those reads.
abbrev Places : List (List Member) → Shard → List Shard → List (Bool × Shard) → Type 0
Places shards config before reads =
    shard_loop shards (config ∷ before)
    ≡ ok (last_config config reads ∷ (before ++ data_shards reads))

next_shard :
    (is_config : Bool) (shard config : Shard) (before : List Shard) (rest : List (List Member))
    (reads : List (Bool × Shard))
    → read_all rest ≡ ok reads
    → ((config : Shard) (before : List Shard)
        → shard_loop rest (config ∷ before)
          ≡ ok (last_config config reads ∷ (before ++ data_shards reads)))
    → shard_loop rest (put_shard is_config shard (config ∷ before))
      ≡ ok (
          last_config config ((is_config, shard) ∷ reads)
          ∷ (before ++ data_shards ((is_config, shard) ∷ reads)))
unfolding put_shard last_config data_shards
next_shard true shard config before rest reads h k = k shard before
next_shard false shard config before rest reads h k =
    k config (before ++ shard ∷ [])
    ∙ ap (λ t. ok (last_config config reads ∷ t))
        (append_assoc before (shard ∷ []) (data_shards reads))

shard_loop-from :
    (shards : List (List Member)) (reads : List (Bool × Shard)) (config : Shard)
    (before : List Shard)
    → read_all shards ≡ ok reads
    → shard_loop shards (config ∷ before)
      ≡ ok (last_config config reads ∷ (before ++ data_shards reads))
unfolding shard_loop read_all last_config data_shards
shard_loop-from [] reads config before h =
    subst (Places [] config before) (ok-injective h)
      (ap (λ t. ok (config ∷ t)) (sym (append-nil before)))
shard_loop-from (members ∷ rest) reads config before h =
    let (read, e, k) = >>=-eq-ok (read_shard members) _ h in
    let (more, f, g) = >>=-eq-ok (read_all rest) _ k in
    subst (Places (members ∷ rest) config before) (ok-injective g) (
      rw e
        (next_shard read.0 read.1 config before rest more f λ c b. shard_loop-from rest more c b f))

-- Where every shard can be read, the list starts with the last config server, or with a blank one
-- if there is none, and goes on with the other shards in their order.
pub shard_loop_lem :
    (shards : List (List Member)) (reads : List (Bool × Shard))
    → read_all shards ≡ ok reads
    → shard_loop shards (blank_config ∷ [])
      ≡ ok (last_config blank_config reads ∷ data_shards reads)
shard_loop_lem shards reads h = shard_loop-from shards reads blank_config [] h
