-- ===== src/Orchestration/Otel/Parameters.antt =====
-- The parameters of one member that is traced.
use drivers_evergreen_tools.Common.{
  ◌≡◌, refl, ◌∙◌, arith, true, false, List, [], ◌∷◌, Option, none, some, All, ok,
}
use drivers_evergreen_tools.Common.Exec.{pure, stop}
use drivers_evergreen_tools.Common.Text.{Text, codes, text_eq, text_eq_iff}
use drivers_evergreen_tools.Mongodl.Target.{lower}
use drivers_evergreen_tools.Mongodl.Url.{is_prefix}
use drivers_evergreen_tools.Orchestration.Json.{
  Value, null, flag, number, text, arr, obj, Fields, end, field, get, put, put_other, put_self,
}
use drivers_evergreen_tools.Orchestration.Otel.{
  Dirs, str, child, keys, is_conflict, conflicts, traced, otel_sampling_json,
  otel_external_tracing_json, port_of, set_parameters, with_parameters,
}

abbrev pub own_parameters : Option Value → Fields
own_parameters (some (obj fs)) = fs
own_parameters _ = end

abbrev pub port_text : Option Value → Option Text
port_text none = none
port_text (some v) = str v

-- The member `m'` writes its traces below `root`, and is else what `m` was.
pub record Traced (root : Text) (m m' : Fields) : Type 0 where
  pub port : Text
  pub has_port : port_text (get (codes "port") m) ≡ some port
  pub params : Fields
  pub has_params : get (codes "setParameter") m' ≡ some (obj params)
  pub directory : get (codes "opentelemetryTraceDirectory") params ≡ some (text (child root port))
  pub feature : get (codes "featureFlagOtelTraceSampling") params ≡ some (text (codes "true"))
  pub sampling : get (codes "openTelemetryTracingSampling") params ≡ some (text otel_sampling_json)
  pub external :
      get (codes "openTelemetryExternalTracing") params ≡ some (text otel_external_tracing_json)
  pub flushed : get (codes "openTelemetryTracingFileFlushCount") params ≡ some (number (codes "1"))
  pub others : (key : Text) → text_eq (codes "setParameter") key ≡ false → get key m' ≡ get key m
  pub params_kept :
      (key : Text) (v : Value)
      → get key (own_parameters (get (codes "setParameter") m)) ≡ some v
      → get key params ≡ some v

-- A key that is there is no conflict.
pub not_conflict :
    (key : Text) (v : Value) (fs : Fields)
    → conflicts (keys fs) ≡ []
    → get key fs ≡ some v
    → is_conflict key ≡ false
unfolding conflicts keys get
not_conflict key v end h e = ground arith
not_conflict key v (field k w fs) h e =
    let rec = not_conflict key v fs in ground (arith, text_eq_iff k key)

-- No key that is set was there before.
not_key :
    (mine key : Text) → is_conflict mine ≡ true → is_conflict key ≡ false → text_eq mine key ≡ false
not_key mine key h k = ground (arith, text_eq_iff mine key)

abbrev flush : Text
flush = codes "openTelemetryTracingFileFlushCount"

abbrev external_tracing : Text
external_tracing = codes "openTelemetryExternalTracing"

abbrev sampling : Text
sampling = codes "openTelemetryTracingSampling"

abbrev feature_flag : Text
feature_flag = codes "featureFlagOtelTraceSampling"

abbrev directory_key : Text
directory_key = codes "opentelemetryTraceDirectory"

own_conflicts :
    All
      (λ k. is_conflict k ≡ true)
      (flush ∷ external_tracing ∷ sampling ∷ feature_flag ∷ directory_key ∷ [])
unfolding is_conflict is_prefix lower text_eq
own_conflicts = (refl, (refl, (refl, (refl, (refl, tt)))))

pub traced_keeps :
    (dir key : Text) (fs : Fields) → is_conflict key ≡ false → get key (traced dir fs) ≡ get key fs
unfolding traced
traced_keeps dir key fs h =
    let (c₁, (c₂, (c₃, (c₄, (c₅, _))))) = own_conflicts in
    put_other flush key _ _ (not_key flush key c₁ h)
    ∙ put_other external_tracing key _ _ (not_key external_tracing key c₂ h)
    ∙ put_other sampling key _ _ (not_key sampling key c₃ h)
    ∙ put_other feature_flag key _ _ (not_key feature_flag key c₄ h)
    ∙ put_other directory_key key _ fs (not_key directory_key key c₅ h)

pub traced_sets :
    (dir : Text) (fs : Fields)
    → (get directory_key (traced dir fs) ≡ some (text dir))
      × (get feature_flag (traced dir fs) ≡ some (text (codes "true")))
      × (get sampling (traced dir fs) ≡ some (text otel_sampling_json))
      × (get external_tracing (traced dir fs) ≡ some (text otel_external_tracing_json))
      × (get flush (traced dir fs) ≡ some (number (codes "1")))
unfolding traced text_eq
traced_sets dir fs = (
  put_other flush directory_key _ _ refl
      ∙ put_other external_tracing directory_key _ _ refl
      ∙ put_other sampling directory_key _ _ refl
      ∙ put_other feature_flag directory_key _ _ refl
      ∙ put_self directory_key (text dir) fs,
  put_other flush feature_flag _ _ refl
      ∙ put_other external_tracing feature_flag _ _ refl
      ∙ put_other sampling feature_flag _ _ refl
      ∙ put_self feature_flag _ _,
  put_other flush sampling _ _ refl
      ∙ put_other external_tracing sampling _ _ refl
      ∙ put_self sampling _ _,
  put_other flush external_tracing _ _ refl ∙ put_self external_tracing _ _,
  put_self flush _ _,
)

-- What the last step found.
pub with_parameters_lem :
    (dir : Text) (v : Value) (m : Fields) (s : Dirs) {m' : Fields} {s' : Dirs}
    → with_parameters dir v m s ≡ (ok m', s')
    → (fs : Fields) × (v ≡ obj fs)
      × (conflicts (keys fs) ≡ [])
      × (m' ≡ put (codes "setParameter") (obj (traced dir fs)) m)
      × (s' ≡ s)
unfolding with_parameters set_parameters pure stop
with_parameters_lem dir (obj fs) m s {m'} {s'} h = found (conflicts (keys fs)) refl h
  where
    found :
        (ks : List Text)
        → conflicts (keys fs) ≡ ks
        → set_parameters dir fs ks m s ≡ (ok m', s')
        → (fs' : Fields) × (obj fs ≡ obj fs')
          × (conflicts (keys fs') ≡ [])
          × (m' ≡ put (codes "setParameter") (obj (traced dir fs')) m)
          × (s' ≡ s)
    found [] e k = (fs, refl, e, ground arith, ground arith)
    found (c ∷ ks) e k = absurd (ground arith)
with_parameters_lem dir null m s h = absurd (ground arith)
with_parameters_lem dir (flag b) m s h = absurd (ground arith)
with_parameters_lem dir (number t) m s h = absurd (ground arith)
with_parameters_lem dir (text t) m s h = absurd (ground arith)
with_parameters_lem dir (arr xs) m s h = absurd (ground arith)

pub port_of_lem :
    (v : Option Value) (s : Dirs) {t : Text} {s' : Dirs}
    → port_of v s ≡ (ok t, s')
    → (port_text v ≡ some t) × (s' ≡ s)
unfolding port_of pure stop
port_of_lem none s h = absurd (ground arith)
port_of_lem (some v) s h = ground arith
