-- ===== src/Cli/Run.antt =====
-- internal/cli/run.go: the pure parts of the run command: what it refuses before it opens the
-- database, what it hands to the runner, the times of the lock's heartbeat, and the error that it returns.
use deltaflow.Prelude.{
  ℕ, ◌*◌, ◌/◌, ltb, ℤ, pos, Str, Bool, if◌then◌else◌, not, ◌&&◌, Option, none, some, List, [], ◌∷◌,
  ◌++◌, codes, is_empty, str_eq, trim_space, ◌==◌,
}
use deltaflow.Config.Schema as C
use deltaflow.Config.Validate.{is_one}
use deltaflow.Runtime.Registry.{Registry, has_projector, has_applier}
use deltaflow.Runtime.Runner.{BuildConfig, BuildPipelineConfig}
use deltaflow.Worker.Config.{second}

pub data RunRefusal : Type 0 where
  registry_absent store_type_unsupported dsn_absent sqlite_concurrency : RunRefusal
  projector_absent applier_absent : Str → Str → RunRefusal

-- The loop over the pipelines that looks up their factories.
unfoldable pub unregistered :
    {P A : Type 0} → Registry P A → List C.PipelineConfig → Option RunRefusal
unfolding has_projector has_applier
unregistered r [] = none
unregistered r (p ∷ ps) =
    let rest = unregistered r ps in
    if not (has_projector r p.projector.name)
    then some (projector_absent p.name p.projector.name)
    else if not (has_applier r p.target.type)
    then some (applier_absent p.name p.target.type)
    else rest

-- The tests of the registry, which may be nil.
unfoldable pub registry_refusal :
    {P A : Type 0} → Option (Registry P A) → List C.PipelineConfig → Option RunRefusal
unfolding unregistered
registry_refusal none ps = some registry_absent
registry_refusal (some r) ps = unregistered r ps

abbrev pub is_sqlite : Str → Bool
is_sqlite store_type = str_eq store_type (codes "sqlite")

-- The tests of the store's configuration.
unfoldable pub store_refusal : C.Config → Option RunRefusal
store_refusal c =
    let store_type = trim_space c.store.type in
    if not (str_eq store_type (codes "postgres")) && not (is_sqlite store_type)
    then some store_type_unsupported
    else if is_empty (trim_space c.store.dsn)
    then some dsn_absent
    else if is_sqlite store_type && not (is_one c.workers.concurrency)
    then some sqlite_concurrency
    else none

-- `sqliteLockHeartbeatInterval`, in nanoseconds; Go's division truncates, as here.
unfoldable pub lock_heartbeat_interval : ℤ → ℕ
lock_heartbeat_interval (pos lease_ttl) =
    let half = lease_ttl / 2 in
    if lease_ttl == 0
    then second
    else if half == 0
    then 1
    else if ltb half second
    then half
    else if ltb (10 * second) half
    then 10 * second
    else half
lock_heartbeat_interval _ = second

-- `sqliteLockRenewTimeout`
unfoldable pub lock_renew_timeout : ℤ → ℕ
unfolding lock_heartbeat_interval
lock_renew_timeout lease_ttl =
    let interval = lock_heartbeat_interval lease_ttl in
    if ltb interval (2 * second) then 2 * second else interval

abbrev pub given_or : ℤ → Option ℤ → ℤ
given_or n none = n
given_or n (some value) = value

-- `workerSizing`: the pull size and the batch size
unfoldable pub worker_sizing : C.WorkersConfig → ℤ × ℤ
worker_sizing workers = (given_or (pos 0) workers.pull_size, given_or (pos 1) workers.batch_size)

abbrev pub build_pipeline : C.PipelineConfig → BuildPipelineConfig
build_pipeline p = record {
  name = p.name;
  sync_id = p.sync_id;
  source = record { type = p.source.type; projection_type = p.source.projection_type };
  projector = record { name = p.projector.name };
  target = record { type = p.target.type; index = p.target.index };
  applier = record { mode = p.applier.mode };
}

unfoldable pub build_pipelines : List C.PipelineConfig → List BuildPipelineConfig
build_pipelines [] = []
build_pipelines (p ∷ ps) = build_pipeline p ∷ build_pipelines ps

-- The configuration of the runner.
unfoldable pub runtime_config : C.Config → BuildConfig
unfolding build_pipelines
runtime_config c = record {
  store = record { type = trim_space c.store.type; dsn = trim_space c.store.dsn };
  pipelines = build_pipelines c.pipelines;
}

-- `os.Hostname`, which may fail
abbrev pub host_name : Option Str → Str
host_name none = codes "unknown-host"
host_name (some host) = if is_empty host then codes "unknown-host" else host

-- The worker's identifier: the flag's, or one with the host's name.
abbrev pub run_worker_id : Str → Option Str → Str
run_worker_id flag host = if is_empty flag then codes "deltaflow-cli-" ++ host_name host else flag

-- The error that the command returns, from that of the cycle and that of the lock's heartbeat; `ends`
-- tells the errors of a context that has ended.
abbrev pub run_answer : {E : Type 0} → (E → Bool) → Option E → Option E → Option E
run_answer ends none lock_err = lock_err
run_answer ends (some e) none = some e
run_answer ends (some e) (some lock_err) = if ends e then some lock_err else some e
