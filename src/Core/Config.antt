-- ===== src/Core/Config.antt =====
-- validate_config, ph_config_defaults and ph_init of src/ph_core.c. An `int` of the configuration is a
-- ℤ. The threads, the transport and the crash handler that ph_init starts are left out.
use posthog_c.Base.{
  ℕ, zero, suc, ◌*◌, Bool, true, false, not, ◌&&◌, ◌||◌, Option, none, some, List, [], ◌∷◌, length,
  take, Bytes, ltb, leb, if◌then◌else◌, bytes_eq, codes, ◌==◌,
}
use posthog_c.Base.Int.{ℤ, pos, lt_nat, pos_part}
use posthog_c.Props.{key_cap, empty_props}
use posthog_c.Queue as Ring
use posthog_c.Queue.{Queue}
use posthog_c.Reload
use posthog_c.Core.{
  Result, ok, error, bad_arg, PersonProfiles, identified_only, always, never, Doubles, Bucket, Ctx,
  copy_capped, non_empty, distinct_id_cap,
}

abbrev pub api_key_cap : ℕ
api_key_cap = 96

abbrev pub host_cap : ℕ
host_cap = 256

abbrev pub release_cap : ℕ
release_cap = 96

abbrev pub path_cap : ℕ
path_cap = 512

abbrev pub max_denylist : ℕ
max_denylist = 16

abbrev pub config_max_batch : ℕ
config_max_batch = 10000

abbrev pub config_max_queue : ℕ
config_max_queue = 100000

-- `ph_config`; the list of `property_denylist` has `property_denylist_count` elements, where that is
-- not negative.
pub record Config : Type 0 where
  pub api_key : Option Bytes
  pub api_host : Option Bytes
  pub distinct_id : Option Bytes
  pub flush_at : ℤ
  pub flush_interval_ms : ℤ
  pub max_batch : ℤ
  pub max_queue : ℤ
  pub request_timeout_ms : ℤ
  pub max_retries : ℤ
  pub enabled : Bool
  pub person_profiles : ℤ
  pub release : Option Bytes
  pub offline_path : Option Bytes
  pub has_hook : Bool
  pub send_flag_events : Bool
  pub disable_geoip : Bool
  pub max_batch_bytes : ℤ
  pub stats_interval_ms : ℤ
  pub property_denylist : Option (List (Option Bytes))
  pub property_denylist_count : ℤ
  pub rate_limit_per_sec : ℤ

abbrev pub default_host : Bytes
default_host = codes "https://us.i.posthog.com"

-- `ph_config_defaults`
abbrev pub config_defaults : Config
config_defaults = record {
  api_key = none;
  api_host = some default_host;
  distinct_id = none;
  flush_at = pos 20;
  flush_interval_ms = pos 30000;
  max_batch = pos 50;
  max_queue = pos 1000;
  request_timeout_ms = pos 10000;
  max_retries = pos 3;
  enabled = true;
  person_profiles = pos 0;
  release = none;
  offline_path = none;
  has_hook = false;
  send_flag_events = true;
  disable_geoip = false;
  max_batch_bytes = pos (1024 * 1024);
  stats_interval_ms = pos 0;
  property_denylist = none;
  property_denylist_count = pos 0;
  rate_limit_per_sec = pos 0;
}

-- `v > 0 ? v : fallback`
unfoldable pub def_int : ℤ → ℕ → ℕ
def_int v fallback = if ltb 0 (pos_part v) then pos_part v else fallback

-- `strlen(s) >= cap`, where there is a string.
unfoldable pub string_over_cap : Option Bytes → ℕ → Bool
string_over_cap none cap = false
string_over_cap (some s) cap = leb cap (length s)

abbrev pub is_negative : ℤ → Bool
is_negative v = lt_nat v 0

-- `strncmp(s, prefix, n) == 0`
abbrev pub starts_with : Bytes → Bytes → Bool
starts_with s prefix = bytes_eq (take (length prefix) s) prefix

abbrev pub host_of : Option Bytes → Bytes
host_of none = default_host
host_of (some []) = default_host
host_of (some (b ∷ bs)) = b ∷ bs

unfoldable pub any_over_cap : List (Option Bytes) → Bool
any_over_cap [] = false
any_over_cap (d ∷ ds) = string_over_cap d key_cap || any_over_cap ds

abbrev pub host_ok : Bytes → Bool
host_ok host = starts_with host (codes "http://") || starts_with host (codes "https://")

-- The tests of `validate_config` on the strings, the policy, the numbers and the denylist.
abbrev pub long_setting : Config → Bool
long_setting c =
    string_over_cap c.api_key api_key_cap
    || string_over_cap (some (host_of c.api_host)) host_cap
    || string_over_cap c.release release_cap
    || string_over_cap c.offline_path path_cap

unfoldable pub strings_ok : Config → Bool
strings_ok c =
    non_empty c.api_key
    && non_empty c.distinct_id
    && host_ok (host_of c.api_host)
    && not (long_setting c || string_over_cap c.distinct_id distinct_id_cap)

unfoldable pub policy_ok : ℤ → Bool
policy_ok p = not (is_negative p) && leb (pos_part p) 2

unfoldable pub numbers_ok : Config → Bool
numbers_ok c =
    not (
      is_negative c.flush_at
      || is_negative c.flush_interval_ms
      || is_negative c.max_batch
      || is_negative c.max_queue
      || is_negative c.request_timeout_ms
      || is_negative c.max_retries
      || is_negative c.max_batch_bytes
      || is_negative c.stats_interval_ms)
    && not (
        ltb config_max_batch (def_int c.max_batch 50)
        || ltb config_max_queue (def_int c.max_queue 1000))

unfoldable pub denylist_ok : Option (List (Option Bytes)) → ℤ → Bool
denylist_ok list count =
    if is_negative count || ltb max_denylist (pos_part count) then false else elim list [
      | none ↦ pos_part count == 0
      | some ds ↦ not (any_over_cap (take (pos_part count) ds))
    ]

unfoldable pub validate_config : Option Config → Result
validate_config none = bad_arg
validate_config (some c) =
    if not c.enabled
    then ok
    else if strings_ok c
        && policy_ok c.person_profiles
        && numbers_ok c
        && denylist_ok c.property_denylist c.property_denylist_count
    then ok
    else bad_arg

-- The policy of a code that `validate_config` accepts.
abbrev pub policy_of : ℕ → PersonProfiles
policy_of zero = identified_only
policy_of (suc zero) = always
policy_of (suc (suc n)) = never

-- The copying loop of the denylist: NULL and empty keys are left out.
unfoldable pub copy_denylist : List (Option Bytes) → List Bytes
copy_denylist [] = []
copy_denylist (d ∷ ds) =
    let rest = copy_denylist ds in if non_empty d then copy_capped key_cap d ∷ rest else rest

abbrev pub denylist_of : Option (List (Option Bytes)) → ℤ → List Bytes
denylist_of none count = []
denylist_of (some ds) count =
    copy_denylist
      (take (if ltb max_denylist (pos_part count) then max_denylist else pos_part count) ds)

-- The ring that `calloc` never gave.
abbrev pub no_queue : Queue
no_queue = record { slots = []; cap = 0; head = 0; size = 0; dropped = 0; woken = false }

unfoldable pub start_bucket : Doubles → ℤ → ℕ → Bucket
start_bucket D per_sec mono =
    let rate = if ltb 0 (pos_part per_sec) then D.of_nat (pos_part per_sec) else D.of_nat 0 in
    record { rate = rate; burst = rate; tokens = rate; last_mono = mono; dropped = 0 }

-- The context that `ph_init` has set up before the queue; the clocks, the salt and the last reload id
-- of an earlier life are arguments.
unfoldable pub fresh_ctx : Doubles → Config → ℕ → ℕ → ℕ → ℕ → Ctx
fresh_ctx D c wall mono salt last_id = record {
  initialized = true;
  enabled = false;
  api_key = copy_capped api_key_cap c.api_key;
  api_host = copy_capped host_cap (some (host_of c.api_host));
  release = copy_capped release_cap c.release;
  offline_path = copy_capped path_cap c.offline_path;
  person_profiles = policy_of (pos_part c.person_profiles);
  flush_at = def_int c.flush_at 20;
  max_batch = def_int c.max_batch 50;
  max_batch_bytes = pos_part c.max_batch_bytes;
  max_queue = def_int c.max_queue 1000;
  max_retries = if is_negative c.max_retries then 3 else pos_part c.max_retries;
  send_flag_events = c.send_flag_events;
  disable_geoip = c.disable_geoip;
  has_hook = c.has_hook;
  denylist = denylist_of c.property_denylist c.property_denylist_count;
  bucket = start_bucket D c.rate_limit_per_sec mono;
  st_sent = 0;
  st_failed = 0;
  st_retries = 0;
  st_before_send_dropped = 0;
  distinct_id = copy_capped distinct_id_cap c.distinct_id;
  identified = false;
  super = empty_props;
  groups = [];
  flag_person_props = empty_props;
  flags = [];
  reload = Reload.init last_id;
  epoch_wall_ns = wall;
  epoch_mono_ns = mono;
  uuid_salt = salt;
  seq = 0;
  queue = no_queue;
}

-- The instance with its ring: `allocated` and `started` say whether `ph_queue_init` and the start of
-- the sender succeed. `none` is an instance that is not initialized.
abbrev pub with_queue : Ctx → Option Queue → Bool → Option Ctx × Result
with_queue g none started = (none, error)
with_queue g (some q) false = (none, error)
with_queue g (some q) true = (some (record g { enabled = true; queue = q }), ok)

-- `if (valid != PH_OK) return valid;`
abbrev pub if_ok : Result → Option Ctx × Result → Option Ctx × Result
if_ok ok rest = rest
if_ok e rest = (none, e)

-- `ph_init` behind the validation.
abbrev pub start : Ctx → Bool → Bool → Bool → Option Ctx × Result
start g enabled allocated started =
    if not enabled
    then (some g, ok)
    else with_queue g (Ring.init (pos g.max_queue) allocated) started

-- `ph_init` on an instance that is not initialized, for a configuration that is not NULL.
unfoldable pub init : Doubles → Config → ℕ → ℕ → ℕ → ℕ → Bool → Bool → Option Ctx × Result
init D c wall mono salt last_id allocated started =
    if_ok (validate_config (some c))
      (start (fresh_ctx D c wall mono salt last_id) c.enabled allocated started)
