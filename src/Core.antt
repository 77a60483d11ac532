-- ===== src/Core.antt =====
-- The instance of src/ph_core.c: the part of `ph_ctx` of src/ph_internal.h that the capture path and
-- the identity calls keep, with the queue and the flag reloads of the other modules in it. Each call
-- is one step here, also where it takes `g_ph.lock` more than once.
pub mod Config
pub mod Submit
pub mod Api
pub mod Blob
pub mod Valid
pub mod Super
pub mod Groups
pub mod Run
pub mod Account
pub mod Order
pub mod Sample
mod Tests
use posthog_c.Base.{
  ℕ, zero, suc, Bool, true, false, Option, none, some, List, [], ◌∷◌, take, Bytes, bytes_eq,
  if◌then◌else◌,
}
use posthog_c.Props.{Props}
use posthog_c.Queue.{Queue}
use posthog_c.Reload.{Reload}

abbrev pub distinct_id_cap : ℕ
distinct_id_cap = 128

abbrev pub event_name_cap : ℕ
event_name_cap = 128

abbrev pub event_data_cap : ℕ
event_data_cap = 4096

abbrev pub max_groups : ℕ
max_groups = 4

-- `ph_result`
pub data Result : Type 0 where
  ok error disabled full bad_arg truncated rate_limited : Result

-- `ph_person_profiles`
pub data PersonProfiles : Type 0 where
  identified_only always never : PersonProfiles

-- `ph_event_kind`
pub data EventKind : Type 0 where
  capture identify alias group exception : EventKind

abbrev pub kind_code : EventKind → ℕ
kind_code capture = 0
kind_code identify = 1
kind_code alias = 2
kind_code group = 3
kind_code exception = 4

-- The bits of `ph_event.flags`.
abbrev pub evf_no_profile : ℕ
evf_no_profile = 1

abbrev pub evf_has_did : ℕ
evf_has_did = 2

abbrev pub evf_scrubbed : ℕ
evf_scrubbed = 4

abbrev pub evf_crash_replay : ℕ
evf_crash_replay = 8

-- The arithmetic of `double`, on the 64-bit patterns.
pub record Doubles : Type 0 where
  pub of_nat : ℕ → ℕ
  pub add : ℕ → ℕ → ℕ
  pub sub : ℕ → ℕ → ℕ
  pub mul : ℕ → ℕ → ℕ
  pub div : ℕ → ℕ → ℕ
  pub lt : ℕ → ℕ → Bool
  pub le : ℕ → ℕ → Bool

-- The token bucket, the members `rl_*` of `ph_ctx`.
pub record Bucket : Type 0 where
  pub rate : ℕ
  pub burst : ℕ
  pub tokens : ℕ
  pub last_mono : ℕ
  pub dropped : ℕ

-- `ph_flag`
pub record Flag : Type 0 where
  pub key : Bytes
  pub enabled : Bool
  pub has_variant : Bool
  pub has_payload : Bool
  pub called_sent : Bool
  pub variant : Bytes
  pub payload : Bytes

-- An index of `group_types`, `group_keys` and `group_props`.
pub record Group : Type 0 where
  pub type : Bytes
  pub key : Bytes
  pub props : Props

-- `has_hook` says whether `before_send` is set.
pub record Ctx : Type 0 where
  pub initialized : Bool
  pub enabled : Bool
  pub api_key : Bytes
  pub api_host : Bytes
  pub release : Bytes
  pub offline_path : Bytes
  pub person_profiles : PersonProfiles
  pub flush_at : ℕ
  pub max_batch : ℕ
  pub max_batch_bytes : ℕ
  pub max_queue : ℕ
  pub max_retries : ℕ
  pub send_flag_events : Bool
  pub disable_geoip : Bool
  pub has_hook : Bool
  pub denylist : List Bytes
  pub bucket : Bucket
  pub st_sent : ℕ
  pub st_failed : ℕ
  pub st_retries : ℕ
  pub st_before_send_dropped : ℕ
  pub distinct_id : Bytes
  pub identified : Bool
  pub super : Props
  pub groups : List Group
  pub flag_person_props : Props
  pub flags : List Flag
  pub reload : Reload
  pub epoch_wall_ns : ℕ
  pub epoch_mono_ns : ℕ
  pub uuid_salt : ℕ
  pub seq : ℕ
  pub queue : Queue

-- `ph_copy_capped`: what is in `dst`, where a NUL is written at all.
unfoldable pub copy_capped : ℕ → Option Bytes → Bytes
copy_capped zero src = []
copy_capped (suc room) none = []
copy_capped (suc room) (some src) = take room src

-- `s && s[0]`
abbrev pub non_empty : Option Bytes → Bool
non_empty none = false
non_empty (some []) = false
non_empty (some (b ∷ bs)) = true
