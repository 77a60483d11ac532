-- ===== src/Core/Sample.antt =====
-- A small instance, for the tests.
use posthog_c.Base.{◌+◌, ◌-◌, ◌*◌, ◌/◌, true, false, [], ◌∷◌, ltb, leb, codes, replicate}
use posthog_c.Props.{str}
use posthog_c.Queue.{Queue, zero_event}
use posthog_c.Reload as Fetches
use posthog_c.Core.{Doubles, Group, Ctx, identified_only}

-- Doubles that hold whole numbers.
abbrev pub whole : Doubles
whole = record {
  of_nat = λ n. n;
  add = λ a b. a + b;
  sub = λ a b. a - b;
  mul = λ a b. a * b;
  div = λ a b. a / b;
  lt = ltb;
  le = leb;
}

abbrev pub small_queue : Queue
small_queue = record {
  slots = replicate 8 zero_event;
  cap = 8;
  head = 0;
  size = 0;
  dropped = 0;
  woken = false;
}

abbrev pub guild : Group
guild = record {
  type = codes "guild";
  key = codes "g1";
  props = record { items = []; dropped = 0 };
}

-- An instance with one super property and one group.
abbrev pub small : Ctx
small = record {
  initialized = true;
  enabled = true;
  api_key = codes "phc_key";
  api_host = codes "http://localhost";
  release = [];
  offline_path = [];
  person_profiles = identified_only;
  flush_at = 20;
  max_batch = 50;
  max_batch_bytes = 1048576;
  max_queue = 8;
  max_retries = 3;
  send_flag_events = true;
  disable_geoip = false;
  has_hook = false;
  denylist = [];
  bucket = record { rate = 1; burst = 1; tokens = 1; last_mono = 10; dropped = 0 };
  st_sent = 0;
  st_failed = 0;
  st_retries = 0;
  st_before_send_dropped = 0;
  distinct_id = codes "install-1";
  identified = false;
  super = record {
    items = record { key = codes "os"; value = str (codes "pc") } ∷ [];
    dropped = 0;
  };
  groups = guild ∷ [];
  flag_person_props = record { items = []; dropped = 0 };
  flags = [];
  reload = Fetches.init 0;
  epoch_wall_ns = 1000;
  epoch_mono_ns = 10;
  uuid_salt = 99;
  seq = 4;
  queue = small_queue;
}
