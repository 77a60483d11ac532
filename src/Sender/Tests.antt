-- ===== src/Sender/Tests.antt =====
-- The theorems on src/ph_native.c for two events and a server that first asks for patience.
use posthog_c.Base.{
  bit_xor, ◌/◌, bytes_eq, ◌≡◌, inr, refl, true, false, if◌then◌else◌, ◌==◌, length, none, List, [],
  ◌∷◌, codes, arith,
}
use posthog_c.Base.Int.{pos}
use posthog_c.Queue.{Event, zero_event}
use posthog_c.Core.Sample.{small}
use posthog_c.Serialize.{
  Platform, serialize_batch, serialize_event, properties, kind_members, scalar_entries, members,
  has_scalar_key, groups_member, entries_loop, is_emitted, wall_of, serialize_more,
}
use posthog_c.Json.{json_cstr, json_str, json_body, escape, utf8_seq_len, hex_digit}
use posthog_c.Time.{format_iso8601, uuid_v7, uuid_text, uuid_bytes, splitmix64, mix}
use posthog_c.Props.Util.{denylist_has}
use posthog_c.Sender.{World, Sender, send_run}
use posthog_c.Ratelimit.{blocked}
use posthog_c.Sender.{in_range, quota_limited_events}
use posthog_c.Sender.Bounds.{Small}
use posthog_c.Sender.Batches.{Delivered, EachFits}
use posthog_c.Sender.Delivery.{Accepts, send_run-Delivered}
use posthog_c.Sender.Parts.{Settled}
use posthog_c.Sender.Account.{send_run-Settled}
use posthog_c.Sender.Bounds.{Within, send_run-Within}

-- The first POST is answered by 500, every other one by 200.
abbrev patient : World
patient = record {
  post = λ tick body. record {
    status = if tick == 2 then pos 500 else pos 200;
    retry_after = none;
    body = [];
  };
  mono = λ tick. tick;
  wall = λ tick. tick;
  broken = λ tick. false;
  spills = λ tick body. true;
  expired = λ tick. false;
}

abbrev plain : Platform
plain = record {
  os = codes "Linux";
  arch = codes "x86_64";
  gmtime = λ s. record { year = 2024; month = 1; day = 1; hour = 0; minute = 0; second = 0 };
  is_finite = λ d. false;
  print_g = λ prec d. [];
  reads_as = λ t d. false;
}

abbrev two_events : List Event
two_events = zero_event ∷ zero_event ∷ []

abbrev idle : Sender
idle = record {
  ctx = small;
  rl = record { disabled_until = 0 };
  posted = [];
  spilled = [];
  handoffs = 0;
  tick = 0;
}

send_run-Settled_example :
    Settled plain patient two_events idle (send_run patient plain 2 two_events idle).0
send_run-Settled_example =
    send_run-Settled plain patient 2 two_events idle (omega arith) (omega arith)

idle-Within : Within 1048576 idle
idle-Within = record { limit = refl; all_posted = tt; all_spilled = tt }

send_run-Within_example : Within 1048576 (send_run patient plain 2 two_events idle).0
send_run-Within_example = send_run-Within 1048576 patient plain 2 two_events idle idle-Within

abbrev generous : World
generous = record patient {
  post = λ tick body. record { status = pos 200; retry_after = none; body = [] };
}

-- A limit that one of the two events keeps and both together do not.
abbrev tight : Sender
tight = record idle { ctx = record small { max_batch_bytes = 400 } }

-- The two random words of the UUID of event 0.
first_word : splitmix64 (bit_xor 99 0) ≡ 4824385676517010403
unfolding splitmix64 mix
first_word = refl

second_word : splitmix64 (bit_xor 4824385676517010403 0xD1B54A32D192ED03) ≡ 9165291932593480766
unfolding splitmix64 mix
second_word = refl

uuid_is :
    uuid_v7 (wall_of zero_event / 1000000) tight.ctx.uuid_salt zero_event.seq
    ≡ codes "00000000-0000-7be3-874c-3ee4fcf073a8"
unfolding uuid_v7 uuid_text uuid_bytes hex_digit wall_of
uuid_is = rw (first_word, second_word) refl

time_is : format_iso8601 plain.gmtime (wall_of zero_event) ≡ codes "2024-01-01T00:00:00.000Z"
unfolding format_iso8601 wall_of
time_is = refl

properties_is :
    properties plain tight.ctx zero_event
    ≡ codes
        "\"distinct_id\":\"install-1\",\"$lib\":\"posthog-c\",\"$lib_version\":\"0.1.0\",\"$lib_backend\":\"native\",\"$os\":\"Linux\",\"arch\":\"x86_64\""
unfolding properties kind_members scalar_entries members json_cstr json_str json_body escape
    utf8_seq_len has_scalar_key groups_member entries_loop is_emitted denylist_has bytes_eq
properties_is = refl

one_size : length (serialize_batch plain tight.ctx (zero_event ∷ [])) ≡ 295
unfolding serialize_batch serialize_event serialize_more json_cstr json_str json_body escape
    utf8_seq_len
one_size = rw (uuid_is, time_is, properties_is) refl

generous-Accepts : Accepts generous tight
unfolding in_range quota_limited_events blocked
generous-Accepts = record {
  in_time = λ t. refl;
  taken = λ t body. refl;
  no_quota = λ t body. refl;
  limiter_open = λ t. ground arith;
}

two_events-EachFits : EachFits plain tight two_events
two_events-EachFits =
    let fits : Small 400 (serialize_batch plain tight.ctx (zero_event ∷ [])) =
      inr (omega (arith, one_size)) in
    (fits, (fits, tt))

send_run-Delivered_example :
    Delivered plain two_events tight (send_run generous plain 2 two_events tight).0
    × ((send_run generous plain 2 two_events tight).1 ≡ false)
send_run-Delivered_example =
    send_run-Delivered generous plain 2 two_events tight (omega arith) (omega arith)
      generous-Accepts two_events-EachFits
