-- ===== src/Proxy/Tests/Data.antt =====
-- A route, its settings and a course of events, for the tests of the request handler.
use gate_flow.Prelude.{ℕ, true, false, none, some, List, [], ◌∷◌, ◌++◌, if◌then◌else◌}
use gate_flow.Prelude.Int.{pos, negsuc}
use gate_flow.Prelude.Text.{Text, codes, same, starts_with}
use gate_flow.Models.{KeyRecord, Tier}
use gate_flow.Router.{Route, Routes}
use gate_flow.Proxy.State.{
  World, Settings, Answer, responds, unreachable, Platform, Course, Request,
}

abbrev pub users : Text
users = codes "users"

abbrev pub route : Route
route = record {
  prefix = users;
  target_url = codes "http://users:8000";
  fallback_url = none;
  strip_prefix = true;
  requires_auth = true;
  allowed_methods = [];
}

abbrev pub routes : Routes
routes = (users, route) ∷ []

abbrev pub ann : KeyRecord
ann = record {
  user_id = codes "ann";
  tier = codes "free";
  active = true;
  expires_at = none;
  rate_limit_custom = negsuc 0;
  rate_limit_custom_refill = none;
  request_count_lifetime = pos 0;
  allowed_ips = [];
}

abbrev pub free : Tier
free = record { capacity = 10; refill_rate = 1000000; monthly_quota = pos 5 }

abbrev pub settings : Settings
settings = record {
  mtls_enabled = false;
  mtls_header = codes "X-Client-Verify";
  mtls_required_value = codes "SUCCESS";
  global_rate_limit_enabled = false;
  global_limit = record { capacity = 10; refill_rate = 1000000 };
  idempotency_enabled = true;
  idempotency_ttl = 3600;
  idempotency_max_body_bytes = 100;
  downstream_max_retries = 1;
  max_request_body_bytes = 4;
  circuit = record { threshold = 5; window = 30000000; open_dur = 30000000 };
  forwarded_allow_ips = [];
  auth = record {
    key_secret = codes "s";
    key_secret_versions = [];
    hmac = λ secret key. codes "id";
    addresses = record { is_address = λ ip. true; in_network = λ ip rule. same ip rule };
    default_tier = free;
    cache = record { ttl = 60; maxsize = 100 };
  };
}

-- An absolute URL is taken as it is, and any other goes behind the base.
abbrev pub join_url : Text → Text → Text
join_url base url = if starts_with (codes "http://") url then url else base ++ url

abbrev pub platform : Platform
platform = record { urljoin = join_url; int_of = λ s. none; digest = λ s. s }

abbrev pub course_with : Answer → Course
course_with a = record {
  store = record {
    get_key_record = λ now key_id. some ann;
    get_tier_config = λ now name. some free;
  };
  moment = record { asked_at = 1; read_at = 1; stored_at = 1; clock = 0 };
  rate_at = 1;
  global_at = 2;
  reserve_at = 3;
  reserve_month = codes "2026-11";
  quota_ttl = 1000;
  lookup_at = 4;
  refund_at = 9;
  refund_month = codes "2026-11";
  store_at = 9;
  request_id = codes "r";
  overhead = codes "1.000";
  total = codes "2.000";
  tries = λ n. record { check_at = 5; report_at = 6; answer = a };
  fallback = unreachable;
}

abbrev pub good : Course
good = course_with (responds 200 [] (1 ∷ []))

abbrev pub fresh : World
fresh = record {
  buckets = λ k. none;
  quotas = λ k. none;
  circuits = λ k. none;
  replies = λ k. none;
  caches = record { keys = []; tiers = [] };
  counts = λ k. 0;
  sent = [];
}

abbrev pub request : Text → List ℕ → Request
request path body = record {
  peer = none;
  path = path;
  method = codes "POST";
  headers = (codes "x-api-key", codes "k") ∷ (codes "idempotency-key", codes "i") ∷ [];
  body = body;
}
