-- ===== src/Tests/Servers.antt =====
-- The whole server at concrete inputs (knox-proxy/main.go).
use knox_proxy.Tests.Logins.{
  web, oidc, one, ann_session, pending, request, backchannel, one-IsConsistent, one-IsIndexed,
}
use knox_proxy.Base.{◌==◌, ℕ, bytes, lookup, false, none, some, inl, refl, ◌∷◌, []}
use knox_proxy.Middleware.{session_for}
use knox_proxy.Logout.{backchannel_logout}
use knox_proxy.Server.{fire_timer, serve_backchannel, page_of, serve, Chance, App, Site, Mux}
use knox_proxy.Jit.Handler.{Api}
use knox_proxy.World.{World}
use knox_proxy.Server.Revocation.{serve_backchannel-Revokes, Revokes}
use knox_proxy.Cookie.{new_pool}
use knox_proxy.Server.Access.{serve_stranger, IsUntouched}
use knox_proxy.Server.Events.{timer_fired, started}
use knox_proxy.Jit.Ticket.{approved, active, Ticket}
use knox_proxy.Jit.Repository.{find_ticket}
use knox_proxy.Jit.Repository.Identity.{HasVersion}
use knox_proxy.Server.Tickets.{ticket_stays}

abbrev mux : Mux
mux = record {
  elements = λ r. bytes "auth" ∷ bytes "backchannel-logout" ∷ [];
  clean_location = λ r. none;
  slash_location = λ r. [];
}

abbrev api : Api
api = record {
  webhook_url = [];
  max_duration = 1000;
  api_key = [];
  group_prefix = [];
  uuid = λ s. some s;
  parse_time = λ s. none;
  decode_create = λ b. none;
  decode_update = λ b. none;
  query = λ name r. [];
}

abbrev pub site : Site
site = record {
  mux = mux;
  web = web;
  oidc = oidc;
  backchannel = backchannel;
  api = api;
  decode = λ b. none;
  sanitizer = record { dangerous_nodes = [] };
  encode = λ p. [];
}

-- A clock, and an n8n that does not answer.
abbrev world : World
world = record {
  State = ℕ;
  now = λ s. s;
  login = λ email password s. (none, s);
  send = λ r s. (none, s);
}

abbrev app : App world
app = record {
  auth_state = pending;
  sessions = one;
  jit = record { db = record { tickets = []; faults = [] }; timers = []; sent = [] };
  proxy = record {
    provider = record { get_credential = λ team. none; list_teams = [] };
    group_prefix = [];
    target_scheme = [];
    target_host = [];
  };
  pool = new_pool 60;
  outside = 6;
  closed = false;
}

abbrev pub chance : Chance
chance = record {
  random = some (1 ∷ []);
  draw = record { random = none; date = []; id = []; now = 6 };
}

serve_stranger_example : IsUntouched site world request app (serve site world chance request app).1
unfolding session_for
serve_stranger_example =
    serve_stranger site world request chance app (record { no_session = refl; no_key = inl refl })

serve_backchannel-Revokes_example :
    Revokes site world request app (bytes "s1") ann_session (serve site world chance request app).1
unfolding page_of ◌==◌ bytes serve serve_backchannel backchannel_logout lookup
serve_backchannel-Revokes_example =
    serve_backchannel-Revokes site world request app (bytes "s1") ann_session chance
      one-IsConsistent one-IsIndexed refl refl refl

abbrev ticket : Ticket
ticket = record {
  id = bytes "u1";
  ticket_number = bytes "JIT-20260101-0A0B";
  email = bytes "ann@x.org";
  display_name = bytes "Ann";
  team = bytes "a";
  workflow_id = bytes "w1";
  access_type = bytes "run";
  description = bytes "a nightly fix";
  period_start = 5;
  period_end = 200;
  status = approved;
  status_reason = [];
  updated_by = [];
  created_at = 1;
  updated_at = 1;
}

-- The access of the ticket is due.
abbrev busy : App world
busy = record app {
  jit = record {
    db = record { tickets = ticket ∷ []; faults = [] };
    timers = (bytes "u1", record { target_status = active; due = 5 }) ∷ [];
    sent = [];
  };
}

ticket_stays_example :
    HasVersion (bytes "u1") ticket (fire_timer site world (bytes "u1") busy).jit.db
unfolding find_ticket ◌==◌ bytes
ticket_stays_example =
    ticket_stays site world (bytes "u1") ticket (timer_fired busy (bytes "u1") started) refl
