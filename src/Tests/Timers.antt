-- ===== src/Tests/Timers.antt =====
-- The timers over the time of a server at concrete inputs (knox-proxy/jit/scheduler.go).
use mathlib.Core.Path.{subst}
use knox_proxy.Base.{inr, inl, ◌++◌, delete, insert, ◌==◌, lookup, bytes, ◌≡◌, some, refl, arith}
use knox_proxy.Tests.Startup.{migrated_table, booted, machine, vault, ticket, starts, world}
use knox_proxy.Tests.Servers.{site}
use knox_proxy.Server.Events.{Runs, started, waited, timer_fired}
use knox_proxy.Config.{config_of}
use knox_proxy.Jit.Ticket.{status_text, Ticket, active, expired}
use knox_proxy.Server.OnTime.{IsSound, access_on_time, not_early}
use knox_proxy.Server.Boot.{assemble, configured}
use knox_proxy.Server.{Site, fire_timer, App}
use knox_proxy.Jit.Repository.{
  select_ticket, get_ticket_by_id, update_ticket, same_status, system_update_row,
  system_update_status, system_status, Db, find_ticket,
}
use knox_proxy.Jit.Scheduler.{
  cancel, fire_webhook, finish_transition, execute_transition, is_pending, pending_transitions,
  schedule_all, schedule, init_from_db, fire, next_transition,
}
use knox_proxy.Jit.Migration.{migrate, Database}
use knox_proxy.Retry.{new_db}
use knox_proxy.Jit.Scheduler.Early.{ChangesAt}
use knox_proxy.Server.Told.{webhook_told}

-- The clock is set to 150, and the timer of the approved ticket fires.
abbrev later : App world
later =
    fire_timer (configured world booted site) world (bytes "u1")
      (record booted.app { outside = 150 })

run : Runs (configured world booted site) world booted.app later
run = timer_fired (record booted.app { outside = 150 }) (bytes "u1") (waited booted.app 150 started)

abbrev running_ticket : Ticket
running_ticket = system_status active 150 ticket

there : find_ticket (bytes "u1") later.jit.db.tickets ≡ some running_ticket
unfolding find_ticket fire_timer fire lookup bytes assemble init_from_db schedule schedule_all
    pending_transitions is_pending next_transition execute_transition system_update_status
    system_update_row same_status status_text ◌==◌ update_ticket get_ticket_by_id select_ticket
    finish_transition fire_webhook insert cancel delete configured config_of
there = refl

sound :
    (found : Database) (db : Db)
    → new_db machine.open_pool machine.ping ≡ some found
    → migrate found ≡ some db
    → IsSound site.api.uuid db
sound found db reached migrated =
    subst (IsSound site.api.uuid) (migrated_table found db reached migrated)
      (record { quiet = refl; unique = (tt, tt); canonical_ids = λ t m. refl })

access_on_time_example :
    ChangesAt site.api.uuid booted.config.jit_webhook_url
      (bytes "u1")
      later.jit
      running_ticket
      expired
      200
access_on_time_example =
    access_on_time site world vault machine 6 5 booted (λ id key e. refl) sound starts run
      (bytes "u1") running_ticket expired 200 there (inr (inl refl, refl, refl))

not_early_example :
    find_ticket
      (bytes "u1")
      (fire_timer (configured world booted site) world (bytes "u1") later).jit.db.tickets
    ≡ some running_ticket
unfolding fire_timer
not_early_example =
    not_early site world vault machine 6 5 booted (λ id key e. refl) sound starts run (bytes "u1")
      running_ticket expired 200 there (inr (inl refl, refl, refl)) (bytes "u1") (omega arith)

abbrev hooked : Site
hooked = record site { api = record site.api { webhook_url = bytes "http://hook" } }

webhook_told_example :
    find_ticket
      (bytes "u1")
      (fire_timer hooked world (bytes "u1") (record booted.app { outside = 150 })).jit.db.tickets
    ≡ find_ticket (bytes "u1") (
        (fire_timer hooked world (bytes "u1") (record booted.app { outside = 150 })).jit.sent
        ++ booted.app.jit.db.tickets)
unfolding assemble init_from_db bytes
webhook_told_example =
    webhook_told hooked world (bytes "u1") (λ id key e. refl) refl refl refl
      (timer_fired (record booted.app { outside = 150 }) (bytes "u1")
        (waited booted.app 150 started))
