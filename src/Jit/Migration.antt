-- ===== src/Jit/Migration.antt =====
-- Migrate of knox-proxy/jit/db.go: the table jit_tickets is created if it is not there.
use knox_proxy.Base.{Bool, if◌then◌else◌, List, Option, none, some, []}
use knox_proxy.Jit.Repository.{later_faults, next_fault, Db}
use knox_proxy.Jit.Ticket.{Ticket}

-- What a connection reaches: the rows of the table, or no such table yet.
pub record Database : Type 0 where
  pub table : Option (List Ticket)
  -- whether each of the next queries fails
  pub faults : List Bool

abbrev pub rows_or_empty : Option (List Ticket) → List Ticket
rows_or_empty none = []
rows_or_empty (some ts) = ts

-- Exec of migrationSQL; none is an error.
unfoldable pub migrate : Database → Option Db
migrate d =
    if next_fault d.faults
    then none
    else some (record { tickets = rows_or_empty d.table; faults = later_faults d.faults })
