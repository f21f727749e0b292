-- ===== src/Jit/Listing.antt =====
-- The lists of tickets: ListTicketsByEmail and ListAllTickets of knox-proxy/jit/repository.go, and the
-- endpoints for them. A query is a filter, an order by the time of creation and a page.
pub mod Laws
use knox_proxy.Base.{
  length, drop, take, ltb, ◌||◌, bytes, eqb, leb, ◌&&◌, ◌==◌, Option, if◌then◌else◌, List, Bool,
  false, true, none, some, inr, inl, refl, ◌∷◌, [], ℕ, Str,
}
use knox_proxy.Jit.Handler.{
  ticket_list, reply, failure, unauthorized_user, Reply, Endpoint, TicketFilter, Api,
}
use knox_proxy.Jit.Ticket.{status_text, Ticket}
use knox_proxy.Jit.Repository.{after_query, query_fails, Db}
use knox_proxy.Http.{Request}
use knox_proxy.Jit.Scheduler.{Jit}
use knox_proxy.Context.{RequestUser}
use knox_proxy.Jit.Numbers.{parse_int_param}

-- "column = value", asked only for a value that is not "".
unfoldable pub matches_column : Str → Str → Bool
matches_column [] column = true
matches_column (c ∷ value) column = column == (c ∷ value)

unfoldable pub matches_filter : TicketFilter → Ticket → Bool
unfolding matches_column
matches_filter f t =
    matches_column f.email t.email
    && matches_column f.team t.team
    && matches_column f.status (status_text t.status)
    && matches_column f.workflow_id t.workflow_id

-- WHERE email = … AND status = …, where the email is asked even if it is "".
unfoldable pub matches_owner : Str → Str → Ticket → Bool
unfolding matches_column
matches_owner email status t = t.email == email && matches_column status (status_text t.status)

unfoldable pub select_tickets : (Ticket → Bool) → List Ticket → List Ticket
select_tickets test [] = []
select_tickets test (t ∷ ts) =
    let rest = select_tickets test ts in if test t then t ∷ rest else rest

unfoldable pub insert_newest : Ticket → List Ticket → List Ticket
insert_newest t [] = t ∷ []
insert_newest t (u ∷ us) =
    if leb u.created_at t.created_at then t ∷ u ∷ us else u ∷ insert_newest t us

-- ORDER BY created_at DESC
unfoldable pub newest_first : List Ticket → List Ticket
unfolding insert_newest
newest_first [] = []
newest_first (t ∷ ts) = insert_newest t (newest_first ts)

-- A limit of 0 or above the most is 50.
unfoldable pub page_limit : ℕ → ℕ → ℕ
page_limit most limit = if eqb limit 0 || ltb most limit then 50 else limit

-- The count and the page are two queries; none is an error.
unfoldable pub run_page : (Ticket → Bool) → ℕ → ℕ → Db → Option (List Ticket × ℕ) × Db
unfolding select_tickets newest_first
run_page test limit offset db =
    let all = select_tickets test db.tickets in
    if query_fails db
    then (none, after_query db)
    else if query_fails (after_query db)
    then (none, after_query (after_query db))
    else (
      some (take limit (drop offset (newest_first all)), length all),
      after_query (after_query db),
    )

unfoldable pub list_tickets_by_email : Str → Str → ℕ → Db → Option (List Ticket × ℕ) × Db
unfolding run_page matches_owner page_limit
list_tickets_by_email email status limit db =
    run_page (matches_owner email status) (page_limit 100 limit) 0 db

unfoldable pub list_all_tickets : TicketFilter → Db → Option (List Ticket × ℕ) × Db
unfolding run_page matches_filter page_limit
list_all_tickets f db = run_page (matches_filter f) (page_limit 200 f.limit) f.offset db

unfoldable pub listed : Option (List Ticket × ℕ) × Db → Jit → Reply × Jit
listed (none, db) j =
    (failure 500 "Internal Error" (bytes "Failed to list tickets"), record j { db = db })
listed (some (tickets, total), db) j = (reply 200 (ticket_list tickets total), record j { db = db })

module _ (api : Api) where
  unfoldable pub handle_list_tickets : Option RequestUser → Endpoint
  handle_list_tickets none r now j = (unauthorized_user, j)
  handle_list_tickets (some user) r now j =
      listed
        (list_tickets_by_email user.email (api.query (bytes "status") r)
          (parse_int_param (api.query (bytes "limit") r) 50) j.db)
        j

  unfoldable pub filter_of : Request → TicketFilter
  filter_of r = record {
    email = api.query (bytes "email") r;
    team = api.query (bytes "team") r;
    status = api.query (bytes "status") r;
    workflow_id = api.query (bytes "workflow_id") r;
    limit = parse_int_param (api.query (bytes "limit") r) 50;
    offset = parse_int_param (api.query (bytes "offset") r) 0;
  }

  unfoldable pub handle_admin_list_tickets : Endpoint
  handle_admin_list_tickets r now j = listed (list_all_tickets (filter_of r) j.db) j
