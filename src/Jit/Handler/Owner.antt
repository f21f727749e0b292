-- ===== src/Jit/Handler/Owner.antt =====
-- Who can cancel a ticket (handleCancelTicket of knox-proxy/jit/handler.go).
use knox_proxy.Base.{
  trim_suffix, eq_iff, ◌==◌, arith, Option-cases, List, Bool-cases, none, [], bytes, Option, ◌≡◌, ℕ,
  Str, true, some, inr, inl, refl,
}
use knox_proxy.Jit.Ticket.{requested, canceled, Status, Ticket, is_valid_transition}
use knox_proxy.Jit.Repository.Laws.{find_ticket-id, IsTarget, update_ticket_status_cases, IsKeptOr}
use knox_proxy.Jit.Repository.{
  after_query, query_fails, select_ticket, Db, get_ticket_by_id, Updated, Uuid, same_status,
  find_ticket, with_status,
}
use knox_proxy.Jit.Handler.{
  extract_path_param, handle_cancel_ticket, updated, refused, owned_ticket, ticket_canceled,
  cancel_owned, Api,
}
use knox_proxy.Context.{RequestUser}
use knox_proxy.Jit.Scheduler.{fire_webhook, Jit}
use knox_proxy.Http.{Request}

from_requested : (s : Status) → is_valid_transition s canceled ≡ true → s ≡ requested
unfolding is_valid_transition
from_requested requested h = refl
from_requested _ h = absurd (cc h)

-- A ticket is as it was, or it was a requested ticket of this user, and is canceled.
abbrev pub IsCanceledBy : Str → ℕ → Option Ticket → Option Ticket → Type 0
IsCanceledBy email now =
    IsKeptOr (λ t. (t.email ≡ email) × (t.status ≡ requested))
      (with_status canceled (bytes "Canceled by user") email now)

pub canceled_by :
    (uuid : Uuid) (email id key k : Str) (now : ℕ) (t : Ticket) (ts : List Ticket)
    (after : Option Ticket)
    → uuid id ≡ some key
    → find_ticket key ts ≡ some t
    → t.email ≡ email
    → IsKeptOr
        (IsTarget uuid id canceled (bytes "Canceled by user") email now)
        (with_status canceled (bytes "Canceled by user") email now)
        (find_ticket k ts)
        after
    → IsCanceledBy email now (find_ticket k ts) after
canceled_by uuid email id key k now t ts after u h own (inl same) = inl same
canceled_by uuid email id key k now t ts after u h own (inr (t', h', (p, u'), changed)) =
    let here : t'.id ≡ k = find_ticket-id k t' ts h' in
    let same : key ≡ k = cc (u, u', here) in
    let twice : t ≡ t' = cc (h, h', same) in
    inr (t', h', (rw (← twice) own, from_requested t'.status p), changed)

module _ (api : Api) where
  ticket_canceled-db :
      (id : Str) (m : Updated × Db) (j : Jit) → (ticket_canceled api id m j).1.db ≡ m.1
  unfolding ticket_canceled fire_webhook
  ticket_canceled-db id (refused e, db) j = refl
  ticket_canceled-db id (updated none, db) j = refl
  ticket_canceled-db id (updated (some t), db) j = ground arith

  canceled_rows :
      (user : RequestUser) (id key : Str) (now : ℕ) (t : Ticket) (j : Jit) (k : Str)
      → api.uuid id ≡ some key
      → find_ticket key j.db.tickets ≡ some t
      → t.email ≡ user.email
      → IsCanceledBy user.email now
          (find_ticket k j.db.tickets)
          (find_ticket k (cancel_owned api user id now t j).1.db.tickets)
  unfolding cancel_owned
  canceled_rows user id key now t j k u h own = elim (Bool-cases (same_status t.status requested)) [
    | inl e ↦
        rw (e, ticket_canceled-db)
          (canceled_by api.uuid user.email id key k now t j.db.tickets _ u h own (
            update_ticket_status_cases api.uuid id canceled (bytes "Canceled by user") user.email
              now j.db k))
    | inr e ↦ inl (rw e)
  ]

  lookup_owned :
      (user : RequestUser) (id message : Str) (now : ℕ) (j : Jit) (k : Str)
      → IsCanceledBy user.email now (find_ticket k j.db.tickets) (
          find_ticket k
            (owned_ticket api user.email message
              (get_ticket_by_id api.uuid id j.db)
              (cancel_owned api user id now)
              j).1.db.tickets)
  unfolding owned_ticket get_ticket_by_id select_ticket
  lookup_owned user id message now j k = elim (Bool-cases (query_fails j.db)) [
    | inl e ↦ inl (rw e)
    | inr e ↦ elim (Option-cases (api.uuid id)) [
      | inl bad ↦ inl (rw (e, bad))
      | inr (key, u) ↦ elim (Option-cases (find_ticket key j.db.tickets)) [
        | inl gone ↦ inl (rw (e, u, gone))
        | inr (t, h) ↦ elim (Bool-cases (t.email == user.email)) [
          | inl own ↦
              rw (e, u, h, own)
                (canceled_rows user id key now t (record j { db = after_query j.db }) k u h
                  ((eq_iff t.email user.email).0 own))
          | inr other ↦ inl (rw (e, u, h, other))
        ]
      ]
    ]
  ]

  -- A request to cancel leaves every ticket as it was, or it was a requested ticket of the user who
  -- asks, and is canceled.
  pub handle_cancel_ticket_own :
      (user : RequestUser) (r : Request) (now : ℕ) (j : Jit) (k : Str)
      → IsCanceledBy user.email now
          (find_ticket k j.db.tickets)
          (find_ticket k (handle_cancel_ticket api (some user) r now j).1.db.tickets)
  unfolding handle_cancel_ticket
  handle_cancel_ticket_own user r now j k =
      let id =
        extract_path_param (trim_suffix r.path (bytes "/cancel")) (bytes "/knox-api/tickets/") in
      elim (Bool-cases (id == [])) [
        | inl e ↦ inl (rw e)
        | inr e ↦ rw e (lookup_owned user id _ now j k)
      ]
