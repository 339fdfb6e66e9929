-- ===== src/State/Listing.antt =====
-- The listing queries of rust/src/state.rs.
use mathlib.Core.List.{Perm}
use megaserver.Common.{String, ◌≡◌, ap, none, some, List, select, take, reverse, Option}
use megaserver.Rows.{text_key, where_key}
use megaserver.Rows.Order.{order_by-perm, order_by-newest_first, text_before}
use megaserver.Rows.Ids.{HasGrowingIds-select}
use megaserver.Model.{RouteRecord}
use megaserver.State.{Db}
use megaserver.State.WellFormed.{IsWellFormed}
use megaserver.State.Services.{list_routes, route_service, route_domain}
use megaserver.State.Resources.{list_events, event_id, event_of}

abbrev pub wanted : Db → Option String → List RouteRecord
wanted db none = db.routes.rows
wanted db (some service) = where_key route_service service db.routes.rows

-- Listing routes returns the wanted rows, each once, whatever the order.
pub list_routes-perm :
    (db : Db) (service : Option String) → Perm (list_routes db service) (wanted db service)
unfolding list_routes
list_routes-perm db none = order_by-perm (text_before route_domain) db.routes.rows
list_routes-perm db (some service) =
    order_by-perm (text_before route_domain) (where_key route_service service db.routes.rows)

-- In a well-formed database the events of a service are listed from the last emitted backwards, and at most 100.
pub list_events-newest_first :
    (db : Db) (service : String)
    → IsWellFormed db
    → list_events db (some service) ≡ take 100 (reverse (select (event_of service) db.events.rows))
unfolding list_events
list_events-newest_first db service h = ap (take 100) (
    order_by-newest_first event_id (select (event_of service) db.events.rows)
      (HasGrowingIds-select event_id (event_of service) db.events.rows h.events.growing))
