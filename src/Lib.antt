-- ===== src/Lib.antt =====
-- A verification library for the nails studio's booking and CRM bot (`app/`): its scheduling core,
-- the rules of windows and bookings, the holds of windows, the life of its aggregates, its payments
-- and the authority of its staff.
--
-- The bot is layered. Handlers read Telegram updates and call the services of `app/services`; the
-- services load rows through repositories, decide by the pure rules of `app/domain`, and commit.
-- Modelled are the rules and the services that mutate locked aggregates. Where a service gets its
-- rows as arguments, so does the model; where it loads them itself, the model is a store of tables
-- and the queries of the repositories are functions of it. What a call leaves is a value.
--
-- - Base: Boolean tests of naturals, lists, stable sorting (`sorted`), lexicographic keys, and the
--   rows of a table: `find` for a query, `change` for an update by a test.
-- - Enums: the enums of `app/domain/enums.py` that the modelled code uses, each with its members
--   numbered, so that `is` and `in` compute.
-- - Errors: an error is its class (`app/domain/errors.py` and the classes beside the services); the
--   message is left out. `Result` is a call that returns or raises.
-- - Time, Text: `datetime` as microseconds since the year 1, naive or aware; `str` as code points.
-- - Lifecycle: the transition tables of appointments (`app/domain/appointments.py`), payments and
--   refunds (`app/domain/payments.py`), reservations (`app/domain/reservations.py`) and deletion
--   requests (`app/domain/privacy.py`). Runs states what a sequence of accepted changes keeps.
-- - Projection: `app/domain/schedule_projection.py` in full. Ranges are minutes of a day; Groups is
--   the dict of interval lists that the overlap checks build; Schedules is one member's rules and
--   exceptions and their working ranges of a date; Zones turns wall clocks into instants; Slots is
--   the loop that offers slots; Day is `AvailabilityProjector.project_day`, over all members.
-- - Availability: `app/domain/availability.py`, the rules that a new window passes.
-- - Booking: `app/domain/booking.py`, phone numbers, service durations and bookable dates.
-- - Payments: `app/domain/payments.py` and `app/services/payment_service.py`. Money is exact
--   decimals turned into hundredths; Metadata the safe mapping; Records the aggregates; Charges what
--   an authoritative answer does to a payment; Intents the calls to the provider; Refunds what
--   answers and failures do to a payment and one refund, with the account of all refunds in
--   Refunds.Ledger (`_ensure_refund` of `app/services/payment_coordinator.py`); Webhooks the events.
-- - Reservations: `app/services/reservation_service.py` in full, over a store of reservations,
--   windows, appointments, payments and audit events. Store has the rows and the queries of
--   `app/repositories/reservation_repository.py` that the service and the worker call; Rules the
--   private checks; Create, Consume and Expire one method each; Worker the cycle of
--   `app/workers/reservation_expiry.py`, each hold inside its savepoint; Prepayment what a client
--   reports of a manual prepayment (`app/services/manual_prepayment_service.py`), with the staff's
--   Reminders. The other modules are about one promise each, such as Exclusive and Reachable (one
--   hold of a window), Paid, Reconciled and Consumed (what becomes of a paid hold), Reported (a hold
--   under review), Expiry, Overdue and Finished (the worker).
-- - Staff: `app/schemas/authorization.py` and `app/services/authorization_service.py`, over a
--   directory of businesses, users, memberships, invitations and audit events. Permissions and Roles
--   are the matrix; Rows the queries of `app/repositories/staff_repository.py`; Rules the checks of
--   an actor; Members the methods on a membership; Invitations the one-time invitations. Authority
--   is about owners, Access about revoked members, Specialists and Derived about the business
--   type, Accepted about used invitations.
-- - Examples: concrete inputs, with the theorems applied to them.
--
-- A method that mutates returns an `Outcome`: the aggregates as they are at its end, and its value
-- or its error. Nothing is undone by raising, as in the source, where the caller's transaction
-- decides; `expire_each` of the worker gives up the store of a hold that raised, as its savepoint
-- does, and `_ensure_refund` or a method of `AuthorizationService` or `ManualPrepaymentService`
-- that raises before its commit leaves all as it was. The identifiers of new rows are arguments.
-- The calls to a payment provider, the timezone database (`ZoneInfo`), `str.casefold` of a name and
-- `str.isdecimal` are parameters. Two laws of such parameters are assumed where they are named: a
-- zone that is ahead of UTC by a constant, and that no decimal digit is a separator.
--
-- The `while` loop of a slot range runs on fuel, one more than the range's length in microseconds;
-- a step of a minute or more ends it before, so that the fuel never ends the loop. With a step of
-- zero, which the callers refuse, the source's loop would not end, and the model's ends by its fuel.
-- The decimal digits of a number have the number itself and one as fuel.
--
-- Not modelled: Telegram handlers, keyboards, the HTTP API, columns that the modelled methods do not
-- read or write, migrations, configuration, logging, and the remaining services. Row locks
-- (`FOR UPDATE`, `SKIP LOCKED`), unique indexes and the `IntegrityError` they raise are left out: a
-- call runs alone, and a query by a unique key returns the first row. Of `AuthorizationService`,
-- the lists, profiles, social links, service assignments, `reassign_future_appointments` and
-- `bootstrap_owners` are left out; of an accepted invitation, the names of the Telegram user; of an
-- invitation's token, its randomness and its digest, which are arguments. Message texts are left
-- out everywhere, and correlation ids outside the reservations.
pub mod Availability
pub mod Base
pub mod Booking
pub mod Enums
pub mod Errors
pub mod Examples
pub mod Lifecycle
pub mod Payments
pub mod Projection
pub mod Reservations
pub mod Staff
pub mod Text
pub mod Time
