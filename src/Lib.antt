-- ===== src/Lib.antt =====
-- The scheduling backend of costa-turnos: appointments, charges and prices.
--
-- The program is a NestJS service over one database. A client books an hour of a professional in a
-- comercio (a membership joins the two), without payment, with payment on the spot, or online through
-- Mercado Pago; an online payment holds the hour until the webhook reports it. On the day the client
-- arrives, gets a number, waits in the queue of the room, is attended to and charged. Paths are
-- those of the repository.
--
--   Base, Enums    tests and lists over the native numbers, results with the HTTP errors, and the enums
--                  of src/common/enums/index.ts.
--   Store          Rows: the entities of src/modules/*/entities. Table: a table is the list of its rows
--                  in the order of the inserts; `save` replaces the row with the same key or adds it.
--                  Db: the tables, and a service call as an action on them, a function from the tables
--                  to a result and the tables after. What is written before an exception stays, unless
--                  the call runs in `transaction`. Frame: what every step of a call keeps, the call keeps.
--   Pricing        src/modules/catalog/pricing.ts.
--   Combination    src/modules/catalog/service-combination-rules.service.ts: `resolve_addons`,
--                  `apply_pricing`; Create: `create` and the unique constraint of the table.
--   Payments       src/modules/payments/payments.service.ts: the manual changes of a payment, the audit
--                  entry, the token of the seller and the preference.
--   Charge         src/modules/payments/charge.service.ts: `summary_of` and the parts of the sum;
--                  Operations: `create_qr`, `mark_paid`, `mark_deferred`, `revert`.
--   Identity       src/modules/identity/persons.service.ts: the person of a client or of an account.
--   Booking        src/modules/appointments/appointments.service.ts, the bookings. Booking: what occupies
--                  an hour, the window of the membership, the person. Book: `book`. Quote: what
--                  is charged. Deposit: `book_with_deposit`, with `plan_slot` (who gives way), the hold
--                  and `open_checkout`. Confirm: `confirm_paid_booking`, `release_pending`,
--                  `purge_expired_holds`.
--   Webhook        `handleWebhook` of payments.service.ts, over the port `AppointmentConfirmer`, which
--                  Booking fills.
--   WaitingRoom    src/modules/appointments/appointments.service.ts, the room: `mark_arrival`, the order of
--                  the queue; Queue: the calls of the professional and of the client; Eta: places and
--                  estimated times, in the order of Turns; Client: the personal link.
--   Lifecycle      the same file, the transitions of an appointment. Steps: its state machine; Terminal: the
--                  final states under the calls that write appointments, by the rules of Final for
--                  those of the transitions and the room (Writes), of new rows (NewRows, Deposits).
--   Subscriptions  src/modules/subscriptions/subscriptions.service.ts: the daily transitions and the access;
--                  Renewal: payments, checkout, webhook, and the guard src/common/guards/subscription.guard.ts.
--   Availability   src/modules/availability/availability.service.ts: the windows without appointments; Rules: the
--                  rules and time off; Slots: `build_slots_with_counts`; Inputs: what it is given, and the
--                  slots of a membership; Days: the summary of each day; Summaries: the slots and
--                  the days of a service, of all its professionals, with ServiceDays for the days.
--   Assignment     src/modules/appointments/appointments.service.ts, reservations that name a membership or a
--                  service alone: `book_for_membership`, `rank_candidates`, `book_for_service` and their
--                  twins with a deposit.
--   Tests          a small agenda, and the properties at it.
--
-- Conventions. Keys, instants (milliseconds since the epoch), tokens, addresses and telephone numbers are
-- natural numbers; amounts are cents, percentages hundredths of a percent, and `Math.round` of a
-- quotient rounds half up. A call reads the clock once: `now` is an argument. The keys of the rows that
-- a call creates are arguments, for each attempt of a search of its own, as is the random token of a link; a theorem that needs a key to be new
-- says so. The texts of the exceptions are left out; what is kept is which exception it is. The loops
-- of the code run over lists and are structural recursions, but for the `while` over the hours of a
-- rule, which runs on fuel: one round more than the window has milliseconds, and every round moves on
-- by the duration, which is at least a minute. A day of the calendar is a number, and a day that is
-- added to the present instant is 24 hours.
--
-- Code that is not in the repository is a parameter: the provider of Mercado Pago and its OAuth client
-- (`Provider`), the bounds of the day in the professional's time zone (`Day`) and the calendar
-- of a zone (`Luxon`), which luxon computes.
-- The durations of the visits (the average of the last visits that a query computes, or the configured
-- one) are a parameter of the estimated times.
--
-- Not modelled: the locks (a call runs alone), row level security, the broadcast of the room, push and
-- mail, the controllers, and the components that only create, read and update their rows. Of the
-- hours of the agenda the listings and the week of the windows without appointments are left out.
pub mod Base
pub mod Enums
pub mod Store
pub mod Pricing
pub mod Combination
pub mod Payments
pub mod Charge
pub mod Identity
pub mod Booking
pub mod Webhook
pub mod WaitingRoom
pub mod Lifecycle
pub mod Assignment
pub mod Availability
pub mod Subscriptions
pub mod Tests
