-- ===== src/Store/Table.antt =====
-- The repository calls of TypeORM that the services use, over a table as the list of its rows.
-- `save` writes by primary key: it replaces the row with that key, or adds one.
use back_costa_turnos.Base.{
  ℕ, Bool, not, Option, List, [], ◌∷◌, nat_beq, if◌then◌else◌, find?, filter,
}
use back_costa_turnos.Store.Rows.{
  Appointment, Payment, PendingBooking, Professional, Person, Membership, Comercio, Service,
  ScheduleRule, TimeOff,
}

-- The primary key of an entity.
pub record Row (A : Type 0) : Type 0 where
  pub key : A → ℕ

instance abbrev pub appointment_row : Row Appointment
appointment_row = record { key = λ a. a.id }

instance abbrev pub payment_row : Row Payment
payment_row = record { key = λ p. p.id }

instance abbrev pub pending_booking_row : Row PendingBooking
pending_booking_row = record { key = λ p. p.id }

instance abbrev pub professional_row : Row Professional
professional_row = record { key = λ p. p.id }

instance abbrev pub person_row : Row Person
person_row = record { key = λ p. p.id }

instance abbrev pub membership_row : Row Membership
membership_row = record { key = λ m. m.id }

instance abbrev pub comercio_row : Row Comercio
comercio_row = record { key = λ c. c.id }

instance abbrev pub service_row : Row Service
service_row = record { key = λ s. s.id }

instance abbrev pub schedule_rule_row : Row ScheduleRule
schedule_rule_row = record { key = λ r. r.id }

instance abbrev pub time_off_row : Row TimeOff
time_off_row = record { key = λ t. t.id }

module _ {A : Type 0} ⦃r : Row A⦄ where
  unfoldable pub find_key : ℕ → List A → Option A
  find_key k xs = find? (λ x. nat_beq (r.key x) k) xs

  unfoldable pub save : A → List A → List A
  save a [] = a ∷ []
  save a (x ∷ xs) = if nat_beq (r.key x) (r.key a) then a ∷ xs else x ∷ save a xs

  -- A loop that changes each row of a list and saves it.
  unfoldable pub save_each : (A → A) → List A → List A → List A
  save_each f [] xs = xs
  save_each f (p ∷ ps) xs = save_each f ps (save (f p) xs)

unfoldable pub delete_where : {A : Type 0} → (A → Bool) → List A → List A
delete_where p xs = filter (λ x. not (p x)) xs
