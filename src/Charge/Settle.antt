-- ===== src/Charge/Settle.antt =====
-- `markPaid` of src/modules/payments/charge.service.ts ("ya pagó"), step by step, and what is due after it.
use back_costa_turnos.Base.{
  ℕ, ◌≡◌, refl, ◌∙◌, inl, inr, false, ◌&&◌, ◌||◌, Option, none, some, List, [], ◌∷◌, ◌++◌, map,
  arith, ltb, nat_beq_refl, if◌then◌else◌, ◌==◌, nat_coded, Bool-cases, filter, find?,
}
use Prim.Native.String.{String}
use back_costa_turnos.Base.Http.{ok}
use back_costa_turnos.Enums.{
  AppointmentStatus, appointment_status_coded, PaymentStatus, payment_status_coded,
  payment_method_coded,
}
use back_costa_turnos.Store.Rows.{Appointment, Payment, AuditLog, AuditAction}
use back_costa_turnos.Store.Table.{save, save_each, payment_row}
use back_costa_turnos.Store.TableLaws.{IsFresh}
use back_costa_turnos.Store.SaveEach.{IsFresh-save_each, IsFresh-filter}
use back_costa_turnos.Store.Db.{Db, ◌>>=◌}
use back_costa_turnos.Payments.{Provider}
use back_costa_turnos.Charge.{
  ChargeSummary, of_appointment, payments_of, net_paid, total_of, due_of, summary_of,
  load_appointment,
}
use back_costa_turnos.Charge.Operations.{
  ManualMethod, chosen, audited, settled, failed, new_payment, is_open_manual, is_open_qr, summary,
  charge_rest, mark_paid_open, mark_paid,
}
use back_costa_turnos.Charge.Sums.{
  save_and_audit_lem, due_paid, net_paid_one, due_of-save, due_of_lem, due_cents_lem,
  fully_paid_due,
}

module _ (provider : Provider) (tenant_id account_id : ℕ) where
  -- The appointment is the tenant's and is not cancelled or missed.
  pub record IsChargeable (db : Db) (apt : Appointment) : Type 0 where
    pub stored :
        find? (λ a. a.id == apt.id && a.professional_id == tenant_id) db.appointments ≡ some apt
    pub chargeable :
        (apt.status == AppointmentStatus.cancelled || apt.status == AppointmentStatus.no_show)
        ≡ false

  load_appointment_lem :
      (db : Db) (apt : Appointment)
      → IsChargeable db apt
      → load_appointment tenant_id apt.id db ≡ (ok apt, db)
  unfolding load_appointment
  load_appointment_lem db apt c = let h = c.stored in let k = c.chargeable in rw h (rw k)

  summary_lem :
      (db : Db) (apt : Appointment)
      → IsChargeable db apt
      → summary provider tenant_id account_id apt.id db
        ≡ (ok (summary_of provider.is_configured db tenant_id apt), db)
  unfolding summary
  summary_lem db apt c = ground (arith, load_appointment_lem db apt c)

  -- The tables after the open payments are settled and an open QR is superseded.
  abbrev settled_rows : ManualMethod → Option String → ℕ → ℕ → Db → List Payment
  settled_rows method memo now apt_id db =
      save_each failed (filter is_open_qr (payments_of db apt_id)) (
        save_each (settled method memo now) (filter is_open_manual (payments_of db apt_id))
          db.payments)

  abbrev created : ℕ → ManualMethod → Option String → ℕ → Appointment → ℕ → Payment
  created new_id method memo now apt due =
      new_payment new_id tenant_id apt (chosen method) PaymentStatus.paid due (some now) memo

  abbrev rest_db : ℕ → ManualMethod → Option String → ℕ → Appointment → ℕ → Db → Db
  rest_db new_id method memo now apt due db =
      if ltb 0 due
      then record db {
        payments = save (created new_id method memo now apt due) db.payments;
        audit_logs =
            db.audit_logs
            ++ audited provider tenant_id account_id AuditAction.mark_paid none
                (created new_id method memo now apt due)
              ∷ [];
      }
      else db

  charge_rest_lem :
      (new_id : ℕ) (method : ManualMethod) (memo : Option String) (now : ℕ) (apt : Appointment)
      (due : ℕ) (db : Db)
      → charge_rest provider tenant_id account_id new_id method memo now apt due db
        ≡ (ok tt, rest_db new_id method memo now apt due db)
  unfolding charge_rest
  charge_rest_lem new_id method memo now apt due db = elim (Bool-cases (ltb 0 due)) [
    | inl e ↦ rw e
    | inr e ↦ rw e
  ]

  due_of-rest_db :
      (new_id : ℕ) (method : ManualMethod) (memo : Option String) (now : ℕ) (apt : Appointment)
      (d : ℕ) (db : Db)
      → IsFresh new_id db.payments
      → d ≡ due_of db apt
      → due_of (rest_db new_id method memo now apt d db) apt ≡ 0
  due_of-rest_db new_id method memo now apt d db fresh q = elim (Bool-cases (ltb 0 d)) [
    | inl e ↦
        let row = created new_id method memo now apt d in
        rw
          (
            e,
            due_of-save db apt row _ fresh (nat_beq_refl apt.id),
            net_paid_one d row refl refl refl,
            q ∙ due_of_lem db apt,
          )
          (due_paid (total_of db apt) (net_paid (payments_of db apt.id)))
    | inr e ↦ ground (arith, e, q)
  ]

  abbrev open_log : ManualMethod → Option String → ℕ → ℕ → Db → List AuditLog
  open_log method memo now apt_id db =
      (db.audit_logs
        ++ map
            (λ p.
              audited provider tenant_id account_id AuditAction.mark_paid (some p.status)
                (settled method memo now p))
            (filter is_open_manual (payments_of db apt_id)))
      ++ map (λ p. audited provider tenant_id account_id AuditAction.superseded none (failed p))
          (filter is_open_qr (payments_of db apt_id))

  abbrev mid_db : ManualMethod → Option String → ℕ → ℕ → Db → Db
  mid_db method memo now apt_id db = record db {
    payments = settled_rows method memo now apt_id db;
    audit_logs = open_log method memo now apt_id db;
  }

  abbrev final_db : ℕ → ManualMethod → Option String → ℕ → Appointment → Db → Db
  final_db new_id method memo now apt db =
      rest_db new_id method memo now apt (due_of (mid_db method memo now apt.id db) apt)
        (mid_db method memo now apt.id db)

  IsChargeable-rest_db :
      (new_id : ℕ) (method : ManualMethod) (memo : Option String) (now : ℕ) (apt : Appointment)
      (d : ℕ) (db : Db)
      → IsChargeable db apt
      → IsChargeable (rest_db new_id method memo now apt d db) apt
  IsChargeable-rest_db new_id method memo now apt d db c = elim (Bool-cases (ltb 0 d)) [
    | inl e ↦ rw e (record { stored = c.stored; chargeable = c.chargeable })
    | inr e ↦ rw e c
  ]

  IsFresh-settled_rows :
      (method : ManualMethod) (memo : Option String) (now k apt_id : ℕ) (db : Db)
      → IsFresh k db.payments
      → IsFresh k (settled_rows method memo now apt_id db)
  IsFresh-settled_rows method memo now k apt_id db fresh =
      let rows = IsFresh-filter k (of_appointment apt_id) db.payments fresh in
      IsFresh-save_each failed k _ _ (λ p. refl) (IsFresh-filter k is_open_qr _ rows)
        (IsFresh-save_each (settled method memo now) k _ _ (λ p. refl)
          (IsFresh-filter k is_open_manual _ rows) fresh)

  mark_paid_open_lem :
      (new_id now : ℕ) (method : ManualMethod) (memo : Option String) (apt : Appointment) (db : Db)
      → IsChargeable db apt
      → mark_paid_open provider tenant_id account_id new_id now method memo apt.id db ≡ (
        ok (
            summary_of provider.is_configured
              (final_db new_id method memo now apt db)
              tenant_id
              apt),
        final_db new_id method memo now apt db,
      )
  unfolding mark_paid_open
  mark_paid_open_lem new_id now method memo apt db c =
      let mid = mid_db method memo now apt.id db in
      let at_mid : IsChargeable mid apt = record { stored = c.stored; chargeable = c.chargeable } in
      simp (
        load_appointment_lem db apt c,
        save_and_audit_lem,
        summary_lem mid apt at_mid,
        due_cents_lem,
        charge_rest_lem,
        summary_lem (final_db new_id method memo now apt db) apt
            (IsChargeable-rest_db new_id method memo now apt _ mid at_mid),
        ◌>>=◌,
      )

  -- Marking an appointment that is neither cancelled nor missed as paid, with a fresh key for a new
  -- payment, always returns, and nothing is due afterwards, neither in the summary nor in the tables.
  pub mark_paid_settles :
      (new_id now : ℕ) (method : ManualMethod) (memo : Option String) (apt : Appointment) (db : Db)
      → IsChargeable db apt
      → IsFresh new_id db.payments
      → (s : ChargeSummary) × (db' : Db) × (mark_paid provider tenant_id account_id new_id now
            method memo apt.id db
          ≡ (ok s, db'))
        × (s.due_cents ≡ 0)
        × (due_of db' apt ≡ 0)
  unfolding mark_paid
  mark_paid_settles new_id now method memo apt db c fresh =
      elim (Bool-cases (summary_of provider.is_configured db tenant_id apt).fully_paid) [
        | inl e ↦
            let none_due = fully_paid_due provider.is_configured db tenant_id apt e in
            (
              summary_of provider.is_configured db tenant_id apt,
              db,
              simp (summary_lem db apt c, e, ◌>>=◌),
              due_cents_lem provider.is_configured db tenant_id apt ∙ none_due,
              none_due,
            )
        | inr e ↦
            let mid = mid_db method memo now apt.id db in
            let final = final_db new_id method memo now apt db in
            let none_due =
              due_of-rest_db new_id method memo now apt (due_of mid apt) mid
                (IsFresh-settled_rows method memo now new_id apt.id db fresh) refl in
            (
              summary_of provider.is_configured final tenant_id apt,
              final,
              simp (summary_lem db apt c, e, ◌>>=◌)
                  (mark_paid_open_lem new_id now method memo apt db c),
              due_cents_lem provider.is_configured final tenant_id apt ∙ none_due,
              none_due,
            )
      ]
