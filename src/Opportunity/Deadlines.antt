-- ===== src/Opportunity/Deadlines.antt =====
-- The scheduler's run closes exactly the opportunities that are due.
use campus_hr_b.Prelude.{
  ℕ, ◌≡◌, ◌≤◌, refl, ap, sym, ◌∙◌, Bool, true, false, is_some, ◌&&◌, List, [], ◌∷◌, map, arith,
  if◌then◌else◌, Bool-cases, Option-cases, inl, inr,
}
use campus_hr_b.Session.{Server, Session, Result, ok, err, illegal_character_error}
use campus_hr_b.Table.{first, filter, update_where}
use campus_hr_b.Table.Count.{count, count_zero_of_missing}
use campus_hr_b.Table.Rows.{update_where_absent, count-update_where_same}
use campus_hr_b.Table.Order.{AllRows}
use campus_hr_b.Opportunity.Model.{
  Opportunity, Registration, Db, World, has_id, is_due, registered_for,
}
use campus_hr_b.Opportunity.Service.{
  Office, process_deadlines, close_all, export_sheet, generate_excel_export, get_opportunity,
  close_opportunity,
}
use campus_hr_b.Opportunity.Api.{run_deadlines}

abbrev pub closed : Opportunity → Opportunity
closed opp = record opp { status = "closed" }

abbrev pub closed_if_due : ℕ → Opportunity → Opportunity
closed_if_due now opp = if is_due now opp then closed opp else opp

abbrev close_list : List Opportunity → List Opportunity → List Opportunity
close_list [] opps = opps
close_list (d ∷ due) opps = close_list due (update_where (has_id d.id) closed opps)

abbrev mk : Db → World → Session Db World
mk db w = record { saved = db; work = db; world = w }

abbrev with_opportunities : List Opportunity → Db → Db
with_opportunities opps db = record db { opportunities = opps }

-- the key of each row to close is there
abbrev AllThere : List Opportunity → List Opportunity → Type 0
AllThere opps due = AllRows (λ d. 1 ≤ count (has_id d.id) opps) due

AllThere-update :
    (opps due : List Opportunity) (k : ℕ)
    → AllThere opps due
    → AllThere (update_where (has_id k) closed opps) due
AllThere-update opps [] k h = tt
AllThere-update opps (d ∷ due) k h = (
  rw (count-update_where_same (has_id d.id) (has_id k) closed opps (λ a e. refl)) h.0,
  AllThere-update opps due k h.1,
)

module _ (office : Office) (regs : List Registration) where
  -- openpyxl takes the sheet of the opportunity
  abbrev pub exports : Opportunity → Bool
  exports opp = is_some (office.save (export_sheet office (filter (registered_for opp.id) regs)))

  -- the opportunities before the first one whose export fails
  abbrev served : List Opportunity → List Opportunity
  served [] = []
  served (d ∷ due) = if exports d then d ∷ served due else []

  abbrev pub result_of : Bool → Result (Unit {0})
  result_of true = ok tt
  result_of false = err illegal_character_error

  abbrev all_export : List Opportunity → Bool
  all_export [] = true
  all_export (d ∷ due) = exports d && all_export due

  -- the opportunities that are due are closed in their order, up to the first whose export fails
  abbrev pub closed_until : ℕ → List Opportunity → List Opportunity
  closed_until now [] = []
  closed_until now (x ∷ xs) =
      if is_due now x
      then (if exports x then closed x ∷ closed_until now xs else x ∷ xs)
      else x ∷ closed_until now xs

  -- no export of one that is due fails
  abbrev pub due_export : ℕ → List Opportunity → Bool
  due_export now opps = all_export (filter (is_due now) opps)

module _ (office : Office) (w : World) where
  close_all-eq :
      (due : List Opportunity) (db : Db)
      → AllThere db.opportunities due
      → close_all office due (mk db w) ≡ (
        result_of office db.registrations (all_export office db.registrations due),
        mk
            (with_opportunities
              (close_list (served office db.registrations due) db.opportunities)
              db)
            w,
      )
  unfolding close_all generate_excel_export get_opportunity close_opportunity
  close_all-eq [] db there = refl
  close_all-eq (d ∷ due) db there = elim (Option-cases (first (has_id d.id) db.opportunities)) [
    | inl e ↦
        absurd (omega (arith, there.0, count_zero_of_missing (has_id d.id) db.opportunities e))
    | inr (opp, e) ↦
        elim (Option-cases
          (office.save (export_sheet office (filter (registered_for d.id) db.registrations)))) [
            | inl fails ↦ rw (e, fails) refl
            | inr (bytes, saves) ↦
                rw (e, saves)
                  (close_all-eq due
                    (with_opportunities (update_where (has_id d.id) closed db.opportunities) db)
                    (AllThere-update db.opportunities due d.id there.1))
          ]
  ]

abbrev Unique : List Opportunity → Type 0
Unique opps = (k : ℕ) → count (has_id k) opps ≤ 1

-- closing rows of other keys leaves the first row
close_list-cons :
    (due : List Opportunity) (x y : Opportunity) (xs : List Opportunity)
    → AllRows (λ d. has_id x.id d ≡ false) due
    → y.id ≡ x.id
    → close_list due (y ∷ xs) ≡ y ∷ close_list due xs
unfolding update_where
close_list-cons [] x y xs others own = refl
close_list-cons (d ∷ due) x y xs others own =
    let miss : has_id d.id y ≡ false = ground (arith, others.0) in
    rw miss (close_list-cons due x y (update_where (has_id d.id) closed xs) others.1 own)

others_of_count :
    (p q : Opportunity → Bool) (xs : List Opportunity)
    → count p xs ≡ 0
    → AllRows (λ d. p d ≡ false) (filter q xs)
unfolding count filter
others_of_count p q [] h = tt
others_of_count p q (x ∷ xs) h = elim (Bool-cases (q x)) [
  | inl hit ↦ rw hit (ground arith, others_of_count p q xs (ground arith))
  | inr miss ↦ rw miss (others_of_count p q xs (ground arith))
]

close_first :
    (x : Opportunity) (xs : List Opportunity)
    → count (has_id x.id) xs ≡ 0
    → update_where (has_id x.id) closed (x ∷ xs) ≡ closed x ∷ xs
unfolding update_where
close_first x xs alone = ground (arith, update_where_absent (has_id x.id) closed xs alone)

module _ (office : Office) (regs : List Registration) where
  served-others :
      (x : Opportunity) (due : List Opportunity)
      → AllRows (λ d. has_id x.id d ≡ false) due
      → AllRows (λ d. has_id x.id d ≡ false) (served office regs due)
  served-others x [] all = tt
  served-others x (d ∷ due) all = elim (Bool-cases (exports office regs d)) [
    | inl saves ↦ rw saves (all.0, served-others x due all.1)
    | inr fails ↦ rw fails tt
  ]

  close_list-served :
      (now : ℕ) (opps : List Opportunity)
      → Unique opps
      → close_list (served office regs (filter (is_due now) opps)) opps
        ≡ closed_until office regs now opps
  unfolding filter count
  close_list-served now [] u = refl
  close_list-served now (x ∷ xs) u =
      let alone : count (has_id x.id) xs ≡ 0 = ground (arith, u x.id) in
      let due = served office regs (filter (is_due now) xs) in
      let others : AllRows (λ d. has_id x.id d ≡ false) due =
        served-others x (filter (is_due now) xs)
          (others_of_count (has_id x.id) (is_due now) xs alone) in
      let later : close_list due xs ≡ closed_until office regs now xs =
        close_list-served now xs (λ k. ground (arith, u k)) in
      elim (Bool-cases (is_due now x)) [
        | inl is ↦ elim (Bool-cases (exports office regs x)) [
          | inr fails ↦ rw (is, fails) refl
          | inl saves ↦
              rw (is, saves)
                (ap (close_list due) (close_first x xs alone)
                  ∙ close_list-cons due x (closed x) xs others refl
                  ∙ ap (λ rest. closed x ∷ rest) later)
        ]
        | inr open' ↦
            rw open' (close_list-cons due x x xs others refl ∙ ap (λ rest. x ∷ rest) later)
      ]

there_in :
    (q : Opportunity → Bool) (opps ys : List Opportunity)
    → ((k : ℕ) → count (has_id k) ys ≤ count (has_id k) opps)
    → AllThere opps (filter q ys)
unfolding filter count
there_in q opps [] h = tt
there_in q opps (y ∷ ys) h =
    let rest : AllThere opps (filter q ys) = there_in q opps ys (λ k. ground (arith, h k)) in
    elim (Bool-cases (q y)) [
      | inl hit ↦ rw hit (ground (arith, h y.id), rest)
      | inr miss ↦ rw miss rest
    ]

-- Where the keys are unique, the run closes the published opportunities whose deadline has come, in
-- the order in which the database answers them, up to the first one for which openpyxl takes no
-- sheet, and changes nothing else; it ends with that error if there is such a one, and without an
-- error if there is none.
pub run_deadlines_closes :
    (office : Office) (now : ℕ) (s : Server Db World)
    → ((k : ℕ) → count (has_id k) s.db.opportunities ≤ 1)
    → run_deadlines office now s ≡ (
      result_of office s.db.registrations
          (due_export office s.db.registrations now s.db.opportunities),
      record s {
        db = record s.db {
          opportunities = closed_until office s.db.registrations now s.db.opportunities;
        };
      },
    )
unfolding run_deadlines process_deadlines
run_deadlines_closes office now s u =
    rw
      (
        close_all-eq office s.world (filter (is_due now) s.db.opportunities) s.db
            (there_in (is_due now) s.db.opportunities s.db.opportunities (λ k. omega arith)),
        close_list-served office s.db.registrations now s.db.opportunities u,
      )
      refl

-- a run that ends without an error has closed all that is due
closed_until-eq-map :
    (office : Office) (regs : List Registration) (now : ℕ) (opps : List Opportunity)
    → due_export office regs now opps ≡ true
    → closed_until office regs now opps ≡ map (closed_if_due now) opps
unfolding filter
closed_until-eq-map office regs now [] h = refl
closed_until-eq-map office regs now (x ∷ xs) h = elim (Bool-cases (is_due now x)) [
  | inr open' ↦
      rw open' (ap (λ rest. x ∷ rest) (closed_until-eq-map office regs now xs (rw open' at h)))
  | inl due ↦ elim (Bool-cases (exports office regs x)) [
    | inl saves ↦
        rw (due, saves)
          (ap (λ rest. closed x ∷ rest)
            (closed_until-eq-map office regs now xs (rw (due, saves) at h)))
    | inr fails ↦ absurd (cc (rw (due, fails) at h))
  ]
]

pub run_deadlines_ok :
    (office : Office) (now : ℕ) (s : Server Db World)
    → ((k : ℕ) → count (has_id k) s.db.opportunities ≤ 1)
    → (run_deadlines office now s).0 ≡ ok tt
    → (run_deadlines office now s).1.db.opportunities ≡ map (closed_if_due now) s.db.opportunities
run_deadlines_ok office now s u fine =
    let run = run_deadlines_closes office now s u in
    let regs = s.db.registrations in
    ap (λ r. r.1.db.opportunities) run
    ∙ closed_until-eq-map office regs now s.db.opportunities
        (all_of (due_export office regs now s.db.opportunities) (sym (ap (λ r. r.0) run) ∙ fine))
  where
    all_of : (b : Bool) → result_of office s.db.registrations b ≡ ok tt → b ≡ true
    all_of true e = refl
    all_of false e = cc e
